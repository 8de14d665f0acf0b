-- ===== src/Controller/Threads.antt =====
-- The threads of the controller of discstakka/device.py (lines 133 to 204) on its two locks: the
-- interleavings are sequences of steps. Every use of `_lock` is one step. Who holds `_device` is the
-- holder; the worker of a job waits for it, runs the job to its end and gives it back. The keeper and
-- a claim test `current` before they take the lock, and may be overtaken by a job in between, so their
-- steps ask only that the lock is free.
use disc_stakka_web.Base.{
  ℕ, Bool, true, false, ◌==◌, if◌then◌else◌, Option, none, some, List, [], ◌∷◌, ◌≡◌, ◌⊎◌,
}
use disc_stakka_web.Jobs
use disc_stakka_web.Jobs.{Job}
use disc_stakka_web.Jobs.Registry.{new_registry}
use disc_stakka_web.Controller.Submit.{
  Controller, Runner, Submitted, busy, started, set_job, finished_at, submit,
}

pub data Holder : Type 0 where
  worker : ℕ → Holder
  keeper : Holder
  claim : Holder

pub record System : Type 0 where
  pub controller : Controller
  pub waiting : List ℕ
  pub holder : Option Holder

abbrev pub remove : ℕ → List ℕ → List ℕ
remove k [] = []
remove k (x ∷ xs) = let rest = remove k xs in if x == k then rest else x ∷ rest

abbrev pub holds : ℕ → List ℕ → Bool
holds k [] = false
holds k (x ∷ xs) = if x == k then true else holds k xs

-- A worker writes into its job, which stays done once it is.
abbrev pub write_job : ℕ → Job → Controller → Controller
write_job ref job c = record c { job_at = set_job ref job c.job_at }

-- The thread of a job that was started waits for the unit.
abbrev pub queue : Submitted → List ℕ → List ℕ
queue (busy ref) waiting = waiting
queue (started ref) waiting = ref ∷ waiting

pub data Step (s : System) (t : System) : Type 0 where
  -- `submit` of a new job, at any time: it refuses the job, or starts a thread for it.
  submits :
      (job : Job) (runner : Runner)
      → Jobs.finished job ≡ false
      → t ≡ record s {
        controller = (submit job runner s.controller).1;
        waiting = queue (submit job runner s.controller).0 s.waiting;
      }
      → Step s t
  -- `with self._device` in `_run`.
  begins :
      (ref : ℕ)
      → holds ref s.waiting ≡ true
      → s.holder ≡ none
      → t ≡ record s { waiting = remove ref s.waiting; holder = some (worker ref) }
      → Step s t
  -- A change of the job by its runner.
  works :
      (ref : ℕ) (job : Job)
      → s.holder ≡ some (worker ref)
      → (finished_at s.controller ref ≡ false) ⊎ (Jobs.finished job ≡ true)
      → t ≡ record s { controller = write_job ref job s.controller }
      → Step s t
  -- The end of `_run_owned`, which leaves the job done.
  ends :
      (ref : ℕ)
      → s.holder ≡ some (worker ref)
      → finished_at s.controller ref ≡ true
      → t ≡ record s { holder = none }
      → Step s t
  -- The keeper, and a claim.
  takes :
      (h : Holder)
      → (h ≡ keeper) ⊎ (h ≡ claim)
      → s.holder ≡ none
      → t ≡ record s { holder = some h }
      → Step s t
  gives :
      (h : Holder)
      → (h ≡ keeper) ⊎ (h ≡ claim)
      → s.holder ≡ some h
      → t ≡ record s { holder = none }
      → Step s t

-- The state after `__init__`.
abbrev pub start : (ℕ → Job) → ℕ → System
start jobs keep = record {
  controller = record {
    job_at = jobs;
    fresh = 0;
    current = none;
    registry = new_registry keep;
    threads = [];
  };
  waiting = [];
  holder = none;
}

pub data Reach (s : System) : System → Type 0 where
  here : Reach s s
  next : {t u : System} → Reach s t → Step t u → Reach s u
