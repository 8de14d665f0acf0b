-- ===== src/Controller/Submit.antt =====
-- The jobs of `DeviceController` in discstakka/device.py: `current`, `submit`, `info` and the test of
-- `_claimed`. A job is shared by the controller, the registry and the worker, so jobs stand in a
-- store, and each of these three holds a reference. Each method is one step, as its lock makes it.
use disc_stakka_web.Base.{
  ℕ, suc, Bool, true, false, ◌==◌, if◌then◌else◌, Option, none, some, List, ◌∷◌, ◌≡◌, refl, arith,
}
use disc_stakka_web.Jobs
use disc_stakka_web.Jobs.{Job}
use disc_stakka_web.Jobs.Registry
use disc_stakka_web.Jobs.Registry.{JobRegistry, new_registry}

-- What `submit` is given as `runner` and `args`.
pub data Runner : Type 0 where
  reset_runner : Runner
  eject_runner : ℕ → Runner
  add_runner : ℕ → Option ℕ → Runner

pub record Controller : Type 0 where
  pub job_at : ℕ → Job
  pub fresh : ℕ
  pub current : Option ℕ
  pub registry : JobRegistry ℕ
  pub threads : List (ℕ × Runner)

-- A store with one job changed, or added.
abbrev pub set_job : ℕ → Job → (ℕ → Job) → ℕ → Job
set_job ref job jobs k = if k == ref then job else jobs k

abbrev pub finished_at : Controller → ℕ → Bool
finished_at c ref = Jobs.finished (c.job_at ref)

-- The property `current`: a job that is done does not count.
abbrev pub unless_done : Controller → Option ℕ → Option ℕ
unless_done c none = none
unless_done c (some ref) = if finished_at c ref then none else some ref

unfoldable pub current_job : Controller → Option ℕ
current_job c = unless_done c c.current

-- `Busy`, with the job that is in the way, or the reference of the job that was taken.
pub data Submitted : Type 0 where
  busy : ℕ → Submitted
  started : ℕ → Submitted

-- The part of `submit` behind its test.
unfoldable pub launch : Job → Runner → Controller → Submitted × Controller
launch job runner c = (
  started c.fresh,
  record c {
    job_at = set_job c.fresh job c.job_at;
    fresh = suc c.fresh;
    current = some c.fresh;
    registry = Registry.add job.id c.fresh c.registry;
    threads = (c.fresh, runner) ∷ c.threads;
  },
)

abbrev pub submit_past : Option ℕ → Job → Runner → Controller → Submitted × Controller
submit_past none job runner c = launch job runner c
submit_past (some ref) job runner c =
    if finished_at c ref then launch job runner c else (busy ref, c)

unfoldable pub submit : Job → Runner → Controller → Submitted × Controller
submit job runner c = submit_past c.current job runner c

-- A job in the way: `submit` says so and changes nothing. Otherwise it takes the job.
abbrev pub Refuses : Option ℕ → Job → Runner → Controller → Submitted × Controller → Type 0
Refuses (some ref) job runner c r = r ≡ (busy ref, c)
Refuses none job runner c r =
    (r.0 ≡ started c.fresh)
    × (r.1.current ≡ some c.fresh)
    × (r.1.threads ≡ (c.fresh, runner) ∷ c.threads)
    × (r.1.job_at c.fresh ≡ job)

launch-Refuses :
    (job : Job) (runner : Runner) (c : Controller) → Refuses none job runner c (launch job runner c)
unfolding launch
launch-Refuses job runner c = (refl, refl, refl, ground arith)

submit_past-Refuses :
    (current : Option ℕ) (job : Job) (runner : Runner) (c : Controller)
    → Refuses (unless_done c current) job runner c (submit_past current job runner c)
submit_past-Refuses none job runner c = launch-Refuses job runner c
submit_past-Refuses (some ref) job runner c = by_done (finished_at c ref)
  where
    by_done :
        (b : Bool)
        → Refuses
            (if b then none else some ref)
            job
            runner
            c
            (if b then launch job runner c else (busy ref, c))
    by_done true = launch-Refuses job runner c
    by_done false = refl

submit_past_free :
    (current : Option ℕ) (job : Job) (runner : Runner) (c : Controller)
    → unless_done c current ≡ none
    → submit_past current job runner c ≡ launch job runner c
submit_past_free none job runner c h = refl
submit_past_free (some ref) job runner c h = ground (arith, h)

pub submit_free :
    (job : Job) (runner : Runner) (c : Controller)
    → current_job c ≡ none
    → submit job runner c ≡ launch job runner c
unfolding submit current_job
submit_free job runner c h = submit_past_free c.current job runner c h

-- `submit` agrees with `current`: if there is a job that is not done, it is named in the refusal and
-- nothing changes; if there is none, the new job is the current one and its thread is started.
pub submit_takes_one_job :
    (job : Job) (runner : Runner) (c : Controller)
    → Refuses (current_job c) job runner c (submit job runner c)
unfolding submit current_job
submit_takes_one_job job runner c = submit_past-Refuses c.current job runner c
