-- ===== src/Controller/Orderly.antt =====
-- Whatever the interleaving of the controller's threads, one job at a time is under way.
use disc_stakka_web.Base.{
  ℕ, ◌<◌, true, false, Option, none, some, List, [], ◌∷◌, ◌≡◌, refl, sym, subst, ap, ◌∙◌, arith,
  ◌⊎◌, inl, inr,
}
use disc_stakka_web.Jobs
use disc_stakka_web.Jobs.{Job}
use disc_stakka_web.Controller.Submit.{
  Controller, Runner, Submitted, finished_at, current_job, launch, submit, Refuses, submit_free,
  submit_takes_one_job,
}
use disc_stakka_web.Controller.Threads.{
  Holder, worker, keeper, claim, System, remove, holds, write_job, queue, Step, submits, begins,
  works, ends, takes, gives, Reach, here, next, start,
}

-- A job whose worker waits is the current one and not done, and no second worker waits.
abbrev pub AllCurrent : Controller → List ℕ → Type 0
AllCurrent c [] = Unit
AllCurrent c (ref ∷ rest) =
    (ref < c.fresh) × (c.current ≡ some ref) × (finished_at c ref ≡ false) × (rest ≡ [])

-- The job of the worker that holds the unit is done, or it is the current one and no worker waits.
abbrev pub HolderIsCurrent : Controller → List ℕ → Option Holder → Type 0
HolderIsCurrent c waiting (some (worker ref)) =
    (ref < c.fresh) × ((finished_at c ref ≡ true) ⊎ ((c.current ≡ some ref) × (waiting ≡ [])))
HolderIsCurrent c waiting _ = Unit

abbrev pub IsOrderly : System → Type 0
IsOrderly s = AllCurrent s.controller s.waiting × HolderIsCurrent s.controller s.waiting s.holder

-- If there is no current job that is not done, no worker waits.
none_waiting :
    (c : Controller) (waiting : List ℕ) → AllCurrent c waiting → current_job c ≡ none → waiting ≡ []
unfolding current_job
none_waiting c [] a e = refl
none_waiting c (ref ∷ rest) a e = ground (arith, a.1, a.2)

-- Then the job of a worker that holds the unit is done.
none_running :
    (c : Controller) (ref : ℕ)
    → current_job c ≡ none
    → (finished_at c ref ≡ true) ⊎ (c.current ≡ some ref)
    → finished_at c ref ≡ true
unfolding current_job
none_running c ref e (inl d) = d
none_running c ref e (inr d) = ground (arith, d)

holder-launch :
    (c : Controller) (job : Job) (runner : Runner) (w w' : List ℕ) (h : Option Holder)
    → current_job c ≡ none
    → HolderIsCurrent c w h
    → HolderIsCurrent (launch job runner c).1 w' h
unfolding launch
holder-launch c job runner w w' none e p = tt
holder-launch c job runner w w' (some keeper) e p = tt
holder-launch c job runner w w' (some claim) e p = tt
holder-launch c job runner w w' (some (worker ref)) e p =
    let done = none_running c ref e (elim p.1 [ inl d ↦ inl d | inr d ↦ inr d.0 ]) in
    (omega (arith, p.0), inl (ground (arith, p.0)))

waiting-launch :
    (c : Controller) (job : Job) (runner : Runner) (waiting : List ℕ)
    → AllCurrent c waiting
    → current_job c ≡ none
    → Jobs.finished job ≡ false
    → AllCurrent (launch job runner c).1 (c.fresh ∷ waiting)
unfolding launch
waiting-launch c job runner waiting a e new =
    (omega arith, refl, ground (arith, new), none_waiting c waiting a e)

-- What is left of a call of `submit`: its answer and the controller.
abbrev AfterSubmit : List ℕ → Option Holder → Submitted × Controller → Type 0
AfterSubmit waiting h r =
    AllCurrent r.1 (queue r.0 waiting) × HolderIsCurrent r.1 (queue r.0 waiting) h

launch-AfterSubmit :
    (c : Controller) (job : Job) (runner : Runner) (waiting : List ℕ) (h : Option Holder)
    → AllCurrent c waiting × HolderIsCurrent c waiting h
    → current_job c ≡ none
    → Jobs.finished job ≡ false
    → AfterSubmit waiting h (launch job runner c)
unfolding launch
launch-AfterSubmit c job runner waiting h p e new = (
  waiting-launch c job runner waiting p.0 e new,
  holder-launch c job runner waiting (c.fresh ∷ waiting) h e p.1,
)

-- While a job is not done, `submit` refuses the next; else the job that it launches is current and
-- waits alone.
submits-IsOrderly :
    (s : System) (job : Job) (runner : Runner)
    → IsOrderly s
    → Jobs.finished job ≡ false
    → AfterSubmit s.waiting s.holder (submit job runner s.controller)
submits-IsOrderly s job runner p new =
    by_current (current_job s.controller) refl (submit_takes_one_job job runner s.controller)
  where
    by_current :
        (current : Option ℕ)
        → current_job s.controller ≡ current
        → Refuses current job runner s.controller (submit job runner s.controller)
        → AfterSubmit s.waiting s.holder (submit job runner s.controller)
    by_current (some ref) e r = subst (AfterSubmit s.waiting s.holder) (sym r) p
    by_current none e r =
        subst (AfterSubmit s.waiting s.holder) (sym (submit_free job runner s.controller e))
          (launch-AfterSubmit s.controller job runner s.waiting s.holder p e new)

-- A worker that waits alone takes the unit.
begins-IsOrderly :
    (c : Controller) (waiting : List ℕ) (ref : ℕ)
    → AllCurrent c waiting
    → holds ref waiting ≡ true
    → AllCurrent c (remove ref waiting) × HolderIsCurrent c (remove ref waiting) (some (worker ref))
begins-IsOrderly c [] ref a h = absurd (ground arith)
begins-IsOrderly c (x ∷ rest) ref a h =
    subst
      (λ l.
        holds ref (x ∷ l) ≡ true
        → AllCurrent c (remove ref (x ∷ l))
          × HolderIsCurrent c (remove ref (x ∷ l)) (some (worker ref)))
      (sym a.3) (λ h'. ground (arith, a.0, a.1)) h

-- The job of the worker that holds the unit changes; a worker that waits has another job.
waiting-write_job :
    (c : Controller) (waiting : List ℕ) (ref : ℕ) (job : Job)
    → (finished_at c ref ≡ true) ⊎ ((c.current ≡ some ref) × (waiting ≡ []))
    → AllCurrent c waiting
    → AllCurrent (write_job ref job c) waiting
waiting-write_job c [] ref job d a = tt
waiting-write_job c (x ∷ rest) ref job (inl d) a = (a.0, a.1, ground (arith, a.2), a.3)
waiting-write_job c (x ∷ rest) ref job (inr d) a = ground (arith, d.1)

works-IsOrderly :
    (s : System) (ref : ℕ) (job : Job)
    → IsOrderly s
    → s.holder ≡ some (worker ref)
    → (finished_at s.controller ref ≡ false) ⊎ (Jobs.finished job ≡ true)
    → IsOrderly (record s { controller = write_job ref job s.controller })
works-IsOrderly s ref job p e h =
    let c = s.controller in
    let at = subst (HolderIsCurrent c s.waiting) e p.1 in
    (
      waiting-write_job c s.waiting ref job at.1 p.0,
      subst (HolderIsCurrent (write_job ref job c) s.waiting) (sym e) (at.0, still at.1 h),
    )
  where
    still :
        (finished_at s.controller ref ≡ true)
          ⊎ ((s.controller.current ≡ some ref) × (s.waiting ≡ []))
        → (finished_at s.controller ref ≡ false) ⊎ (Jobs.finished job ≡ true)
        → (finished_at (write_job ref job s.controller) ref ≡ true)
          ⊎ ((s.controller.current ≡ some ref) × (s.waiting ≡ []))
    still (inr d) h = inr d
    still (inl d) (inl h) = ground (arith, d, h)
    still (inl d) (inr h) = inl (ground (arith, h))

by_others :
    (s : System) (h : Holder)
    → (h ≡ keeper) ⊎ (h ≡ claim)
    → HolderIsCurrent s.controller s.waiting (some h)
by_others s h (inl e) = subst (λ k. HolderIsCurrent s.controller s.waiting (some k)) (sym e) tt
by_others s h (inr e) = subst (λ k. HolderIsCurrent s.controller s.waiting (some k)) (sym e) tt

Step-IsOrderly : {s t : System} → Step s t → IsOrderly s → IsOrderly t
Step-IsOrderly {s} (submits job runner new q) p =
    subst IsOrderly (sym q) (submits-IsOrderly s job runner p new)
Step-IsOrderly {s} (begins ref h e q) p =
    subst IsOrderly (sym q) (begins-IsOrderly s.controller s.waiting ref p.0 h)
Step-IsOrderly {s} (works ref job e h q) p =
    subst IsOrderly (sym q) (works-IsOrderly s ref job p e h)
Step-IsOrderly (ends ref e h q) p = subst IsOrderly (sym q) (p.0, tt)
Step-IsOrderly {s} (takes h k e q) p = subst IsOrderly (sym q) (p.0, by_others s h k)
Step-IsOrderly (gives h k e q) p = subst IsOrderly (sym q) (p.0, tt)

Reach-IsOrderly : {s t : System} → IsOrderly s → Reach s t → IsOrderly t
Reach-IsOrderly p here = p
Reach-IsOrderly p (next r st) = Step-IsOrderly st (Reach-IsOrderly p r)

-- The job of a worker that waits or that holds the unit.
abbrev pub IsUnderWay : System → ℕ → Type 0
IsUnderWay s ref = (holds ref s.waiting ≡ true) ⊎ (s.holder ≡ some (worker ref))

waiting_is_current :
    (c : Controller) (waiting : List ℕ) (ref : ℕ)
    → AllCurrent c waiting
    → holds ref waiting ≡ true
    → c.current ≡ some ref
waiting_is_current c [] ref a h = absurd (ground arith)
waiting_is_current c (x ∷ rest) ref a h =
    subst (λ l. holds ref (x ∷ l) ≡ true → c.current ≡ some ref) (sym a.3)
      (λ h'. ground (arith, a.1)) h

under_way_is_current :
    (s : System) (ref : ℕ)
    → IsOrderly s
    → IsUnderWay s ref
    → finished_at s.controller ref ≡ false
    → s.controller.current ≡ some ref
under_way_is_current s ref p (inl h) f = waiting_is_current s.controller s.waiting ref p.0 h
under_way_is_current s ref p (inr e) f =
    elim (subst (HolderIsCurrent s.controller s.waiting) e p.1).1 [
      | inl d ↦ absurd (ground (arith, d, f))
      | inr d ↦ d.0
    ]

abbrev ref_or : ℕ → Option ℕ → ℕ
ref_or k none = k
ref_or k (some ref) = ref

current_job-unfinished :
    (c : Controller) (ref : ℕ)
    → c.current ≡ some ref
    → finished_at c ref ≡ false
    → current_job c ≡ some ref
unfolding current_job
current_job-unfinished c ref e f = ground (arith, e, f)

-- In every state that the threads reach from the start, by whatever interleaving of submissions,
-- workers, keeper and claims: two jobs that are under way, that is, whose workers wait for the unit or
-- hold it, and that are not done, are the same job, and it is the one that `current` names.
pub one_job_at_a_time :
    {s : System} (jobs : ℕ → Job) (keep a b : ℕ)
    → Reach (start jobs keep) s
    → IsUnderWay s a
    → IsUnderWay s b
    → finished_at s.controller a ≡ false
    → finished_at s.controller b ≡ false
    → (a ≡ b) × (current_job s.controller ≡ some a)
one_job_at_a_time {s} jobs keep a b r ua ub fa fb =
    let p = Reach-IsOrderly (tt, tt) r in
    let ea = under_way_is_current s a p ua fa in
    let eb = under_way_is_current s b p ub fb in
    (ap (ref_or a) (sym ea ∙ eb), current_job-unfinished s.controller a ea fa)
