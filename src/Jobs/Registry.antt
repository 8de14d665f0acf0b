-- ===== src/Jobs/Registry.antt =====
-- `JobRegistry` of discstakka/jobs.py: the dictionary and the order of the recent jobs. A job is what
-- the dictionary holds, a reference; its number is given with it.
use disc_stakka_web.Base.{
  ℕ, ◌≤◌, Bool, true, false, ◌==◌, ltb, if◌then◌else◌, ◌&&◌, Option, none, some, List, [], ◌∷◌,
  ◌++◌, length, ◌≡◌, refl, arith,
}
use disc_stakka_web.Jobs.{JobId}

abbrev pub same_id : JobId → JobId → Bool
same_id a b = (a.second == b.second) && (a.number == b.number)

pub record JobRegistry (A : Type 0) : Type 0 where
  pub jobs : List (JobId × A)
  pub order : List JobId
  pub keep : ℕ

module _ {A : Type 0} where
  -- `dict.get` and `dict.pop`
  unfoldable pub lookup : JobId → List (JobId × A) → Option A
  lookup id [] = none
  lookup id (entry ∷ rest) = if same_id entry.0 id then some entry.1 else lookup id rest

  unfoldable pub pop : JobId → List (JobId × A) → List (JobId × A)
  pop id [] = []
  pop id (entry ∷ rest) =
      let kept = pop id rest in if same_id entry.0 id then kept else entry ∷ kept

  -- The loop of `add`, which drops the oldest while there are too many.
  unfoldable pub trim : ℕ → List JobId → List (JobId × A) → List (JobId × A) × List JobId
  trim keep [] jobs = (jobs, [])
  trim keep (oldest ∷ rest) jobs =
      let dropped = trim keep rest (pop oldest jobs) in
      if ltb keep (length (oldest ∷ rest)) then dropped else (jobs, oldest ∷ rest)

  trimmed : JobRegistry A → List (JobId × A) × List JobId → JobRegistry A
  trimmed r (jobs, order) = record r { jobs = jobs; order = order }

  unfoldable pub add : JobId → A → JobRegistry A → JobRegistry A
  unfolding trimmed
  add id job r = trimmed r (trim r.keep (r.order ++ (id ∷ [])) ((id, job) ∷ pop id r.jobs))

  unfoldable pub get : JobId → JobRegistry A → Option A
  get id r = lookup id r.jobs

abbrev pub new_registry : {A : Type 0} → ℕ → JobRegistry A
new_registry keep = record { jobs = []; order = []; keep = keep }

abbrev pub holds_id : JobId → List JobId → Bool
holds_id id [] = false
holds_id id (x ∷ rest) = if same_id x id then true else holds_id id rest

module _ {A : Type 0} where
  length-trim :
      (keep : ℕ) (order : List JobId) (jobs : List (JobId × A))
      → length (trim keep order jobs).1 ≤ keep
  unfolding trim
  length-trim keep [] jobs = omega arith
  length-trim keep (x ∷ rest) jobs = ground (arith, length-trim keep rest (pop x jobs))

  lookup-pop :
      (id k : JobId) (jobs : List (JobId × A))
      → same_id k id ≡ false
      → lookup id (pop k jobs) ≡ lookup id jobs
  unfolding lookup pop
  lookup-pop id k [] h = refl
  lookup-pop id k (e ∷ rest) h = ground (arith, lookup-pop id k rest h)

  lookup-trim :
      (id : JobId) (keep : ℕ) (order : List JobId) (jobs : List (JobId × A))
      → 1 ≤ keep
      → holds_id id order ≡ false
      → lookup id (trim keep (order ++ (id ∷ [])) jobs).0 ≡ lookup id jobs
  unfolding trim
  lookup-trim id keep [] jobs h e = ground arith
  lookup-trim id keep (x ∷ rest) jobs h e =
      ground (arith, lookup-trim id keep rest (pop x jobs) h, lookup-pop id x jobs)

  lookup-new :
      (id : JobId) (job : A) (jobs : List (JobId × A)) → lookup id ((id, job) ∷ jobs) ≡ some job
  unfolding lookup
  lookup-new id job jobs = ground arith

  -- A registry that keeps at least one job: after `add`, at most `keep` jobs are in order, and the job
  -- that was just added is found under its number, if the number was not used before.
  pub add_keeps_the_newest :
      (id : JobId) (job : A) (r : JobRegistry A)
      → 1 ≤ r.keep
      → holds_id id r.order ≡ false
      → (length (add id job r).order ≤ r.keep) × (get id (add id job r) ≡ some job)
  unfolding add get
  add_keeps_the_newest id job r h e = (
    length-trim r.keep (r.order ++ (id ∷ [])) ((id, job) ∷ pop id r.jobs),
    (ground (
      arith,
      lookup-trim id r.keep r.order ((id, job) ∷ pop id r.jobs) h e,
      lookup-new id job (pop id r.jobs),
    )),
  )
