-- ===== src/Flows/Operations.antt =====
-- The operations on the unit, called from a flow, leave the rows of the catalogue alone; and how a
-- flow ends the job.
use disc_stakka_web.Base.{ℕ, Bool, true, none, List, ◌≡◌, refl}
use disc_stakka_web.Effect.{Text, Exc}
use disc_stakka_web.Effect.Triple.{Triple, Any, weaken_all}
use disc_stakka_web.Transport.{Transport}
use disc_stakka_web.Protocol.Handle.{DiscStakka, Progress, Call}
use disc_stakka_web.Protocol.Waiting.{status}
use disc_stakka_web.Protocol.Moves.{
  move_to, park, wait_for_insert, wait_for_take, disc_in_bay, ingest, retract,
}
use disc_stakka_web.Protocol.Stable.{Stable, Quiet, status-Kept, disc_in_bay-Kept}
use disc_stakka_web.Protocol.Stable.Moves.{
  move_to-Kept, park-Kept, wait_for_insert-Kept, wait_for_take-Kept, ingest-Kept, retract-Kept,
}
use disc_stakka_web.Protocol.Events.{events-Stable}
use disc_stakka_web.Catalog.Db.{Disc}
use disc_stakka_web.Jobs
use disc_stakka_web.Jobs.{Phase, JobResult}
use disc_stakka_web.Flows.{Shared, on_job}
use disc_stakka_web.Flows.Holding.{Holding, HoldingOf, Holds, SameConn, holding}

module _ {W : Type 0} (n : ℕ) (ds : List Disc) where
  -- The job has come to an end in this phase.
  abbrev pub Ends : Phase → DiscStakka W Shared → Type 0
  Ends phase s = (s.caller.job.phase ≡ phase) × Holding n ds s

  pub fail-Ends :
      {E : Exc → DiscStakka W Shared → Type 0} (message : Text) (result : JobResult)
      → Triple {S = DiscStakka W Shared} Any
          (Holding n ds)
          (on_job (Jobs.fail message result))
          (λ _. Ends Phase.failed)
          E
  unfolding on_job Jobs.fail
  fail-Ends message result = record { holds = λ s p. (refl, p) }

  pub succeed-Ends :
      {E : Exc → DiscStakka W Shared → Type 0} (message : Text) (result : JobResult)
      → Triple {S = DiscStakka W Shared} Any
          (Holding n ds)
          (on_job (Jobs.succeed message result))
          (λ _. Ends Phase.done)
          E
  unfolding on_job Jobs.succeed
  succeed-Ends message result = record { holds = λ s p. (refl, p) }

module _ {W : Type 0} (T : Transport W) (fuel : ℕ) (n : ℕ) (ds : List Disc) where
  rows_stay : Stable T fuel (Holding n ds) (λ _ _. true) SameConn (Holding n ds) (λ _. Holding n ds)
  rows_stay = events-Stable T fuel (HoldingOf n ds) (holding n ds)

  forget_fuel :
      {A : Type 0} {m : Call W Shared A}
      → Triple (Holding n ds) (Holding n ds) m (λ _. Holding n ds) (λ _. Holding n ds)
      → Holds n ds m
  forget_fuel h = weaken_all h (λ s p. p) (λ s p. tt) (λ a s p. p) (λ e s p. p)

  pub status-Holds : Holds n ds (status T fuel)
  status-Holds = forget_fuel (status-Kept rows_stay refl)

  pub disc_in_bay-Holds : Holds n ds (disc_in_bay T fuel)
  disc_in_bay-Holds = forget_fuel (disc_in_bay-Kept rows_stay refl)

  pub move_to-Holds :
      (slot : ℕ) (eject : Bool) (progress : Progress Shared)
      → Quiet SameConn progress
      → Holds n ds (move_to T fuel slot eject progress)
  move_to-Holds slot eject progress q =
      forget_fuel (move_to-Kept rows_stay refl slot eject progress q (λ _. refl))

  pub park-Holds : Holds n ds (park T fuel none)
  park-Holds = forget_fuel (park-Kept rows_stay refl none tt (λ _. refl) (λ e s c p. p))

  pub wait_for_insert-Holds : Holds n ds (wait_for_insert T fuel)
  wait_for_insert-Holds = forget_fuel (wait_for_insert-Kept rows_stay refl)

  pub wait_for_take-Holds : Holds n ds (wait_for_take T fuel)
  wait_for_take-Holds = forget_fuel (wait_for_take-Kept rows_stay refl)

  pub ingest-Holds :
      (progress : Progress Shared) → Quiet SameConn progress → Holds n ds (ingest T fuel progress)
  ingest-Holds progress q = forget_fuel (ingest-Kept rows_stay refl progress q refl)

  pub retract-Holds :
      (progress : Progress Shared) → Quiet SameConn progress → Holds n ds (retract T fuel progress)
  retract-Holds progress q =
      forget_fuel (retract-Kept rows_stay refl progress q refl (λ e s c p. p))
