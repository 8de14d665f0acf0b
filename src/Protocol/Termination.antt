-- ===== src/Protocol/Termination.antt =====
-- The operations end, and what they have established when they return.
use disc_stakka_web.Base.{ℕ, suc, ◌≤◌, Bool, none, some, ◌≢◌, refl, arith}
use disc_stakka_web.Effect.{running}
use disc_stakka_web.Effect.Triple.{ended_lem}
use disc_stakka_web.Transport.{Transport, IsTicking}
use disc_stakka_web.Protocol.Handle.{DiscStakka, Progress}
use disc_stakka_web.Protocol.Moves.{
  move_to, reset, park, wait_for_insert, wait_for_take, ingest, retract,
}
use disc_stakka_web.Protocol.Stable.{Quiet}
use disc_stakka_web.Protocol.Stable.Moves.{
  move_to-Kept, reset-Kept, park-Kept, ingest-Kept, retract-Kept, wait_for_insert-Kept,
  wait_for_take-Kept,
}
use disc_stakka_web.Protocol.Events.{AnyChange}
use disc_stakka_web.Protocol.Halting.{halting}

pub Quiet-any : {J : Type 0} (progress : Progress J) → Quiet AnyChange progress
Quiet-any none = tt
Quiet-any (some callback) = λ message. tt

module _ {W J : Type 0} (T : Transport W) (tick : IsTicking T) (k : ℕ) (enough : 30_000 ≤ k) where
  -- With a clock that ticks and fuel for 30,000 milliseconds, every operation on the carousel
  -- returns or raises: `move_to`, `reset`, `park`, `ingest`, `retract` and the two waits for a hand.
  pub operations_end :
      (slot : ℕ) (eject : Bool) (progress : Progress J) (s : DiscStakka W J)
      → ((move_to T (suc k) slot eject progress s).0 ≢ running)
        × ((reset T (suc k) progress s).0 ≢ running)
        × ((park T (suc k) progress s).0 ≢ running)
        × ((ingest T (suc k) progress s).0 ≢ running)
        × ((retract T (suc k) progress s).0 ≢ running)
        × ((wait_for_insert T (suc k) s).0 ≢ running)
        × ((wait_for_take T (suc k) s).0 ≢ running)
  operations_end slot eject progress s =
      let st = halting T tick k (T.now_ms s.io) enough in
      let q = Quiet-any progress in
      (
        ended_lem (move_to-Kept st refl slot eject progress q (λ _. refl)) s (omega arith)
            (λ _ b. b),
        ended_lem (reset-Kept st refl progress q refl refl refl refl) s (omega arith) (λ _ b. b),
        ended_lem (park-Kept st refl progress q (λ _. refl) (λ e s' c i. i)) s (omega arith)
            (λ _ b. b),
        ended_lem (ingest-Kept st refl progress q refl) s (omega arith) (λ _ b. b),
        ended_lem (retract-Kept st refl progress q refl (λ e s' c i. i)) s (omega arith) (λ _ b. b),
        ended_lem (wait_for_insert-Kept st refl) s (omega arith) (λ _ b. b),
        ended_lem (wait_for_take-Kept st refl) s (omega arith) (λ _ b. b),
      )
