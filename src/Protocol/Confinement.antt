-- ===== src/Protocol/Confinement.antt =====
-- Which commands an operation may send.
use disc_stakka_web.Base.{ℕ, Bool, true, false, ◌==◌, ◌||◌, ◌≡◌, refl, List, [], ◌∷◌, subst, sym}
use disc_stakka_web.Effect.Triple.{final_lem}
use disc_stakka_web.Transport.{Transport}
use disc_stakka_web.Protocol.Packet.{
  cmd_request_state, cmd_retract, cmd_accept_disc, cmd_clear_err_2,
}
use disc_stakka_web.Protocol.Handle.{DiscStakka, WireEvent, heard, wrote, frame, Progress}
use disc_stakka_web.Protocol.Waiting.{position}
use disc_stakka_web.Protocol.Moves.{ingest, retract, wait_for_insert, wait_for_take}
use disc_stakka_web.Protocol.Stable.{position-Kept}
use disc_stakka_web.Protocol.Stable.Moves.{
  ingest-Kept, retract-Kept, wait_for_insert-Kept, wait_for_take-Kept,
}
use disc_stakka_web.Protocol.Events.{EventInvariant, on_events, events-Stable}
use disc_stakka_web.Protocol.Termination.{Quiet-any}

-- The command byte of a frame is an allowed one.
abbrev pub commands : (ℕ → Bool) → List ℕ → Bool
commands allowed (_ ∷ _ ∷ _ ∷ _ ∷ cmd ∷ _) = allowed cmd
commands allowed _ = false

-- Every frame written carries an allowed command.
abbrev pub OnlySends : (ℕ → Bool) → List WireEvent → Type 0
OnlySends allowed [] = Unit
OnlySends allowed (heard p ∷ l) = OnlySends allowed l
OnlySends allowed (wrote f ∷ l) = (commands allowed f ≡ true) × OnlySends allowed l

sends_allowed : (allowed : ℕ → Bool) → EventInvariant (λ c _. allowed c) (OnlySends allowed)
unfolding frame
sends_allowed allowed = record { hears = λ p l h. h; sends = λ u m c x l a b h. (a, h) }

-- What `retract` and `ingest` may send beside requests of the state.
abbrev pub request_or : ℕ → ℕ → Bool
request_or other cmd = cmd == cmd_request_state || cmd == other

module _ {W J : Type 0} (T : Transport W) (fuel : ℕ) where
  -- Beside requests of the state, `retract` sends nothing but 0x05, `ingest` nothing but 0x1D and
  -- `position` nothing but 0x14, and the two waits for a hand send nothing else at all; for calls
  -- whose list of events begins empty.
  pub operations_are_confined :
      (progress : Progress J) (s : DiscStakka W J)
      → s.events ≡ []
      → OnlySends (request_or cmd_retract) (retract T fuel progress s).1.events
        × OnlySends (request_or cmd_accept_disc) (ingest T fuel progress s).1.events
        × OnlySends (request_or cmd_clear_err_2) (position T fuel s).1.events
        × OnlySends (λ cmd. cmd == cmd_request_state) (wait_for_insert T fuel s).1.events
        × OnlySends (λ cmd. cmd == cmd_request_state) (wait_for_take T fuel s).1.events
  operations_are_confined progress s e =
      let start = λ (allowed : ℕ → Bool). subst (OnlySends allowed) (sym e) tt in
      let st = λ (allowed : ℕ → Bool).
        events-Stable {J = J} T fuel _ (on_events (sends_allowed allowed)) in
      let q = Quiet-any progress in
      (
        final_lem (retract-Kept (st (request_or cmd_retract)) refl progress q refl (λ e s' c i. i))
            s (start _),
        final_lem (ingest-Kept (st (request_or cmd_accept_disc)) refl progress q refl) s (start _),
        final_lem (position-Kept (st (request_or cmd_clear_err_2)) refl refl) s (start _),
        final_lem (wait_for_insert-Kept (st (λ cmd. cmd == cmd_request_state)) refl) s (start _),
        final_lem (wait_for_take-Kept (st (λ cmd. cmd == cmd_request_state)) refl) s (start _),
      )
