-- ===== src/Protocol/Stable/Moves.antt =====
-- The operations on the carousel, composed like those of the parent.
use disc_stakka_web.Base.{ℕ, Bool, true, false, ◌&&◌, leb, if◌then◌else◌, none, ◌≡◌, arith}
use disc_stakka_web.Effect.{Exc, M, pure, raise, is_not_connected, is_device_error}
use disc_stakka_web.Effect.Triple.{bind_lem, handle_lem, pure_lem, raise_lem, if_lem, skip_lem}
use disc_stakka_web.Transport.{Transport}
use disc_stakka_web.Protocol.Packet.{
  cmd_request_state, cmd_clear_err_1, cmd_set_pos, cmd_retract, cmd_set_led, cmd_clear_err_2,
  cmd_accept_disc, settled_now_ms,
}
use disc_stakka_web.Protocol.Handle.{DiscStakka, Operands, operands, Progress}
use disc_stakka_web.Protocol.Moves.{
  reset, move_to, park, wait_for_insert, wait_for_take, ingest, require_retract, retract,
}
use disc_stakka_web.Protocol.Stable.{
  Stable, Quiet, Kept, report-Kept, wait_idle-Kept, require-Kept, settled-Kept, disc_in_bay-Kept,
  refuse_with_a_disc_out-Kept, move_in_range-Kept,
}

module _ {W J : Type 0} {T : Transport W} {fuel : ℕ} {B : DiscStakka W J → Type 0}
    {allowed : ℕ → Operands → Bool} {C : (J → J) → Type 0} {I : DiscStakka W J → Type 0}
    {E : Exc → DiscStakka W J → Type 0} (st : Stable T fuel B allowed C I E)
    (requests : allowed cmd_request_state (operands 0 0) ≡ true) where
  -- The section's facts, for the lemmas of the parent.
  abbrev Holds : {A : Type 0} → M (DiscStakka W J) A → Type 0
  Holds = Kept st requests

  pub move_to-Kept :
      (slot : ℕ) (eject : Bool) (progress : Progress J)
      → Quiet C progress
      → ((x : Operands) → allowed cmd_set_pos x ≡ true)
      → Holds (move_to T fuel slot eject progress)
  unfolding move_to
  move_to-Kept slot eject progress q h =
      if_lem (leb 0 slot && leb slot 100)
        (λ _. move_in_range-Kept st requests slot eject progress q h)
        (λ _. raise_lem _ (λ s i. st.raises _ s i))

  pub reset-Kept :
      (progress : Progress J)
      → Quiet C progress
      → allowed cmd_set_pos (operands 0 0) ≡ true
      → allowed cmd_clear_err_1 (operands 0 0) ≡ true
      → allowed cmd_clear_err_2 (operands 0 0) ≡ true
      → allowed cmd_set_led (operands 1 1) ≡ true
      → Holds (reset T fuel progress)
  unfolding reset
  reset-Kept progress q pos err_1 err_2 led = bind_lem (report-Kept st requests progress _ q) λ _.
      bind_lem (st.command_keeps _ _ requests) λ _. bind_lem (st.command_keeps _ _ err_1) λ _.
        bind_lem (st.command_keeps _ _ err_2) λ _. bind_lem (settled-Kept st requests _) λ _.
          bind_lem (refuse_with_a_disc_out-Kept st requests) λ _.
            bind_lem (st.command_keeps _ _ led) λ _.
              bind_lem (report-Kept st requests progress _ q)
                λ _. bind_lem (require-Kept st requests _ _ pos) λ _. settled-Kept st requests _

  pub wait_for_insert-Kept : Holds (wait_for_insert T fuel)
  unfolding wait_for_insert
  wait_for_insert-Kept = st.wait_keeps _ _ _ requests (omega arith)

  pub wait_for_take-Kept : Holds (wait_for_take T fuel)
  unfolding wait_for_take
  wait_for_take-Kept = st.wait_keeps _ _ _ requests (omega arith)

  pub ingest-Kept :
      (progress : Progress J)
      → Quiet C progress
      → allowed cmd_accept_disc (operands 0 0) ≡ true
      → Holds (ingest T fuel progress)
  unfolding ingest
  ingest-Kept progress q h = bind_lem (report-Kept st requests progress _ q) λ _.
      bind_lem (settled-Kept st requests _) λ _.
        bind_lem (report-Kept st requests progress _ q)
          λ _. bind_lem (require-Kept st requests _ _ h) λ _. settled-Kept st requests _

  -- `park` drops a `DeviceError`, so what holds of one must give `I` back.
  pub park-Kept :
      (progress : Progress J)
      → Quiet C progress
      → ((x : Operands) → allowed cmd_set_pos x ≡ true)
      → ((e : Exc) (s : DiscStakka W J) → is_device_error e ≡ true → E e s → I s)
      → Holds (park T fuel progress)
  unfolding park
  park-Kept progress q h recover = bind_lem (report-Kept st requests progress _ q) λ _.
      handle_lem is_device_error _ (move_to-Kept 0 false none tt h)
        (λ e c. skip_lem (λ s i. recover e s c i)) (λ e s _ i. i)

  require_retract-Kept :
      allowed cmd_retract (operands 0 0) ≡ true
      → ((e : Exc) (s : DiscStakka W J) → is_not_connected e ≡ false → E e s → I s)
      → Holds (require_retract T fuel)
  unfolding require_retract
  require_retract-Kept h recover =
      handle_lem is_device_error (λ e. if is_not_connected e then raise e else pure false)
        (bind_lem (require-Kept st requests _ _ h) (λ _. pure_lem _ (λ s i. i)))
        (λ e c.
          if_lem (is_not_connected e) (λ _. raise_lem _ (λ s i. i))
            (λ n. pure_lem _ (λ s i. recover e s n i)))
        (λ e s _ i. i)

  pub retract-Kept :
      (progress : Progress J)
      → Quiet C progress
      → allowed cmd_retract (operands 0 0) ≡ true
      → ((e : Exc) (s : DiscStakka W J) → is_not_connected e ≡ false → E e s → I s)
      → Holds (retract T fuel progress)
  unfolding retract
  retract-Kept progress q h recover = bind_lem (report-Kept st requests progress _ q) λ _.
      bind_lem (wait_idle-Kept st requests settled_now_ms (omega arith)) λ _.
        bind_lem (require_retract-Kept h recover) λ acked.
          bind_lem (settled-Kept st requests _) λ _. bind_lem (disc_in_bay-Kept st requests) λ out.
            if_lem out (λ _. raise_lem _ (λ s i. st.raises _ s i)) (λ _. pure_lem _ (λ s i. i))
