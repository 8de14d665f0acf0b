-- ===== src/Protocol/Stable.antt =====
-- What holds of `command` and `wait_state` holds of every operation that is made of them: here the
-- operations are composed once, for every state predicate and every set of commands.
pub mod Moves
use disc_stakka_web.Base.{
  ℕ, zero, suc, ◌+◌, ◌≤◌, Bool, true, false, ◌==◌, ◌&&◌, leb, if◌then◌else◌, Option, none, some,
  ◌≡◌, refl, arith,
}
use disc_stakka_web.Effect.{
  Text, Exc, ok, device_error, value_error, M, Done, ◌>>=◌, ◌>>◌, pure, raise, skip,
  is_not_connected, is_device_error,
}
use disc_stakka_web.Effect.Triple.{
  Triple, bind_lem, handle_lem, weaken, pure_lem, raise_lem, if_lem, skip_lem, modify_lem,
}
use disc_stakka_web.Transport.{Transport}
use disc_stakka_web.Protocol.Packet.{
  Packet, status_word, is_set, cmd_request_state, cmd_clear_err_1, cmd_set_pos, cmd_retract,
  cmd_set_led, cmd_clear_err_2, cmd_accept_disc, st_busy, st_homed, settle_ms, ack_ms,
  settled_now_ms,
}
use disc_stakka_web.Protocol.Handle.{DiscStakka, Operands, operands, Progress, report, command}
use disc_stakka_web.Protocol.Waiting.{
  wait_state, wait_idle, require_from, require, status, position, or_raise, ensure_homed,
}
use disc_stakka_web.Protocol.Moves.{
  disc_in_bay, refuse_with_a_disc_out, reset, move_in_range, move_to, park, wait_for_insert,
  wait_for_take, ingest, require_retract, retract,
}

-- Every message of the callback makes a change that `C` allows.
abbrev pub Quiet : {J : Type 0} → ((J → J) → Type 0) → Progress J → Type 0
Quiet C none = Unit
Quiet C (some callback) = (message : Text) → C (callback message)

-- `I` holds before and after, `E` of an exception, for the commands that `allowed` lets through
-- and the callbacks that `C` lets through.
pub record Stable {W J : Type 0} (T : Transport W) (fuel : ℕ) (B : DiscStakka W J → Type 0)
    (allowed : ℕ → Operands → Bool) (C : (J → J) → Type 0) (I : DiscStakka W J → Type 0)
    (E : Exc → DiscStakka W J → Type 0) : Type 0 where
  pub command_keeps :
      (cmd : ℕ) (x : Operands)
      → allowed cmd x ≡ true
      → Triple B I (command T fuel cmd x ack_ms) (λ _. I) E
  pub wait_keeps :
      (mask want timeout : ℕ)
      → allowed cmd_request_state (operands 0 0) ≡ true
      → timeout ≤ 30_000
      → Triple B I (wait_state T fuel mask want timeout) (λ _. I) E
  pub calls : (f : J → J) (s : DiscStakka W J) → C f → I s → I (record s { caller = f s.caller })
  pub raises : (e : Exc) (s : DiscStakka W J) → I s → E e s

module _ {W J : Type 0} {T : Transport W} {fuel : ℕ} {B : DiscStakka W J → Type 0}
    {allowed : ℕ → Operands → Bool} {C : (J → J) → Type 0} {I : DiscStakka W J → Type 0}
    {E : Exc → DiscStakka W J → Type 0} (st : Stable T fuel B allowed C I E)
    (requests : allowed cmd_request_state (operands 0 0) ≡ true) where
  abbrev pub Kept : {A : Type 0} → M (DiscStakka W J) A → Type 0
  Kept m = Triple B I m (λ _. I) E

  pub report-Kept :
      (progress : Progress J) (message : Text) → Quiet C progress → Kept (report progress message)
  report-Kept none message q = skip_lem (λ s h. h)
  report-Kept (some callback) message q =
      modify_lem _ (λ s h. st.calls (callback message) s (q message) h)

  pub or_raise-Kept : (message : Text) (b : Bool) → Kept (or_raise T fuel message b)
  or_raise-Kept message b =
      if_lem b (λ _. skip_lem (λ s h. h)) (λ _. raise_lem _ (λ s h. st.raises _ s h))

  pub wait_idle-Kept : (timeout : ℕ) → timeout ≤ 30_000 → Kept (wait_idle T fuel timeout)
  unfolding wait_idle
  wait_idle-Kept timeout h = st.wait_keeps st_busy 0 timeout requests h

  pub require_from-Kept :
      (tries left cmd : ℕ) (x : Operands)
      → allowed cmd x ≡ true
      → Kept (require_from T fuel tries left cmd x)
  unfolding require_from
  require_from-Kept tries zero cmd x h = raise_lem _ (λ s i. st.raises _ s i)
  require_from-Kept tries (suc left) cmd x h = bind_lem (st.command_keeps cmd x h) (elim [
    | some p ↦ pure_lem p (λ s i. i)
    | none ↦
        bind_lem
          (if_lem (left == 0) (λ _. skip_lem (λ s i. i))
            (λ _. bind_lem (wait_idle-Kept 2_000 (omega arith)) (λ _. skip_lem (λ s i. i))))
          (λ _. require_from-Kept tries left cmd x h)
  ])

  pub require-Kept : (cmd : ℕ) (x : Operands) → allowed cmd x ≡ true → Kept (require T fuel cmd x)
  unfolding require
  require-Kept cmd x h = require_from-Kept 3 3 cmd x h

  pub status-Kept : Kept (status T fuel)
  unfolding status
  status-Kept = bind_lem (require-Kept _ _ requests) (λ p. pure_lem _ (λ s i. i))

  pub position-Kept : allowed cmd_clear_err_2 (operands 0 0) ≡ true → Kept (position T fuel)
  unfolding position
  position-Kept h = bind_lem (require-Kept _ _ h) (λ p. pure_lem _ (λ s i. i))

  pub settled-Kept :
      (message : Text) → Kept (wait_idle T fuel settle_ms >>= or_raise T fuel message)
  settled-Kept message = bind_lem (wait_idle-Kept settle_ms (omega arith)) (or_raise-Kept message)

  pub ensure_homed-Kept :
      (progress : Progress J)
      → Quiet C progress
      → allowed cmd_set_pos (operands 0 0) ≡ true
      → Kept (ensure_homed T fuel progress)
  unfolding ensure_homed
  ensure_homed-Kept progress q h = bind_lem status-Kept λ first.
      if_lem (is_set first st_homed) (λ _. skip_lem (λ s i. i))
        λ _. bind_lem (settled-Kept _) λ _. bind_lem (report-Kept progress _ q) λ _.
          bind_lem (require-Kept _ _ h) λ _. bind_lem (settled-Kept _) λ _.
            bind_lem status-Kept λ last.
              if_lem (is_set last st_homed) (λ _. skip_lem (λ s i. i))
                (λ _. raise_lem _ (λ s i. st.raises _ s i))

  pub disc_in_bay-Kept : Kept (disc_in_bay T fuel)
  unfolding disc_in_bay
  disc_in_bay-Kept = bind_lem status-Kept (λ w. pure_lem _ (λ s i. i))

  pub refuse_with_a_disc_out-Kept : Kept (refuse_with_a_disc_out T fuel)
  unfolding refuse_with_a_disc_out
  refuse_with_a_disc_out-Kept =
      bind_lem disc_in_bay-Kept
        λ out. if_lem out (λ _. raise_lem _ (λ s i. st.raises _ s i)) (λ _. skip_lem (λ s i. i))

  pub move_in_range-Kept :
      (slot : ℕ) (eject : Bool) (progress : Progress J)
      → Quiet C progress
      → ((x : Operands) → allowed cmd_set_pos x ≡ true)
      → Kept (move_in_range T fuel slot eject progress)
  unfolding move_in_range
  move_in_range-Kept slot eject progress q h = bind_lem (settled-Kept _) λ _.
      bind_lem refuse_with_a_disc_out-Kept λ _.
        bind_lem
          (if_lem (slot == 0) (λ _. skip_lem (λ s i. i)) (λ _. ensure_homed-Kept progress q (h _)))
          λ _. bind_lem (require-Kept _ _ (h _)) (λ _. settled-Kept _)
