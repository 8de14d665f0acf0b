-- ===== src/Protocol/Waiting.antt =====
-- Polling and the retried command (discstakka/protocol.py, lines 254 to 326). `fuel` bounds the
-- rounds of each loop.
use disc_stakka_web.Base.{
  ℕ, zero, suc, ◌+◌, Bool, true, false, ◌==◌, leb, if◌then◌else◌, Option, none, some, bit_and,
}
use disc_stakka_web.Effect.{
  Text, format, nil, num, device_error, Done, ◌>>=◌, ◌>>◌, pure, raise, out_of_fuel, skip,
}
use disc_stakka_web.Transport.{Transport}
use disc_stakka_web.Protocol.Packet.{
  Packet, carries_status, status_word, is_set, cmd_request_state, cmd_set_pos, cmd_clear_err_2,
  st_busy, st_homed, settle_ms, ack_ms,
}
use disc_stakka_web.Protocol.Handle.{
  Operands, operands, Progress, report, observe_status, Call, command, now_ms,
}

-- Whether a reply answers what `wait_state` waits for.
abbrev pub satisfies : ℕ → ℕ → Packet → Bool
satisfies mask want p = bit_and (status_word p) mask == want

-- The body of the loop of `wait_state`, which passes a status on to the trace before its test.
unfoldable pub observe : {W J : Type 0} → ℕ → ℕ → Option Packet → Call W J Bool
observe mask want none = pure false
observe mask want (some p) =
    if carries_status p.cmd
    then observe_status (status_word p) >> pure (satisfies mask want p)
    else pure false

module _ {W J : Type 0} (T : Transport W) (fuel : ℕ) where
  -- The loop of `wait_state`, from where the deadline is known.
  unfoldable pub poll_state : ℕ → ℕ → ℕ → ℕ → Call W J Bool
  poll_state zero mask want deadline = out_of_fuel
  poll_state (suc rounds) mask want deadline = do
    reply ← command T fuel cmd_request_state (operands 0 0) ack_ms
    found ← observe mask want reply
    now ← now_ms T
    if found
        then pure true
        else (if leb deadline now then pure false else poll_state rounds mask want deadline)

  unfoldable pub wait_state : ℕ → ℕ → ℕ → Call W J Bool
  wait_state mask want timeout = do now ← now_ms T; poll_state fuel mask want (now + timeout)

  unfoldable pub wait_idle : ℕ → Call W J Bool
  wait_idle timeout = wait_state st_busy 0 timeout

  -- The attempts of `require` that are left.
  unfoldable pub require_from : ℕ → ℕ → ℕ → Operands → Call W J Packet
  require_from tries zero cmd x = raise (
      device_error
        (format "unit did not acknowledge command %02x (%d attempts)" (num cmd (num tries nil))))
  require_from tries (suc left) cmd x = do
    reply ← command T fuel cmd x ack_ms
    elim reply [
      | some p ↦ pure p
      | none ↦ do
        if left == 0 then skip else (wait_idle 2_000 >> skip)
        require_from tries left cmd x
    ]

  unfoldable pub require : ℕ → Operands → Call W J Packet
  require cmd x = require_from 3 3 cmd x

  unfoldable pub status : Call W J ℕ
  status = do p ← require cmd_request_state (operands 0 0); pure (status_word p)

  unfoldable pub position : Call W J ℕ
  position = do p ← require cmd_clear_err_2 (operands 0 0); pure p.x1

  -- Raises unless the wait succeeded.
  abbrev pub or_raise : Text → Bool → Call W J Done
  or_raise message b = if b then skip else raise (device_error message)

  home_carousel : Progress J → Call W J Done
  home_carousel progress = do
    wait_idle settle_ms >>= or_raise (format "unit is busy; cannot home it" nil)
    report progress (format "Homing carousel..." nil)
    require cmd_set_pos (operands 0 0)
    wait_idle settle_ms >>= or_raise (format "timed out homing the carousel" nil)
    st ← status
    if is_set st st_homed
        then skip
        else raise (device_error (format "the carousel did not home" nil))

  unfoldable pub ensure_homed : Progress J → Call W J Done
  unfolding home_carousel
  ensure_homed progress = do
    st ← status
    if is_set st st_homed then skip else home_carousel progress
