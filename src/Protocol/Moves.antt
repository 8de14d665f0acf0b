-- ===== src/Protocol/Moves.antt =====
-- The operations on the carousel (discstakka/protocol.py, lines 372 to 476).
use disc_stakka_web.Base.{ℕ, Bool, true, false, ◌&&◌, ◌==◌, leb, if◌then◌else◌, none}
use disc_stakka_web.Effect.{
  format, nil, num, device_error, value_error, Done, ◌>>=◌, ◌>>◌, pure, raise, skip,
  is_not_connected, is_device_error, handle,
}
use disc_stakka_web.Transport.{Transport}
use disc_stakka_web.Protocol.Packet.{
  is_set, cmd_request_state, cmd_clear_err_1, cmd_set_pos, cmd_retract, cmd_set_led,
  cmd_clear_err_2, cmd_accept_disc, st_disc_waiting, st_disc_in_bay, settle_ms, ack_ms,
  settled_now_ms, insert_window_ms, take_window_ms,
}
use disc_stakka_web.Protocol.Handle.{operands, Progress, report, Call, command}
use disc_stakka_web.Protocol.Waiting.{
  wait_state, wait_idle, require, status, ensure_homed, or_raise,
}
use disc_stakka_web.Slots.{home, slot_max}

module _ {W J : Type 0} (T : Transport W) (fuel : ℕ) where
  unfoldable pub disc_in_bay : Call W J Bool
  disc_in_bay = do st ← status T fuel; pure (is_set st st_disc_in_bay)

  unfoldable pub refuse_with_a_disc_out : Call W J Done
  refuse_with_a_disc_out = do
    out ← disc_in_bay
    if out
        then raise (device_error (format "There is a disc in the bay. Take it out first." nil))
        else skip

  unfoldable pub reset : Progress J → Call W J Done
  reset progress = do
    report progress (format "Clearing errors..." nil)
    command T fuel cmd_request_state (operands 0 0) ack_ms
    command T fuel cmd_clear_err_1 (operands 0 0) ack_ms
    command T fuel cmd_clear_err_2 (operands 0 0) ack_ms
    wait_idle T fuel settle_ms
        >>= or_raise T fuel (format "unit stayed busy; it may need a power cycle" nil)
    refuse_with_a_disc_out
    command T fuel cmd_set_led (operands 1 1) ack_ms
    report progress (format "Homing carousel..." nil)
    require T fuel cmd_set_pos (operands home 0)
    wait_idle T fuel settle_ms >>= or_raise T fuel (format "timed out returning to home" nil)

  -- The part of `move_to` behind the check of the slot.
  unfoldable pub move_in_range : ℕ → Bool → Progress J → Call W J Done
  move_in_range slot eject progress = do
    wait_idle T fuel settle_ms >>= or_raise T fuel (format "unit is busy" nil)
    refuse_with_a_disc_out
    if slot == home then skip else ensure_homed T fuel progress
    require T fuel cmd_set_pos (operands slot (if eject then 1 else 0))
    wait_idle T fuel settle_ms
        >>= or_raise T fuel (format "timed out moving to slot %d" (num slot nil))

  unfoldable pub move_to : ℕ → Bool → Progress J → Call W J Done
  move_to slot eject progress =
      if leb home slot && leb slot slot_max
      then move_in_range slot eject progress
      else raise (value_error (format "slot %r out of range 0-%d" (num slot (num slot_max nil))))

  -- A `DeviceError` of the move is dropped; any other exception is not.
  unfoldable pub park : Progress J → Call W J Done
  park progress = do
    report progress (format "Returning to home..." nil)
    handle is_device_error (move_to home false none) (λ e. skip)

  unfoldable pub wait_for_insert : Call W J Bool
  wait_for_insert = wait_state T fuel st_disc_waiting st_disc_waiting insert_window_ms

  unfoldable pub wait_for_take : Call W J Bool
  wait_for_take = wait_state T fuel st_disc_in_bay 0 take_window_ms

  unfoldable pub ingest : Progress J → Call W J Done
  ingest progress = do
    report progress (format "Disc detected, drawing it in..." nil)
    wait_idle T fuel settle_ms
        >>= or_raise T fuel (format "the disc never settled at the aperture" nil)
    report progress (format "Taking disc in..." nil)
    require T fuel cmd_accept_disc (operands 0 0)
    wait_idle T fuel settle_ms >>= or_raise T fuel (format "timed out taking the disc in" nil)

  -- The `try` of `retract`: `NotConnected` goes on, any other `DeviceError` means no acknowledgement.
  unfoldable pub require_retract : Call W J Bool
  require_retract =
      handle is_device_error (require T fuel cmd_retract (operands 0 0) >> pure true)
        (λ e. if is_not_connected e then raise e else pure false)

  unfoldable pub retract : Progress J → Call W J Bool
  retract progress = do
    report progress (format "Retracting disc..." nil)
    wait_idle T fuel settled_now_ms
    acked ← require_retract
    wait_idle T fuel settle_ms >>= or_raise T fuel (format "timed out taking the disc back" nil)
    out ← disc_in_bay
    if out
        then raise (
            device_error (format "the unit did not take the disc back; it is still in the bay" nil))
        else pure acked

  unfoldable pub set_led : ℕ → ℕ → Call W J Done
  set_led on_time period = do command T fuel cmd_set_led (operands on_time period) ack_ms; skip
