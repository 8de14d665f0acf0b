-- ===== src/Protocol/Connection.antt =====
-- Opening and closing the unit, and the handshake (discstakka/protocol.py, lines 146 to 198 and 330
-- to 368).
use disc_stakka_web.Base.{
  ℕ, zero, suc, ◌+◌, Bool, true, false, ◌==◌, ltb, if◌then◌else◌, Option, none, some, List,
}
use disc_stakka_web.Effect.{
  format, nil, num, error, str, Args, os_error, other_error, Exc, not_connected, device_error, Done,
  ◌>>=◌, ◌>>◌, pure, raise, out_of_fuel, skip, gets, modify, is_not_connected, any_exception,
  handle,
}
use disc_stakka_web.Transport.{Transport, vid, pid, Io, finished, failed, broken}
use disc_stakka_web.Protocol.Packet.{
  Packet, u32, firmware_text, cmd_version_a, cmd_version_b, cmd_get_serial, cmd_new_unit, ack_ms,
  poll_ms,
}
use disc_stakka_web.Protocol.Handle.{
  operands, Call, next_msgid, close, read, write, command, on_bus, now_ms,
}

both_versions : Option Packet → Option Packet → Option (List ℕ)
both_versions (some a) (some b) = some (firmware_text a b)
both_versions none b = none
both_versions (some a) none = none

abbrev last_error : Option Exc → Args
last_error none = str "None" nil
last_error (some e) = error e nil

module _ {W J : Type 0} (T : Transport W) (fuel : ℕ) where
  unfoldable pub read_firmware : Call W J (Option (List ℕ))
  unfolding both_versions
  read_firmware = do
    a ← command T fuel cmd_version_a (operands 0 0) ack_ms
    b ← command T fuel cmd_version_b (operands 0 0) ack_ms
    pure (both_versions a b)

  unfoldable pub set_serial : ℕ → Call W J Done
  set_serial n = modify λ s. record s { serial = some n }

  unfoldable pub set_firmware : Option (List ℕ) → Call W J Done
  set_firmware version = modify λ s. record s { firmware = version }

  unfoldable pub set_unit : ℕ → Call W J Done
  set_unit n = modify λ s. record s { unit = n }

  unfoldable pub set_open : Call W J Done
  set_open = modify λ s. record s { is_open = true }

  unfoldable pub sleep : ℕ → Call W J Done
  sleep ms = modify λ s. record s { io = T.sleep_ms ms s.io }

  unfoldable pub open_io : Call W J (Io Done)
  open_io = on_bus T T.open_handle

  -- The last branch of the loop's body: ask for the serial.
  unfoldable pub ask_serial : Call W J Done
  ask_serial = do
    reply ← command T fuel cmd_get_serial (operands 0 0) ack_ms
    elim reply [
      | none ↦ raise (device_error (format "unit would not report its serial" nil))
      | some p ↦ set_serial (u32 p)
    ]

  -- The loop of `_handshake`.
  unfoldable pub greet : ℕ → ℕ → Call W J Done
  greet zero deadline = out_of_fuel
  greet (suc rounds) deadline = do
    now ← now_ms T
    if ltb now deadline
        then (do
          pkt ← read T poll_ms
          elim pkt [
            | none ↦ greet rounds deadline
            | some p ↦ do
              set_unit p.unit
              if p.cmd == cmd_new_unit
                  then (do
                    write T (next_msgid p.msgid) cmd_get_serial (operands 0 0)
                    greet rounds deadline)
                  else (if p.cmd == cmd_get_serial then set_serial (u32 p) else ask_serial)
          ])
        else raise (device_error (format "no packets from the unit during handshake" nil))

  unfoldable pub handshake : Call W J Done
  handshake = do
    now ← now_ms T
    greet fuel (now + 5_000)
    version ← read_firmware
    set_firmware version

  -- One pass of the loop of `open`: `none` for success, or the exception to report.
  unfoldable pub try_open : Call W J (Option Exc)
  try_open = do
    result ← open_io
    elim result [
      | failed ↦ pure (some os_error)
      | broken ↦ raise other_error
      | finished _ ↦ do
        set_open
        handle any_exception (handshake >> pure none) (λ e. close T >> pure (some e))
    ]

  -- The passes of `open` that are left, and the exception of the last one.
  unfoldable pub open_from : ℕ → Option Exc → Call W J Done
  open_from zero last = raise (
      not_connected
        (format "cannot open Disc Stakka (%04x:%04x): %s" (num vid (num pid (last_error last)))))
  open_from (suc left) last = do
    result ← try_open
    elim result [
      | none ↦ skip
      | some e ↦ do if left == 0 then skip else sleep 400; open_from left (some e)
    ]

  -- `connected`
  unfoldable pub is_connected : Call W J Bool
  is_connected = gets (λ s. s.is_open)

  unfoldable pub open_unit : ℕ → Call W J Done
  open_unit attempts = do opened ← is_connected; if opened then skip else open_from attempts none

  unfoldable pub reconnect : Call W J Done
  reconnect = do close T; open_unit 3

  unfoldable pub present : Call W J Bool
  present = on_bus T T.present

  unfoldable pub alive : Call W J Bool
  alive = handle is_not_connected (read T 0 >> pure true) (λ e. pure false)
