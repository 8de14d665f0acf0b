-- ===== src/Protocol/Handle.antt =====
-- A `DiscStakka` object and its wire methods (discstakka/protocol.py, lines 127 to 252). `T` is the
-- transport, `J` what the callbacks `trace` and `progress` work on. `events` is the model's own
-- record of what went over the wire, newest first; no method reads it.
use disc_stakka_web.Base.{
  ℕ, zero, suc, ◌+◌, ◌%◌, Bool, false, ◌==◌, ltb, if◌then◌else◌, Option, none, some, List, [], ◌∷◌,
  length, all,
}
use disc_stakka_web.Effect.{
  Text, format, nil, num, ok, not_connected, device_error, value_error, other_error, M, Done, ◌>>=◌,
  ◌>>◌, pure, raise, out_of_fuel, skip, gets, modify,
}
use disc_stakka_web.Transport.{
  Transport, Io, finished, failed, broken, Written, bytes_written, negative,
}
use disc_stakka_web.Protocol.Packet.{Packet, packet, poll_ms}

pub data WireEvent : Type 0 where
  heard : Packet → WireEvent
  wrote : List ℕ → WireEvent

pub record DiscStakka (W J : Type 0) : Type 0 where
  pub io : W
  pub is_open : Bool
  pub unit : ℕ
  pub serial : Option ℕ
  pub firmware : Option (List ℕ)
  pub trace : Option (ℕ → J → J)
  pub caller : J
  pub events : List WireEvent

-- The bytes x1 to x5 of a command.
pub record Operands : Type 0 where
  pub x1 : ℕ
  pub x2 : ℕ
  pub x3 : ℕ
  pub x4 : ℕ
  pub x5 : ℕ

abbrev pub operands : ℕ → ℕ → Operands
operands a b = record { x1 = a; x2 = b; x3 = 0; x4 = 0; x5 = 0 }

-- `(msgid + 1) & 0xFF`
unfoldable pub next_msgid : ℕ → ℕ
next_msgid n = (n + 1) % 256

unfoldable pub frame : ℕ → ℕ → ℕ → Operands → List ℕ
frame unit msgid cmd x = 0x00 ∷ 0x01 ∷ unit ∷ msgid ∷ cmd ∷ x.x1 ∷ x.x2 ∷ x.x3 ∷ x.x4 ∷ x.x5 ∷ []

abbrev pub is_byte : ℕ → Bool
is_byte b = ltb b 256

abbrev pub Progress : Type 0 → Type 0
Progress J = Option (Text → J → J)

abbrev pub answers : ℕ → Option Packet → Bool
answers msgid none = false
answers msgid (some p) = p.msgid == msgid

-- `_report`
abbrev pub report : {W J : Type 0} → Progress J → Text → M (DiscStakka W J) Done
report none message = skip
report (some callback) message = modify λ s. record s { caller = callback message s.caller }

-- `self.trace(status)`, if there is one.
abbrev pub traced : {J : Type 0} → Option (ℕ → J → J) → ℕ → J → J
traced none st j = j
traced (some callback) st j = callback st j

abbrev pub observe_status : {W J : Type 0} → ℕ → M (DiscStakka W J) Done
observe_status st = modify λ s. record s { caller = traced s.trace st s.caller }

abbrev pub Call : Type 0 → Type 0 → Type 0 → Type 0
Call W J A = M (DiscStakka W J) A

module _ {W J : Type 0} (T : Transport W) where
  unfoldable pub close : Call W J Done
  close =
      modify
        λ s. record s { is_open = false; serial = none; firmware = none; io = T.close_handle s.io }

  -- A call of the transport, which changes the bus and nothing else.
  abbrev pub on_bus : {A : Type 0} → (W → A × W) → Call W J A
  on_bus f s = (ok (f s.io).0, record s { io = (f s.io).1 })

  -- `_now_ms`
  unfoldable pub now_ms : Call W J ℕ
  now_ms = gets (λ s. T.now_ms s.io)

  -- What `_read` makes of the report: `none` for an empty one.
  received : Io (List ℕ) → Call W J (Option Packet)
  received failed = close >> raise (not_connected (format "read failed" nil))
  received broken = raise other_error
  received (finished []) = pure none
  received (finished (b ∷ raw)) = elim (packet (b ∷ raw)) [
    | none ↦
        raise (device_error (format "short packet: %d bytes, need 8" (num (length (b ∷ raw)) nil)))
    | some p ↦ do modify (λ s. record s { events = heard p ∷ s.events }); pure (some p)
  ]

  -- `_read`
  unfoldable pub read : ℕ → Call W J (Option Packet)
  unfolding received close
  read timeout = do
    opened ← gets (λ s. s.is_open)
    if opened
        then on_bus (T.read 64 timeout) >>= received
        else raise (not_connected (format "device is not open" nil))

  sent : Io Written → Call W J Done
  sent failed = close >> raise (not_connected (format "write failed" nil))
  sent broken = raise other_error
  sent (finished negative) = raise (device_error (format "write failed" nil))
  sent (finished (bytes_written n)) = skip

  write_frame : List ℕ → Call W J Done
  unfolding sent close
  write_frame buf = do
    modify (λ s. record s { events = wrote buf ∷ s.events })
    on_bus (T.write buf) >>= sent

  -- `_write`; `bytes` raises `ValueError` for a number that is no byte.
  unfoldable pub write : ℕ → ℕ → Operands → Call W J Done
  unfolding write_frame frame
  write msgid cmd x = do
    opened ← gets (λ s. s.is_open)
    unit ← gets (λ s. s.unit)
    if opened
        then (if all is_byte (frame unit msgid cmd x)
            then write_frame (frame unit msgid cmd x)
            else raise (value_error (format "bytes must be in range(0, 256)" nil)))
        else raise (not_connected (format "device is not open" nil))

  -- The loop of `command`, from where the deadline is known.
  unfoldable pub await_reply : ℕ → ℕ → ℕ → Call W J (Option Packet)
  await_reply zero msgid deadline = out_of_fuel
  await_reply (suc fuel) msgid deadline = do
    now ← now_ms
    if ltb now deadline
        then (do
          reply ← read poll_ms
          if answers msgid reply then pure reply else await_reply fuel msgid deadline)
        else pure none

  -- `command`: the reply that carries the message number back, `none` if there is none in time.
  unfoldable pub command : ℕ → ℕ → Operands → ℕ → Call W J (Option Packet)
  command fuel cmd x timeout = do
    seed ← read timeout
    elim seed [
      | none ↦ raise (device_error (format "unit is silent; it should stream continuously" nil))
      | some p ↦ do
        let msgid = next_msgid p.msgid
        write msgid cmd x
        now ← now_ms
        await_reply fuel msgid (now + timeout)
    ]
