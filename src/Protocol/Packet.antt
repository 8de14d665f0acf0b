-- ===== src/Protocol/Packet.antt =====
-- Command codes, status bits and the inbound report (discstakka/protocol.py, lines 27 to 120).
use disc_stakka_web.Base.{
  ℕ, ◌*◌, ◌+◌, ◌/◌, ◌%◌, bit_and, bit_or, Bool, not, ◌||◌, Option, none, some, List, [], ◌∷◌, ◌++◌,
  ◌==◌, ltb, if◌then◌else◌,
}

abbrev pub cmd_request_state : ℕ
cmd_request_state = 0x01

abbrev pub cmd_clear_err_1 : ℕ
cmd_clear_err_1 = 0x03

abbrev pub cmd_set_pos : ℕ
cmd_set_pos = 0x04

abbrev pub cmd_retract : ℕ
cmd_retract = 0x05

abbrev pub cmd_set_led : ℕ
cmd_set_led = 0x06

abbrev pub cmd_clear_err_2 : ℕ
cmd_clear_err_2 = 0x14

abbrev pub cmd_version_a : ℕ
cmd_version_a = 0x1A

abbrev pub cmd_version_b : ℕ
cmd_version_b = 0x1B

abbrev pub cmd_get_serial : ℕ
cmd_get_serial = 0x1C

abbrev pub cmd_accept_disc : ℕ
cmd_accept_disc = 0x1D

abbrev pub cmd_new_unit : ℕ
cmd_new_unit = 0xCC

-- `cmd in CARRIES_STATUS`
unfoldable pub carries_status : ℕ → Bool
carries_status cmd =
    cmd == cmd_request_state
    || cmd == cmd_set_pos
    || cmd == cmd_set_led
    || cmd == cmd_clear_err_2
    || cmd == cmd_accept_disc

abbrev pub st_busy : ℕ
st_busy = 0x8080

abbrev pub st_disc_waiting : ℕ
st_disc_waiting = 0x1000

abbrev pub st_new_disc_ack : ℕ
st_new_disc_ack = 0x0800

abbrev pub st_disc_in_bay : ℕ
st_disc_in_bay = 0x0400

abbrev pub st_ack_timeout : ℕ
st_ack_timeout = 0x0200

abbrev pub st_homed : ℕ
st_homed = 0x0001

abbrev pub settle_ms : ℕ
settle_ms = 30_000

abbrev pub ack_ms : ℕ
ack_ms = 3_000

abbrev pub poll_ms : ℕ
poll_ms = 100

abbrev pub settled_now_ms : ℕ
settled_now_ms = 500

abbrev pub insert_window_ms : ℕ
insert_window_ms = 30_000

abbrev pub take_window_ms : ℕ
take_window_ms = 5_000

pub record Packet : Type 0 where
  pub tag : ℕ
  pub unit : ℕ
  pub msgid : ℕ
  pub cmd : ℕ
  pub x1 : ℕ
  pub x2 : ℕ
  pub x3 : ℕ
  pub x4 : ℕ

-- The unpacking of `raw[:8]`; `none` is the `ValueError` of fewer than eight bytes.
unfoldable pub packet : List ℕ → Option Packet
packet (tag ∷ unit ∷ msgid ∷ cmd ∷ x1 ∷ x2 ∷ x3 ∷ x4 ∷ rest) = some (record {
  tag = tag;
  unit = unit;
  msgid = msgid;
  cmd = cmd;
  x1 = x1;
  x2 = x2;
  x3 = x3;
  x4 = x4;
})
packet _ = none

-- `Packet.status`
unfoldable pub status_word : Packet → ℕ
status_word p = bit_or (p.x2 * 256) p.x3

-- `status & mask`, read as a condition.
unfoldable pub is_set : ℕ → ℕ → Bool
is_set st mask = not (bit_and st mask == 0)

-- `_u32`
unfoldable pub u32 : Packet → ℕ
u32 p = bit_or (bit_or (bit_or (p.x1 * 16777216) (p.x2 * 65536)) (p.x3 * 256)) p.x4

-- The names that `describe_status` joins, in its order.
pub data StatusName : Type 0 where
  busy disc_waiting new_disc_ack disc_in_bay ack_timeout homed : StatusName

abbrev name_if : ℕ → ℕ → StatusName → List StatusName → List StatusName
name_if st mask name names = if is_set st mask then name ∷ names else names

-- The word, printed as `%04x`, and the names.
unfoldable pub describe_status : ℕ → ℕ × List StatusName
unfolding is_set
describe_status st = (
  st,
  name_if st st_busy busy (
      name_if st st_disc_waiting disc_waiting (
        name_if st st_new_disc_ack new_disc_ack (
          name_if st st_disc_in_bay disc_in_bay
            (name_if st st_ack_timeout ack_timeout (name_if st st_homed homed []))))),
)

hex_digit : ℕ → ℕ
hex_digit d = if ltb d 10 then b'0' + d else 87 + d

-- `%02x` of a byte, as character codes.
unfoldable pub hex_byte : ℕ → List ℕ
unfolding hex_digit
hex_byte n = hex_digit (n / 16) ∷ hex_digit (n % 16) ∷ []

-- `"%02x.%02x.%02x%02x" % (b.x2, a.x4, b.x3, b.x4)`
unfoldable pub firmware_text : Packet → Packet → List ℕ
unfolding hex_byte
firmware_text a b =
    hex_byte b.x2 ++ (b'.' ∷ (hex_byte a.x4 ++ (b'.' ∷ (hex_byte b.x3 ++ hex_byte b.x4))))
