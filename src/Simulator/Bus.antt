-- ===== src/Simulator/Bus.antt =====
-- The software unit as a transport (discstakka/simulator.py, class `SimulatedTransport`).
use disc_stakka_web.Base.{
  ℕ, ◌+◌, ◌-◌, Bool, true, false, ◌&&◌, ◌==◌, ltb, if◌then◌else◌, Option, none, some, List, [], ◌∷◌,
  length, take,
}
use disc_stakka_web.Effect.{Done}
use disc_stakka_web.Transport.{Transport, Io, finished, failed, broken, Written, bytes_written}
use disc_stakka_web.Simulator.Carousel.{Carousel, Reply, run_due}
use disc_stakka_web.Simulator.Commands.{handle}

pub record Bus : Type 0 where
  pub carousel : Carousel
  pub is_present : Bool
  pub opened : Bool
  pub opens_to_fail : ℕ
  pub latched : Option (List ℕ)
  pub msgid : ℕ
  pub writes : List (ℕ × List ℕ)
  pub opens : ℕ
  pub closes : ℕ
  pub enumerations : ℕ

abbrev pub plugged : Carousel → Bus
plugged c = record {
  carousel = c;
  is_present = true;
  opened = false;
  opens_to_fail = 0;
  latched = none;
  msgid = 0;
  writes = [];
  opens = 0;
  closes = 0;
  enumerations = 0;
}

abbrev pub repeat_ms : ℕ
repeat_ms = 143

-- `_packet`
abbrev pub packet_of : ℕ → ℕ → ℕ → Reply → List ℕ
packet_of unit msgid cmd r = 0x01 ∷ unit ∷ msgid ∷ cmd ∷ r.r1 ∷ r.r2 ∷ r.r3 ∷ r.r4 ∷ []

unfoldable pub unplug : Bus → Bus
unplug b = record b { is_present = false; opened = false }

unfoldable pub replug : Bus → Bus
replug b = record b { is_present = true; latched = none }

unfoldable pub fail_opens : ℕ → Bus → Bus
fail_opens n b = record b { opens_to_fail = n }

unfoldable pub present : Bus → Bool × Bus
present b = (b.is_present, record b { enumerations = b.enumerations + 1 })

unfoldable pub open_handle : Bus → Io Done × Bus
open_handle b =
    let b' = record b { enumerations = b.enumerations + 1 } in
    if ltb 0 b.opens_to_fail
    then (failed, record b' { opens_to_fail = b.opens_to_fail - 1 })
    else (if b.is_present
        then (
          finished tt,
          record b' {
            opens = b.opens + 1;
            opened = true;
            latched = some (
                packet_of b.carousel.unit b.msgid 0xCC (record { r1 = 0; r2 = 0; r3 = 0; r4 = 0 }));
          },
        )
        else (failed, b'))

unfoldable pub close_handle : Bus → Bus
close_handle b = record b { closes = if b.opened then b.closes + 1 else b.closes; opened = false }

abbrev min_of : ℕ → ℕ → ℕ
min_of a b = if ltb b a then b else a

-- `clock.advance_ms` of the virtual clock, tests/clock.py.
unfoldable pub advance : ℕ → Carousel → Carousel
advance ms c = record c { clock = c.clock + ms }

-- `list(self._latched)` raises `TypeError` for `None`.
abbrev latched_report : Option (List ℕ) → Io (List ℕ)
latched_report none = broken
latched_report (some l) = finished l

unfoldable pub read : ℕ → ℕ → Bus → Io (List ℕ) × Bus
unfolding advance
read size timeout b =
    let b' = record b { carousel = run_due (advance (min_of timeout repeat_ms) b.carousel) } in
    if b.opened
    then (if b.is_present then (latched_report b.latched, b') else (failed, b'))
    else (failed, b)

-- The reply, if the unit heard the command, becomes the report that is repeated.
abbrev latch : ℕ → ℕ → Option Reply → Bus → Bus
latch msgid cmd none b = b
latch msgid cmd (some r) b = record b {
  msgid = msgid;
  latched = some (packet_of b.carousel.unit msgid cmd r);
}

unfoldable pub hear : ℕ → ℕ → List ℕ → Bus → Bus
hear msgid cmd args b =
    let (reply, c) = handle cmd args b.carousel in
    latch msgid cmd reply (record b { writes = (cmd, args) ∷ b.writes; carousel = c })

-- The bytes as the unit sees them: the report number, tag, unit, message number and command first,
-- then `buf[5:10]`.
unfoldable pub write : List ℕ → Bus → Io Written × Bus
unfolding hear
write (report ∷ tag ∷ unit ∷ msgid ∷ cmd ∷ args) b =
    let sent : Io Written =
      finished (bytes_written (length (report ∷ tag ∷ unit ∷ msgid ∷ cmd ∷ args))) in
    if b.opened && b.is_present
    then (if tag == 0x01 && unit == b.carousel.unit
        then (sent, hear msgid cmd (take 5 args) b)
        else (sent, b))
    else (failed, b)
write _ b = if b.opened && b.is_present then (broken, b) else (failed, b)

-- The transport under the virtual clock, which moves only when a read or a sleep moves it.
abbrev pub simulated : Transport Bus
simulated = record {
  open_handle = open_handle;
  close_handle = close_handle;
  read = read;
  write = write;
  present = present;
  now_ms = λ b. b.carousel.clock;
  sleep_ms = λ ms b. record b { carousel = advance ms b.carousel };
}
