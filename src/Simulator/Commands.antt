-- ===== src/Simulator/Commands.antt =====
-- How the software unit hears a command (discstakka/simulator.py, `status` and from `handle` on).
use disc_stakka_web.Base.{
  ℕ, ◌+◌, ◌-◌, ◌*◌, ◌/◌, ◌%◌, bit_or, Bool, true, false, not, ◌&&◌, ◌||◌, ◌==◌, if◌then◌else◌,
  Option, none, some, List, [], ◌∷◌,
}
use disc_stakka_web.Simulator.Carousel.{
  Carousel, Reply, arrived, back_in_slot, stored, busy_idle, busy_working, waiting_bit,
  new_disc_bit, bay_bit, timeout_bit, unknown_mask, retracted_bit, homed_bit, seek_base_ms,
  seek_per_slot_ms, blip_for_ms, push_ms, bay_ms, retract_ms, retract_bay_ms, ingest_ms, busy,
  work_for, after, contains, run_due,
}

-- `WITH_STATUS` and `ALWAYS_ANSWERED`, over the opcodes as the simulator spells them.
unfoldable pub always_answered : ℕ → Bool
always_answered cmd = cmd == 0x01 || cmd == 0x1A || cmd == 0x1B || cmd == 0x1C

abbrev flag : Bool → ℕ → ℕ → ℕ
flag b bits st = if b then bit_or st bits else st

-- The word that `status` builds, from the conditions that it tests.
unfoldable pub status_bits : Bool → Bool → Bool → Bool → Bool → Bool → Bool → Bool → Bool → ℕ
status_bits busy working waiting new_disc bay timeout retracted unknown homed =
    flag homed homed_bit (
      flag unknown unknown_mask (
        flag retracted retracted_bit (
          flag timeout timeout_bit (
            flag bay bay_bit (
              flag new_disc new_disc_bit (
                flag waiting waiting_bit (
                  if busy
                  then (if working
                      then bit_or 0 (bit_or busy_idle busy_working)
                      else bit_or 0 busy_idle)
                  else 0)))))))

unfoldable pub status : Carousel → ℕ
unfolding status_bits
status c =
    status_bits (busy c) c.working c.disc_waiting c.new_disc_ack c.disc_in_bay c.ack_timeout
      c.retracted c.unknown_bit c.homed

-- `abs(a - b)`
abbrev distance : ℕ → ℕ → ℕ
distance a b = a - b + (b - a)

unfoldable pub seek_ms : ℕ → Carousel → ℕ
seek_ms target c = seek_base_ms + seek_per_slot_ms * distance target c.position

unfoldable pub status_reply : Carousel → Reply
status_reply c = record { r1 = c.position; r2 = status c / 256 % 256; r3 = status c % 256; r4 = 0 }

abbrev no_payload : Reply
no_payload = record { r1 = 0; r2 = 0; r3 = 0; r4 = 0 }

-- `args[0]` and `args[1]`; a command always has five.
abbrev pub arg_0 : List ℕ → ℕ
arg_0 [] = 0
arg_0 (a ∷ _) = a

abbrev pub arg_1 : List ℕ → ℕ
arg_1 (_ ∷ b ∷ _) = b
arg_1 _ = 0

abbrev clear_timeout : Carousel → Carousel
clear_timeout c = record c { ack_timeout = false }

-- `_cmd_04`
unfoldable pub set_pos : ℕ → Bool → Carousel → Reply × Carousel
unfolding seek_ms status_reply work_for after
set_pos target eject c =
    let presenting = eject && contains target c.occupied in
    let travel = seek_ms target c + (if presenting then push_ms else 0) in
    let c' =
      after travel (arrived target presenting)
        (record (work_for (travel + (if presenting then bay_ms else 0)) true c) {
          ack_timeout = false;
          retracted = false;
        }) in
    (status_reply c', c')

-- `_cmd_05`
unfoldable pub retract : Carousel → Reply × Carousel
unfolding work_for after
retract c = (no_payload, after retract_bay_ms back_in_slot (work_for retract_ms true c))

-- `_cmd_1d`
unfoldable pub accept_disc : Carousel → Reply × Carousel
unfolding status_reply work_for after
accept_disc c =
    let c' =
      after ingest_ms (stored c.position)
        (work_for ingest_ms true (record c { new_disc_ack = false })) in
    if c.new_disc_ack then (status_reply c', c') else (status_reply c, c)

-- `_cmd_1c`
unfoldable pub serial_reply : ℕ → Reply
serial_reply s = record {
  r1 = s / 16777216 % 256;
  r2 = s / 65536 % 256;
  r3 = s / 256 % 256;
  r4 = s % 256;
}

-- The method `_cmd_…` of an opcode, and the status reply where there is none.
unfoldable pub perform : ℕ → List ℕ → Carousel → Reply × Carousel
unfolding set_pos retract accept_disc serial_reply status_reply
perform cmd args c =
    if cmd == 0x03
    then (no_payload, clear_timeout c)
    else (if cmd == 0x04
        then set_pos (arg_0 args) (not (arg_1 args == 0)) c
        else (if cmd == 0x05
            then retract c
            else (if cmd == 0x14
                then (status_reply (clear_timeout c), clear_timeout c)
                else (if cmd == 0x1A
                    then (record { r1 = 0x01; r2 = 0x04; r3 = 0x23; r4 = 0x17 }, c)
                    else (if cmd == 0x1B
                        then (record { r1 = 0x00; r2 = 0x02; r3 = 0x00; r4 = 0x79 }, c)
                        else (if cmd == 0x1C
                            then (serial_reply c.serial, c)
                            else (if cmd == 0x1D then accept_disc c else (status_reply c, c))))))))

abbrev drop : ℕ → List ℕ → Carousel → Option Reply × Carousel
drop cmd args c = (none, record c { dropped = (cmd, args) ∷ c.dropped })

abbrev answer : Reply × Carousel → Option Reply × Carousel
answer (r, c) = (some r, c)

-- What `handle` does with a command that no busy spell or blip swallows.
unfoldable pub handle_heard : ℕ → List ℕ → Carousel → Option Reply × Carousel
unfolding perform
handle_heard cmd args c =
    if cmd == 0x04 && not (arg_0 args == 0) && not c.homed
    then drop cmd args c
    else answer (perform cmd args (record c { log = (cmd, args) ∷ c.log }))

-- The test of a blip draws a number only if blips are on and the command is not always answered.
unfoldable pub handle_due : ℕ → List ℕ → Carousel → Option Reply × Carousel
unfolding handle_heard always_answered busy work_for
handle_due cmd args c =
    if busy c && not (always_answered cmd)
    then drop cmd args c
    else (if c.blips && not (always_answered cmd)
        then (let c' = record c { drawn = c.drawn + 1 } in
            if c.chance c.drawn
            then drop cmd args (work_for blip_for_ms false c')
            else handle_heard cmd args c')
        else handle_heard cmd args c)

unfoldable pub handle : ℕ → List ℕ → Carousel → Option Reply × Carousel
handle cmd args c = handle_due cmd args (run_due c)
