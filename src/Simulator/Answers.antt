-- ===== src/Simulator/Answers.antt =====
-- What the host reads off a reply of the software unit, and what its log tells. The two sides
-- spell out the opcodes and the status bits on their own.
use disc_stakka_web.Base.{
  ℕ, zero, suc, ◌*◌, ◌/◌, ◌%◌, bit_or, Bool, true, false, not, ◌&&◌, Option, none, some, List, ◌∷◌,
  ◌≡◌, refl, arith, inl, inr, ◌+◌, List-cases, length,
}
use disc_stakka_web.Protocol.Packet.{
  Packet, status_word, is_set, st_busy, st_disc_waiting, st_new_disc_ack, st_disc_in_bay,
  st_ack_timeout, st_homed,
}
use disc_stakka_web.Simulator.Carousel.{
  Carousel, Reply, Happening, taken, disc_arrives, disc_drawn_off, ack_expired, back_in_slot,
  settled, arrived, stored, happen, busy, run_due, run_due_from,
}
use disc_stakka_web.Simulator.Commands.{
  status_bits, status, status_reply, handle, handle_due, handle_heard, perform,
}

-- Tests of `n` Booleans, checked by trying all of them.
abbrev Tests : ℕ → Type 0
Tests zero = Bool
Tests (suc n) = Bool → Tests n

abbrev every : (n : ℕ) → Tests n → Bool
every zero b = b
every (suc n) p = every n (p true) && every n (p false)

abbrev Passes : (n : ℕ) → Tests n → Type 0
Passes zero b = b ≡ true
Passes (suc n) p = (b : Bool) → Passes n (p b)

&&-left : (a b : Bool) → (a && b) ≡ true → a ≡ true
&&-left a b h = ground arith

&&-right : (a b : Bool) → (a && b) ≡ true → b ≡ true
&&-right a b h = ground arith

every_sound : (n : ℕ) (p : Tests n) → every n p ≡ true → Passes n p
every_sound zero p h = h
every_sound (suc n) p h = elim [
  | true ↦ every_sound n (p true) (&&-left (every n (p true)) (every n (p false)) h)
  | false ↦ every_sound n (p false) (&&-right (every n (p true)) (every n (p false)) h)
]

abbrev same : Bool → Bool → Bool
same true b = b
same false b = not b

-- The word that the host puts together from the two bytes of the reply.
abbrev sent_word : ℕ → ℕ
sent_word st = bit_or (st / 256 % 256 * 256) (st % 256)

flags_eq :
    (a a' b b' c c' d d' e e' f f' : Bool)
    → (same a a' && same b b' && same c c' && same d d' && same e e' && same f f') ≡ true
    → (a ≡ a') × (b ≡ b') × (c ≡ c') × (d ≡ d') × (e ≡ e') × (f ≡ f')
flags_eq a a' b b' c c' d d' e e' f f' h = ground arith

abbrev reads_back : Bool → Bool → Bool → Bool → Bool → Bool → Bool → Bool → Bool → Bool
reads_back b w d n i t r u h =
    let st = sent_word (status_bits b w d n i t r u h) in
    same (is_set st st_busy) b
    && same (is_set st st_disc_waiting) d
    && same (is_set st st_new_disc_ack) n
    && same (is_set st st_disc_in_bay) i
    && same (is_set st st_ack_timeout) t
    && same (is_set st st_homed) h

all_flags : every 9 reads_back ≡ true
unfolding status_bits is_set
all_flags = refl

-- The packet that carries a reply of the unit, whatever its other fields are.
abbrev pub carrying : Packet → Reply → Packet
carrying p r = record p { x1 = r.r1; x2 = r.r2; x3 = r.r3; x4 = r.r4 }

-- The status word that the host puts together from a status reply of the software unit shows BUSY,
-- DISC_WAITING, NEW_DISC_ACK, DISC_IN_BAY, ACK_TIMEOUT and HOMED exactly as the unit has them,
-- whether or not the two bits that the host does not know are set.
pub status_reply_reads_back :
    (c : Carousel) (p : Packet)
    → let st = status_word (carrying p (status_reply c)) in
      (is_set st st_busy ≡ busy c)
      × (is_set st st_disc_waiting ≡ c.disc_waiting)
      × (is_set st st_new_disc_ack ≡ c.new_disc_ack)
      × (is_set st st_disc_in_bay ≡ c.disc_in_bay)
      × (is_set st st_ack_timeout ≡ c.ack_timeout)
      × (is_set st st_homed ≡ c.homed)
unfolding status_word status_reply status
status_reply_reads_back c p =
    let h =
      every_sound 9 reads_back all_flags (busy c) c.working c.disc_waiting c.new_disc_ack
        c.disc_in_bay c.ack_timeout c.retracted c.unknown_bit c.homed in
    flags_eq _ _ _ _ _ _ _ _ _ _ _ _ h

-- The reply of a command is what tells whether the unit processed it.
abbrev pub Logs : Option Reply → ℕ × List ℕ → Carousel → Carousel → Type 0
Logs none e before after = (after.log ≡ before.log) × (after.dropped ≡ e ∷ before.dropped)
Logs (some r) e before after = (after.log ≡ e ∷ before.log) × (after.dropped ≡ before.dropped)

happen_keeps_log :
    (h : Happening) (c : Carousel) → ((happen h c).log ≡ c.log) × ((happen h c).dropped ≡ c.dropped)
unfolding happen
happen_keeps_log taken c = (refl, refl)
happen_keeps_log disc_arrives c = (refl, refl)
happen_keeps_log disc_drawn_off c = (refl, refl)
happen_keeps_log ack_expired c = ground arith
happen_keeps_log back_in_slot c = ground arith
happen_keeps_log settled c = (refl, refl)
happen_keeps_log (arrived target presenting) c = ground arith
happen_keeps_log (stored slot) c = (refl, refl)

run_due_from_keeps_log :
    (rounds : ℕ) (c : Carousel)
    → ((run_due_from rounds c).log ≡ c.log) × ((run_due_from rounds c).dropped ≡ c.dropped)
unfolding run_due_from
run_due_from_keeps_log zero c = (refl, refl)
run_due_from_keeps_log (suc rounds) c = elim (List-cases c.events) [
  | inl e ↦ ground arith
  | inr (d, ds, e) ↦ ground (
    arith,
    run_due_from_keeps_log rounds (happen d.happening (record c { events = ds })),
    happen_keeps_log d.happening (record c { events = ds }),
  )
]

perform_keeps_log :
    (cmd : ℕ) (args : List ℕ) (c : Carousel)
    → ((perform cmd args c).1.log ≡ c.log) × ((perform cmd args c).1.dropped ≡ c.dropped)
unfolding perform
perform_keeps_log cmd args c = ground arith

handle_heard-Logs :
    (cmd : ℕ) (args : List ℕ) (c : Carousel)
    → Logs (handle_heard cmd args c).0 (cmd, args) c (handle_heard cmd args c).1
unfolding handle_heard
handle_heard-Logs cmd args c =
    ground (arith, perform_keeps_log cmd args (record c { log = (cmd, args) ∷ c.log }))

handle_due-Logs :
    (cmd : ℕ) (args : List ℕ) (c : Carousel)
    → Logs (handle_due cmd args c).0 (cmd, args) c (handle_due cmd args c).1
unfolding handle_due
handle_due-Logs cmd args c = ground (
  arith,
  handle_heard-Logs cmd args c,
  handle_heard-Logs cmd args (record c { drawn = c.drawn + 1 }),
)

run_due_keeps_log : (c : Carousel) → ((run_due c).log ≡ c.log) × ((run_due c).dropped ≡ c.dropped)
unfolding run_due
run_due_keeps_log c = run_due_from_keeps_log (length c.events) c

Logs-from :
    (r : Option Reply) (e : ℕ × List ℕ) (a b c : Carousel)
    → (b.log ≡ a.log) × (b.dropped ≡ a.dropped)
    → Logs r e b c
    → Logs r e a c
Logs-from none e a b c h l = ground arith
Logs-from (some r) e a b c h l = ground arith

-- A command is in the unit's log exactly if it got a reply, and in its list of dropped commands
-- exactly if it got none: every call of `handle` adds to one of the two and leaves the other.
pub handle_tells_what_it_did :
    (cmd : ℕ) (args : List ℕ) (c : Carousel)
    → Logs (handle cmd args c).0 (cmd, args) c (handle cmd args c).1
unfolding handle
handle_tells_what_it_did cmd args c =
    Logs-from (handle_due cmd args (run_due c)).0 (cmd, args) c (run_due c)
      (handle_due cmd args (run_due c)).1 (run_due_keeps_log c)
      (handle_due-Logs cmd args (run_due c))
