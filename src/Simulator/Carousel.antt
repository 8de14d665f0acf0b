-- ===== src/Simulator/Carousel.antt =====
-- The firmware's view of the machine (discstakka/simulator.py, class `Carousel`). The clock is the
-- virtual one of tests/clock.py, in milliseconds; the functions that the code puts on its heap of
-- events are the constructors of `Happening`; `chance` holds the outcomes of
-- `self._rng.random() < self.blip_chance`, of which `drawn` have been used.
use disc_stakka_web.Base.{
  Option, none, some, ℕ, zero, suc, ◌+◌, ◌-◌, Bool, true, false, ◌&&◌, ◌||◌, ◌==◌, ltb, leb,
  if◌then◌else◌, List, [], ◌∷◌, length,
}

abbrev pub busy_idle : ℕ
busy_idle = 0x0080

abbrev pub busy_working : ℕ
busy_working = 0x8000

abbrev pub waiting_bit : ℕ
waiting_bit = 0x1000

abbrev pub new_disc_bit : ℕ
new_disc_bit = 0x0800

abbrev pub bay_bit : ℕ
bay_bit = 0x0400

abbrev pub timeout_bit : ℕ
timeout_bit = 0x0200

abbrev pub unknown_mask : ℕ
unknown_mask = 0x4000

abbrev pub retracted_bit : ℕ
retracted_bit = 0x0100

abbrev pub homed_bit : ℕ
homed_bit = 0x0001

abbrev pub seek_base_ms : ℕ
seek_base_ms = 1_500

abbrev pub seek_per_slot_ms : ℕ
seek_per_slot_ms = 56

abbrev pub blip_for_ms : ℕ
blip_for_ms = 300

abbrev pub aperture_ms : ℕ
aperture_ms = 1_500

abbrev pub settle_disc_ms : ℕ
settle_disc_ms = 1_800

abbrev pub ingest_ms : ℕ
ingest_ms = 1_800

abbrev pub push_ms : ℕ
push_ms = 500

abbrev pub bay_ms : ℕ
bay_ms = 1_200

abbrev pub take_ms : ℕ
take_ms = 900

abbrev pub retract_ms : ℕ
retract_ms = 3_600

abbrev pub retract_bay_ms : ℕ
retract_bay_ms = 1_800

abbrev pub ack_window_ms : ℕ
ack_window_ms = 10_000

pub data Happening : Type 0 where
  taken disc_arrives disc_drawn_off ack_expired back_in_slot settled : Happening
  arrived : ℕ → Bool → Happening
  stored : ℕ → Happening

-- An entry of the heap: when, the sequence number, and what happens.
pub record Due : Type 0 where
  pub when : ℕ
  pub seq : ℕ
  pub happening : Happening

-- The reply's bytes x1 to x4.
pub record Reply : Type 0 where
  pub r1 : ℕ
  pub r2 : ℕ
  pub r3 : ℕ
  pub r4 : ℕ

pub record Carousel : Type 0 where
  pub clock : ℕ
  pub occupied : List ℕ
  pub serial : ℕ
  pub unit : ℕ
  pub position : ℕ
  pub homed : Bool
  pub disc_waiting : Bool
  pub new_disc_ack : Bool
  pub disc_in_bay : Bool
  pub ack_timeout : Bool
  pub retracted : Bool
  pub unknown_bit : Bool
  pub blips : Bool
  pub chance : ℕ → Bool
  pub drawn : ℕ
  pub busy_until : ℕ
  pub working : Bool
  pub events : List Due
  pub seq : ℕ
  pub log : List (ℕ × List ℕ)
  pub dropped : List (ℕ × List ℕ)

abbrev pub initial : Carousel
initial = record {
  clock = 1_000_000;
  occupied = [];
  serial = 0x0DECAF01;
  unit = 0;
  position = 0;
  homed = false;
  disc_waiting = false;
  new_disc_ack = false;
  disc_in_bay = false;
  ack_timeout = false;
  retracted = false;
  unknown_bit = false;
  blips = false;
  chance = λ _. false;
  drawn = 0;
  busy_until = 0;
  working = true;
  events = [];
  seq = 0;
  log = [];
  dropped = [];
}

-- The order of the heap's tuples, by time and then by number.
abbrev pub earlier : Due → Due → Bool
earlier a b = ltb a.when b.when || (a.when == b.when && ltb a.seq b.seq)

-- `heappush`: the heap is kept as the sorted list of what it will give out.
unfoldable pub push : Due → List Due → List Due
push e [] = e ∷ []
push e (d ∷ ds) = if earlier e d then e ∷ d ∷ ds else d ∷ push e ds

-- `at`
unfoldable pub at : ℕ → Happening → Carousel → Carousel
unfolding push
at when h c = record c {
  seq = c.seq + 1;
  events = push (record { when = when; seq = c.seq + 1; happening = h }) c.events;
}

unfoldable pub after : ℕ → Happening → Carousel → Carousel
unfolding at
after delay h c = at (c.clock + delay) h c

abbrev max_of : ℕ → ℕ → ℕ
max_of a b = if ltb a b then b else a

unfoldable pub work_for : ℕ → Bool → Carousel → Carousel
work_for ms working c = record c {
  busy_until = max_of c.busy_until (c.clock + ms);
  working = working;
}

unfoldable pub busy : Carousel → Bool
busy c = ltb c.clock c.busy_until

abbrev pub contains : ℕ → List ℕ → Bool
contains k [] = false
contains k (x ∷ xs) = x == k || contains k xs

-- `set.add` and `set.discard`
abbrev pub add : ℕ → List ℕ → List ℕ
add k xs = if contains k xs then xs else k ∷ xs

abbrev pub discard : ℕ → List ℕ → List ℕ
discard k [] = []
discard k (x ∷ xs) = let rest = discard k xs in if x == k then rest else x ∷ rest

-- The functions that run off the heap.
unfoldable pub happen : Happening → Carousel → Carousel
unfolding work_for after at
happen taken c = work_for take_ms true (record c { disc_in_bay = false; ack_timeout = true })
happen disc_arrives c =
    after aperture_ms disc_drawn_off (work_for aperture_ms true (record c { disc_waiting = true }))
happen disc_drawn_off c =
    at (c.clock + settle_disc_ms + ack_window_ms) ack_expired
      (work_for settle_disc_ms true (record c { disc_waiting = false; new_disc_ack = true }))
happen ack_expired c =
    if c.new_disc_ack
    then work_for bay_ms true
        (record c { new_disc_ack = false; ack_timeout = true; disc_in_bay = true })
    else c
happen back_in_slot c =
    if c.disc_in_bay
    then after (retract_ms - retract_bay_ms) settled
        (record c { disc_in_bay = false; occupied = add c.position c.occupied })
    else c
happen settled c = record c { retracted = true }
happen (arrived target presenting) c =
    let there = record c { position = target; homed = true } in
    if presenting
    then record there { occupied = discard target c.occupied; disc_in_bay = true }
    else there
happen (stored slot) c = record c { occupied = add slot c.occupied }

abbrev when_or_now : Option ℕ → ℕ → ℕ
when_or_now none now = now
when_or_now (some when) now = when

-- A hand feeds a disc into the aperture, or takes the disc that the unit presents; at once, or later.
unfoldable pub insert_disc : Option ℕ → Carousel → Carousel
unfolding at
insert_disc when c = at (when_or_now when c.clock) disc_arrives c

unfoldable pub take_disc : Option ℕ → Carousel → Carousel
unfolding at
take_disc when c = at (when_or_now when c.clock) taken c

-- The loop of `_run_due`; each round takes an entry off, and what is added is not due.
unfoldable pub run_due_from : ℕ → Carousel → Carousel
run_due_from zero c = c
run_due_from (suc rounds) c = elim c.events [
  | [] ↦ c
  | d ∷ ds ↦
      if leb d.when c.clock
      then run_due_from rounds (happen d.happening (record c { events = ds }))
      else c
]

unfoldable pub run_due : Carousel → Carousel
unfolding run_due_from
run_due c = run_due_from (length c.events) c
