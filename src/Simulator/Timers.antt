-- ===== src/Simulator/Timers.antt =====
-- The loop of `_run_due` (discstakka/simulator.py, lines 185 to 188) has done its work when it stops.
use disc_stakka_web.Base.{
  ℕ, zero, suc, ◌+◌, ◌≤◌, Bool, true, false, leb, if◌then◌else◌, Option, List, [], ◌∷◌, length, ◌≡◌,
  refl, arith,
}
use disc_stakka_web.Simulator.Clock.{run_due-clock}
use disc_stakka_web.Simulator.Heap.{
  AreAfter, AreSorted, IsSorted, run_due-IsSorted, inserted-IsSorted, taken-IsSorted,
  handle-IsSorted,
}
use disc_stakka_web.Simulator.Commands.{handle}
use disc_stakka_web.Simulator.Carousel.{
  Carousel, Due, Happening, insert_disc, take_disc, push, at, after, work_for, happen, run_due,
  run_due_from, taken, disc_arrives, disc_drawn_off, ack_expired, back_in_slot, settled, arrived,
  stored,
}

-- The timers whose time has come.
abbrev pub due_count : ℕ → List Due → ℕ
due_count clock [] = 0
due_count clock (d ∷ ds) = (if leb d.when clock then 1 else 0) + due_count clock ds

-- The first timer is still to come.
abbrev AreWaiting : ℕ → List Due → Type 0
AreWaiting clock [] = Unit
AreWaiting clock (d ∷ ds) = leb d.when clock ≡ false

abbrev IsWaiting : Carousel → Type 0
IsWaiting c = AreWaiting c.clock c.events

due_count-length : (clock : ℕ) (ds : List Due) → due_count clock ds ≤ length ds
due_count-length clock [] = omega arith
due_count-length clock (d ∷ ds) = ground (arith, due_count-length clock ds)

due_count-push :
    (clock : ℕ) (e : Due) (ds : List Due)
    → leb e.when clock ≡ false
    → due_count clock (push e ds) ≡ due_count clock ds
unfolding push
due_count-push clock e [] h = ground arith
due_count-push clock e (d ∷ ds) h = ground (arith, due_count-push clock e ds h)

-- A timer that is set for later does not come due by it.
due_count-at :
    (when : ℕ) (h : Happening) (c : Carousel)
    → leb when c.clock ≡ false
    → due_count c.clock (at when h c).events ≡ due_count c.clock c.events
unfolding at
due_count-at when h c e =
    due_count-push c.clock (record { when = when; seq = c.seq + 1; happening = h }) c.events e

later : (clock delay : ℕ) → 1 ≤ delay → leb (clock + delay) clock ≡ false
later clock delay h = ground arith

due_count-happen :
    (h : Happening) (c : Carousel)
    → due_count (happen h c).clock (happen h c).events ≡ due_count c.clock c.events
unfolding happen work_for after at
due_count-happen taken c = refl
due_count-happen disc_arrives c =
    due_count-push c.clock _ c.events (later c.clock 1_500 (omega arith))
due_count-happen disc_drawn_off c = due_count-push c.clock _ c.events (ground arith)
due_count-happen ack_expired c = ground arith
due_count-happen back_in_slot c = ground (
  arith,
  due_count-push c.clock (record { when = c.clock + 1_800; seq = c.seq + 1; happening = settled })
      c.events (later c.clock 1_800 (omega arith)),
)
due_count-happen settled c = refl
due_count-happen (arrived target presenting) c = ground arith
due_count-happen (stored slot) c = refl

none_due : (clock : ℕ) (ds : List Due) → due_count clock ds ≤ 0 → AreWaiting clock ds
none_due clock [] h = tt
none_due clock (d ∷ ds) h = ground arith

-- A round leaves less that is due.
round_lem :
    (rounds : ℕ) (d : Due) (ds : List Due) (c : Carousel)
    → due_count c.clock (d ∷ ds) ≤ suc rounds
    → leb d.when c.clock ≡ true
    → due_count
        (happen d.happening (record c { events = ds })).clock
        (happen d.happening (record c { events = ds })).events
      ≤ rounds
round_lem rounds d ds c h due =
    let same = due_count-happen d.happening (record c { events = ds }) in ground (arith, same)

if-IsWaiting :
    (b : Bool) (x y : Carousel)
    → (b ≡ true → IsWaiting x)
    → (b ≡ false → IsWaiting y)
    → IsWaiting (if b then x else y)
if-IsWaiting true x y hx hy = hx refl
if-IsWaiting false x y hx hy = hy refl

step-IsWaiting :
    (rounds : ℕ) (c : Carousel) (ds : List Due)
    → due_count c.clock ds ≤ suc rounds
    → ((c' : Carousel) → due_count c'.clock c'.events ≤ rounds → IsWaiting (run_due_from rounds c'))
    → IsWaiting (run_due_from (suc rounds) (record c { events = ds }))
unfolding run_due_from
step-IsWaiting rounds c [] h rest = tt
step-IsWaiting rounds c (d ∷ ds) h rest =
    if-IsWaiting (leb d.when c.clock) _ _ (λ due. rest _ (round_lem rounds d ds c h due))
      (λ due. due)

run_due_from-IsWaiting :
    (rounds : ℕ) (c : Carousel)
    → due_count c.clock c.events ≤ rounds
    → IsWaiting (run_due_from rounds c)
unfolding run_due_from
run_due_from-IsWaiting zero c h = none_due c.clock c.events h
run_due_from-IsWaiting (suc rounds) c h =
    step-IsWaiting rounds c c.events h (run_due_from-IsWaiting rounds)

-- If the first timer is still to come, so are those after it.
none_due_after :
    (clock : ℕ) (d : Due) (ds : List Due)
    → leb d.when clock ≡ false
    → AreAfter d ds
    → due_count clock ds ≡ 0
none_due_after clock d [] h p = refl
none_due_after clock d (e ∷ es) h p = ground (arith, none_due_after clock d es h p.1, p.0)

none_left :
    (clock : ℕ) (ds : List Due) → AreWaiting clock ds → AreSorted ds → due_count clock ds ≡ 0
none_left clock [] h p = refl
none_left clock (d ∷ ds) h p = ground (arith, h, none_due_after clock d ds h p.0)

-- From a heap in its order: when the loop of `_run_due` stops, which it does after at most as many
-- rounds as there are timers, no timer is left whose time has come, although timers that ran have set
-- others; the clock is as it was; and this, a command, and a hand that feeds or takes a disc leave the
-- heap in its order.
pub run_due_leaves_nothing_due :
    (c : Carousel) (when : Option ℕ) (cmd : ℕ) (args : List ℕ)
    → IsSorted c
    → (due_count (run_due c).clock (run_due c).events ≡ 0)
      × ((run_due c).clock ≡ c.clock)
      × IsSorted (run_due c)
      × IsSorted (handle cmd args c).1
      × IsSorted (insert_disc when c)
      × IsSorted (take_disc when c)
unfolding run_due
run_due_leaves_nothing_due c when cmd args p =
    let still = run_due-IsSorted c p in
    let waiting = run_due_from-IsWaiting (length c.events) c (due_count-length c.clock c.events) in
    (
      none_left (run_due c).clock (run_due c).events waiting still,
      run_due-clock c,
      still,
      handle-IsSorted cmd args c p,
      inserted-IsSorted when c p,
      taken-IsSorted when c p,
    )
