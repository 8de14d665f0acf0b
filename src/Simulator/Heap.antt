-- ===== src/Simulator/Heap.antt =====
-- The heap of timers of discstakka/simulator.py (lines 178 to 188) stays in its order.
use disc_stakka_web.Base.{
  ℕ, zero, suc, ◌+◌, ◌==◌, ◌&&◌, not, Bool, true, false, leb, if◌then◌else◌, Option, List, [], ◌∷◌,
  length, ◌≡◌, refl, arith,
}
use disc_stakka_web.Simulator.Carousel.{
  Carousel, Due, Happening, earlier, push, at, after, work_for, happen, run_due, run_due_from,
  taken, disc_arrives, disc_drawn_off, ack_expired, back_in_slot, settled, arrived, stored,
  insert_disc, take_disc, busy,
}
use disc_stakka_web.Simulator.Commands.{
  set_pos, retract, accept_disc, perform, always_answered, handle, handle_due, handle_heard,
}

-- None of the timers comes before the given one.
abbrev pub AreAfter : Due → List Due → Type 0
AreAfter d [] = Unit
AreAfter d (e ∷ es) = (earlier e d ≡ false) × AreAfter d es

-- The heap gives the timers out by their time, and those of one time in the order they were set.
abbrev pub AreSorted : List Due → Type 0
AreSorted [] = Unit
AreSorted (d ∷ ds) = AreAfter d ds × AreSorted ds

abbrev pub IsSorted : Carousel → Type 0
IsSorted c = AreSorted c.events

AreAfter-push :
    (d e : Due) (ds : List Due) → earlier e d ≡ false → AreAfter d ds → AreAfter d (push e ds)
unfolding push
AreAfter-push d e [] h p = (h, tt)
AreAfter-push d e (x ∷ xs) h p = ground (arith, AreAfter-push d e xs h p.1, p.0, p.1)

AreAfter-earlier : (d e : Due) (ds : List Due) → earlier e d ≡ true → AreAfter d ds → AreAfter e ds
AreAfter-earlier d e [] h p = tt
AreAfter-earlier d e (x ∷ xs) h p = (ground (arith, p.0), AreAfter-earlier d e xs h p.1)

push-AreSorted : (e : Due) (ds : List Due) → AreSorted ds → AreSorted (push e ds)
unfolding push
push-AreSorted e [] p = (tt, tt)
push-AreSorted e (d ∷ ds) p = by_test (earlier e d) refl (push-AreSorted e ds p.1)
  where
    by_test :
        (b : Bool)
        → earlier e d ≡ b
        → AreSorted (push e ds)
        → AreSorted (if b then e ∷ d ∷ ds else d ∷ push e ds)
    by_test true h rest = ((ground arith, AreAfter-earlier d e ds h p.0), p)
    by_test false h rest = (AreAfter-push d e ds h p.0, rest)

if-IsSorted : (b : Bool) (x y : Carousel) → IsSorted x → IsSorted y → IsSorted (if b then x else y)
if-IsSorted true x y p q = p
if-IsSorted false x y p q = q

happen-IsSorted : (h : Happening) (c : Carousel) → IsSorted c → IsSorted (happen h c)
unfolding happen work_for after at
happen-IsSorted taken c p = p
happen-IsSorted disc_arrives c p = push-AreSorted _ c.events p
happen-IsSorted disc_drawn_off c p = push-AreSorted _ c.events p
happen-IsSorted ack_expired c p = if-IsSorted c.new_disc_ack _ _ p p
happen-IsSorted back_in_slot c p = if-IsSorted c.disc_in_bay _ _ (push-AreSorted _ c.events p) p
happen-IsSorted settled c p = p
happen-IsSorted (arrived target presenting) c p = if-IsSorted presenting _ _ p p
happen-IsSorted (stored slot) c p = p

step-IsSorted :
    (rounds : ℕ) (c : Carousel) (ds : List Due)
    → AreSorted ds
    → ((c' : Carousel) → IsSorted c' → IsSorted (run_due_from rounds c'))
    → IsSorted (run_due_from (suc rounds) (record c { events = ds }))
unfolding run_due_from
step-IsSorted rounds c [] p rest = tt
step-IsSorted rounds c (d ∷ ds) p rest =
    if-IsSorted (leb d.when c.clock) _ _
      (rest _ (happen-IsSorted d.happening (record c { events = ds }) p.1)) p

run_due_from-IsSorted : (rounds : ℕ) (c : Carousel) → IsSorted c → IsSorted (run_due_from rounds c)
unfolding run_due_from
run_due_from-IsSorted zero c p = p
run_due_from-IsSorted (suc rounds) c p =
    step-IsSorted rounds c c.events p (run_due_from-IsSorted rounds)

pub run_due-IsSorted : (c : Carousel) → IsSorted c → IsSorted (run_due c)
unfolding run_due
run_due-IsSorted c p = run_due_from-IsSorted (length c.events) c p

pub inserted-IsSorted :
    (when : Option ℕ) (c : Carousel) → IsSorted c → IsSorted (insert_disc when c)
unfolding insert_disc at
inserted-IsSorted when c p = push-AreSorted _ c.events p

pub taken-IsSorted : (when : Option ℕ) (c : Carousel) → IsSorted c → IsSorted (take_disc when c)
unfolding take_disc at
taken-IsSorted when c p = push-AreSorted _ c.events p

if_pair :
    {A : Type 0} (b : Bool) (x y : A × Carousel)
    → IsSorted x.1
    → IsSorted y.1
    → IsSorted (if b then x else y).1
if_pair true x y p q = p
if_pair false x y p q = q

perform-IsSorted :
    (cmd : ℕ) (args : List ℕ) (c : Carousel) → IsSorted c → IsSorted (perform cmd args c).1
unfolding perform set_pos retract accept_disc after at work_for
perform-IsSorted cmd args c p =
    let set = λ (e : Due). push-AreSorted e c.events p in
    if_pair (cmd == 0x03) _ _ p (
      if_pair (cmd == 0x04) _ _ (set _) (
        if_pair (cmd == 0x05) _ _ (set _) (
          if_pair (cmd == 0x14) _ _ p (
            if_pair (cmd == 0x1A) _ _ p (
              if_pair (cmd == 0x1B) _ _ p (
                if_pair (cmd == 0x1C) _ _ p
                  (if_pair (cmd == 0x1D) _ _ (if_pair c.new_disc_ack _ _ (set _) p) p)))))))

handle_heard-IsSorted :
    (cmd : ℕ) (args : List ℕ) (c : Carousel) → IsSorted c → IsSorted (handle_heard cmd args c).1
unfolding handle_heard
handle_heard-IsSorted cmd args c p =
    if_pair _ _ _ p (perform-IsSorted cmd args (record c { log = (cmd, args) ∷ c.log }) p)

handle_due-IsSorted :
    (cmd : ℕ) (args : List ℕ) (c : Carousel) → IsSorted c → IsSorted (handle_due cmd args c).1
unfolding handle_due work_for
handle_due-IsSorted cmd args c p = if_pair (busy c && not (always_answered cmd)) _ _ p (
    if_pair (c.blips && not (always_answered cmd)) _ _
      (if_pair (c.chance c.drawn) _ _ p
        (handle_heard-IsSorted cmd args (record c { drawn = c.drawn + 1 }) p))
      (handle_heard-IsSorted cmd args c p))

pub handle-IsSorted :
    (cmd : ℕ) (args : List ℕ) (c : Carousel) → IsSorted c → IsSorted (handle cmd args c).1
unfolding handle
handle-IsSorted cmd args c p = handle_due-IsSorted cmd args (run_due c) (run_due-IsSorted c p)
