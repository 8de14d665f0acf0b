-- ===== src/Catalog/Slots.antt =====
-- The free slots of the catalogue (discstakka/catalog/db.py, lines 139 to 154).
use disc_stakka_web.Base.{
  ℕ, zero, suc, ◌+◌, ◌-◌, ◌≤◌, ◌<◌, Bool, true, false, if◌then◌else◌, Option, none, some, List, [],
  ◌∷◌, ◌≡◌, ◌⊎◌, inl, inr, ap, subst, refl, arith,
}
use disc_stakka_web.Effect.{Outcome, ok, raised, running, ◌>>=◌, gets, pure}
use disc_stakka_web.Effect.Triple.{After}
use disc_stakka_web.Slots.{slot_min, slot_max}
use disc_stakka_web.Catalog.Db.{
  Disc, Conn, Query, EventKind, Details, find_slot, is_some, next_id, create_disc, insert_disc,
  new_disc, log_event,
}

-- `slot in taken`
abbrev pub is_taken : ℕ → List Disc → Bool
is_taken slot ds = is_some (find_slot slot ds)

-- The loop of `next_free_slot` over the `count` slots from `slot` on.
abbrev pub first_free : ℕ → ℕ → List Disc → Option ℕ
first_free zero slot ds = none
first_free (suc count) slot ds =
    let later = first_free count (slot + 1) ds in if is_taken slot ds then later else some slot

unfoldable pub next_free_slot : Query (Option ℕ)
next_free_slot = gets (λ c. first_free (slot_max + 1 - slot_min) slot_min c.live.discs)

-- The comprehension of `free_slots`.
abbrev pub all_free : ℕ → ℕ → List Disc → List ℕ
all_free zero slot ds = []
all_free (suc count) slot ds =
    let later = all_free count (slot + 1) ds in if is_taken slot ds then later else slot ∷ later

unfoldable pub free_slots : Query (List ℕ)
free_slots = gets (λ c. all_free (slot_max + 1 - slot_min) slot_min c.live.discs)

abbrev pub first_of : List ℕ → Option ℕ
first_of [] = none
first_of (slot ∷ rest) = some slot

-- Every slot from `low` up to but not including `high` has a disc.
abbrev pub AllTaken : ℕ → ℕ → List Disc → Type 0
AllTaken low high ds = (slot : ℕ) → low ≤ slot → slot < high → is_taken slot ds ≡ true

-- What `next_free_slot` promises: the lowest slot without a disc, or that there is none.
abbrev pub IsLowestFree : Option ℕ → List Disc → Type 0
IsLowestFree none ds = AllTaken slot_min (slot_max + 1) ds
IsLowestFree (some k) ds =
    (slot_min ≤ k) × (k ≤ slot_max) × (is_taken k ds ≡ false) × AllTaken slot_min k ds

abbrev LowestFrom : ℕ → ℕ → Option ℕ → List Disc → Type 0
LowestFrom low count none ds = AllTaken low (low + count) ds
LowestFrom low count (some k) ds =
    (low ≤ k) × (k < low + count) × (is_taken k ds ≡ false) × AllTaken low k ds

first_or_later : (low slot : ℕ) → low ≤ slot → (low ≡ slot) ⊎ (low + 1 ≤ slot)
first_or_later low slot h = omega arith

AllTaken-step :
    (low high : ℕ) (ds : List Disc)
    → is_taken low ds ≡ true
    → AllTaken (low + 1) high ds
    → AllTaken low high ds
AllTaken-step low high ds e rest slot h h' = elim (first_or_later low slot h) [
  | inl same ↦ subst (λ k. is_taken k ds ≡ true) same e
  | inr later ↦ rest slot later h'
]

LowestFrom-step :
    (low count : ℕ) (found : Option ℕ) (ds : List Disc)
    → is_taken low ds ≡ true
    → LowestFrom (low + 1) count found ds
    → LowestFrom low (suc count) found ds
LowestFrom-step low count none ds e rest =
    AllTaken-step low (low + suc count) ds e (λ slot h h'. rest slot h (omega arith))
LowestFrom-step low count (some k) ds e rest =
    (omega arith, omega arith, rest.2, AllTaken-step low k ds e rest.3)

LowestFrom-here :
    (low count : ℕ) (ds : List Disc)
    → is_taken low ds ≡ false
    → LowestFrom low (suc count) (some low) ds
LowestFrom-here low count ds e = (omega arith, omega arith, e, λ slot h h'. absurd (omega arith))

pick-LowestFrom :
    (b : Bool) (low count : ℕ) (later : Option ℕ) (ds : List Disc)
    → is_taken low ds ≡ b
    → LowestFrom (low + 1) count later ds
    → LowestFrom low (suc count) (if b then later else some low) ds
pick-LowestFrom true low count later ds e rest = LowestFrom-step low count later ds e rest
pick-LowestFrom false low count later ds e rest = LowestFrom-here low count ds e

first_free-LowestFrom :
    (count low : ℕ) (ds : List Disc) → LowestFrom low count (first_free count low ds) ds
first_free-LowestFrom zero low ds = λ slot h h'. absurd (omega arith)
first_free-LowestFrom (suc count) low ds =
    pick-LowestFrom (is_taken low ds) low count (first_free count (low + 1) ds) ds refl
      (first_free-LowestFrom count (low + 1) ds)

LowestFrom-IsLowestFree :
    (found : Option ℕ) (ds : List Disc)
    → LowestFrom slot_min (slot_max + 1 - slot_min) found ds
    → IsLowestFree found ds
LowestFrom-IsLowestFree none ds h = h
LowestFrom-IsLowestFree (some k) ds h = (h.0, omega (arith, h.1), h.2, h.3)

first_of-all_free :
    (count low : ℕ) (ds : List Disc) → first_of (all_free count low ds) ≡ first_free count low ds
first_of-all_free zero low ds = refl
first_of-all_free (suc count) low ds = ground (arith, first_of-all_free count (low + 1) ds)

-- `next_free_slot` returns the lowest slot from 1 to 100 that no disc has, or nothing if all are
-- taken, and leaves the connection alone; it is the first of what `free_slots` returns.
pub next_free_slot_is_the_lowest :
    (c : Conn)
    → After
        (λ _. ⊥)
        (λ found c'. IsLowestFree found c.live.discs × (c' ≡ c))
        (λ _ _. ⊥)
        (next_free_slot c).0
        (next_free_slot c).1
      × ((free_slots >>= λ slots. pure (first_of slots)) c ≡ next_free_slot c)
unfolding next_free_slot free_slots
next_free_slot_is_the_lowest c =
    let ds = c.live.discs in
    (
      (LowestFrom-IsLowestFree (first_free 100 1 ds) ds (first_free-LowestFrom 100 1 ds), refl),
      ap (λ found. (ok found, c)) (first_of-all_free 100 1 ds),
    )

abbrev ok_value : {A : Type 0} → A → Outcome A → A
ok_value a (ok b) = b
ok_value a (raised e) = a
ok_value a running = a

create_in_free :
    (c : Conn) (k : ℕ) (x : Details) (kind : EventKind)
    → slot_min ≤ k
    → k ≤ slot_max
    → is_taken k c.live.discs ≡ false
    → (create_disc k x kind c).0 ≡ ok (next_id c.live.discs)
unfolding create_disc insert_disc log_event new_disc
create_in_free c k x kind low high free = ground arith

-- A disc can be created in the slot that `next_free_slot` has given: no constraint of the table or of
-- the log of events refuses it, and it gets the next number.
pub free_slot_takes_a_disc :
    (c : Conn) (k : ℕ) (x : Details) (kind : EventKind)
    → (next_free_slot c).0 ≡ ok (some k)
    → (create_disc k x kind c).0 ≡ ok (next_id c.live.discs)
unfolding next_free_slot
free_slot_takes_a_disc c k x kind e =
    let ds = c.live.discs in
    let lowest =
      subst (λ found. LowestFrom 1 100 found ds) (ap (ok_value none) e)
        (first_free-LowestFrom 100 1 ds) in
    create_in_free c k x kind lowest.0 (omega (arith, lowest.1)) lowest.2
