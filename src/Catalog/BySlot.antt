-- ===== src/Catalog/BySlot.antt =====
-- `ORDER BY slot` of discstakka/catalog/db.py (line 125): the rows, sorted by insertion.
use mathlib.Core.List.{Perm}
use mathlib.Core.List.Perm
use disc_stakka_web.Base.{
  ℕ, ◌≤◌, Bool, true, false, leb, if◌then◌else◌, List, [], ◌∷◌, ◌≡◌, refl, arith,
}
use disc_stakka_web.Catalog.Db.{Disc}

abbrev pub insert_by_slot : Disc → List Disc → List Disc
insert_by_slot d [] = d ∷ []
insert_by_slot d (e ∷ es) =
    let rest = insert_by_slot d es in if leb d.slot e.slot then d ∷ e ∷ es else e ∷ rest

abbrev pub sort_by_slot : List Disc → List Disc
sort_by_slot [] = []
sort_by_slot (d ∷ ds) = insert_by_slot d (sort_by_slot ds)

-- No disc is in a lower slot.
abbrev pub AreAbove : ℕ → List Disc → Type 0
AreAbove slot [] = Unit
AreAbove slot (d ∷ ds) = (slot ≤ d.slot) × AreAbove slot ds

abbrev pub IsBySlot : List Disc → Type 0
IsBySlot [] = Unit
IsBySlot (d ∷ ds) = AreAbove d.slot ds × IsBySlot ds

insert_by_slot-perm : (d : Disc) (ds : List Disc) → Perm (insert_by_slot d ds) (d ∷ ds)
insert_by_slot-perm d [] = Perm.rfl
insert_by_slot-perm d (e ∷ es) = by_test (leb d.slot e.slot) (insert_by_slot-perm d es)
  where
    by_test :
        (b : Bool)
        → Perm (insert_by_slot d es) (d ∷ es)
        → Perm (if b then d ∷ e ∷ es else e ∷ insert_by_slot d es) (d ∷ e ∷ es)
    by_test true rest = Perm.rfl
    by_test false rest = Perm.trans (Perm.cons e rest) (Perm.swap d e es)

pub sort_by_slot-perm : (ds : List Disc) → Perm (sort_by_slot ds) ds
sort_by_slot-perm [] = Perm.rfl
sort_by_slot-perm (d ∷ ds) =
    Perm.trans (insert_by_slot-perm d (sort_by_slot ds)) (Perm.cons d (sort_by_slot-perm ds))

AreAbove-trans : (a b : ℕ) (ds : List Disc) → a ≤ b → AreAbove b ds → AreAbove a ds
AreAbove-trans a b [] h p = tt
AreAbove-trans a b (d ∷ ds) h p = (omega (arith, p.0), AreAbove-trans a b ds h p.1)

insert_by_slot-AreAbove :
    (slot : ℕ) (d : Disc) (ds : List Disc)
    → slot ≤ d.slot
    → AreAbove slot ds
    → AreAbove slot (insert_by_slot d ds)
insert_by_slot-AreAbove slot d [] h p = (h, tt)
insert_by_slot-AreAbove slot d (e ∷ es) h p =
    ground (arith, insert_by_slot-AreAbove slot d es h p.1, p.0, p.1)

insert_by_slot-IsBySlot : (d : Disc) (ds : List Disc) → IsBySlot ds → IsBySlot (insert_by_slot d ds)
insert_by_slot-IsBySlot d [] p = (tt, tt)
insert_by_slot-IsBySlot d (e ∷ es) p =
    by_test (leb d.slot e.slot) refl (insert_by_slot-IsBySlot d es p.1)
  where
    by_test :
        (b : Bool)
        → leb d.slot e.slot ≡ b
        → IsBySlot (insert_by_slot d es)
        → IsBySlot (if b then d ∷ e ∷ es else e ∷ insert_by_slot d es)
    by_test true h rest =
        let below : d.slot ≤ e.slot = ground arith in
        ((below, AreAbove-trans d.slot e.slot es below p.0), p)
    by_test false h rest = (insert_by_slot-AreAbove e.slot d es (ground arith) p.0, rest)

pub sort_by_slot-IsBySlot : (ds : List Disc) → IsBySlot (sort_by_slot ds)
sort_by_slot-IsBySlot [] = tt
sort_by_slot-IsBySlot (d ∷ ds) =
    insert_by_slot-IsBySlot d (sort_by_slot ds) (sort_by_slot-IsBySlot ds)
