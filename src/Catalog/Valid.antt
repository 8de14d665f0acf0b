-- ===== src/Catalog/Valid.antt =====
-- What the constraints of the schema make of the tables, and that every write keeps it.
use disc_stakka_web.Base.{
  ℕ, ◌≤◌, true, false, ◌==◌, Option, none, some, List, [], ◌∷◌, ◌≡◌, refl, arith,
}
use disc_stakka_web.Catalog.Db.{
  Disc, Event, Db, Conn, find_disc, find_slot, is_some, next_id, slot_in_range, refers, update_row,
  delete_row, forget, unlink,
}

-- Slots are in range, and no slot and no key stands twice.
abbrev pub IsTable : List Disc → Type 0
IsTable [] = Unit
IsTable (d ∷ ds) =
    (slot_in_range d.slot ≡ true)
    × (find_slot d.slot ds ≡ none)
    × (find_disc d.id ds ≡ none)
    × IsTable ds

-- Every event that names a disc names one of the table.
abbrev pub AreLinked : List Disc → List Event → Type 0
AreLinked ds [] = Unit
AreLinked ds (e ∷ es) = (refers e.disc_id ds ≡ true) × AreLinked ds es

abbrev pub IsValid : Db → Type 0
IsValid db = IsTable db.discs × AreLinked db.discs db.events

-- A connection on which both what is committed and what its transaction sees are valid.
abbrev pub IsSound : Conn → Type 0
IsSound c = IsValid c.live × IsValid c.saved

pub find_disc-next_id : (k : ℕ) (ds : List Disc) → next_id ds ≤ k → find_disc k ds ≡ none
find_disc-next_id k [] h = refl
find_disc-next_id k (d ∷ ds) h = ground (arith, find_disc-next_id k ds)

pub AreLinked-mono :
    (ds ds' : List Disc) (es : List Event)
    → ((id : ℕ) → is_some (find_disc id ds) ≡ true → is_some (find_disc id ds') ≡ true)
    → AreLinked ds es
    → AreLinked ds' es
AreLinked-mono ds ds' [] f h = tt
AreLinked-mono ds ds' (e ∷ es) f h = (refers-mono e.disc_id h.0, AreLinked-mono ds ds' es f h.1)
  where
    refers-mono : (id : Option ℕ) → refers id ds ≡ true → refers id ds' ≡ true
    refers-mono none r = r
    refers-mono (some id) r = f id r

-- A change of rows that leaves keys and slots alone.
module _ (k : ℕ) (f : Disc → Disc) (same_id : (d : Disc) → (f d).id ≡ d.id)
    (same_slot : (d : Disc) → (f d).slot ≡ d.slot) where
  pub find_slot-update_row :
      (s : ℕ) (ds : List Disc)
      → is_some (find_slot s (update_row k f ds)) ≡ is_some (find_slot s ds)
  find_slot-update_row s [] = refl
  find_slot-update_row s (d ∷ ds) = ground (arith, find_slot-update_row s ds, same_slot d)

  pub find_disc-update_row :
      (s : ℕ) (ds : List Disc)
      → is_some (find_disc s (update_row k f ds)) ≡ is_some (find_disc s ds)
  find_disc-update_row s [] = refl
  find_disc-update_row s (d ∷ ds) = ground (arith, find_disc-update_row s ds, same_id d)

  pub update_row-IsTable : (ds : List Disc) → IsTable ds → IsTable (update_row k f ds)
  update_row-IsTable [] h = tt
  update_row-IsTable (d ∷ ds) h = ground (
    arith,
    update_row-IsTable ds h.3,
    find_slot-update_row d.slot ds,
    find_disc-update_row d.id ds,
    same_slot d,
    same_id d,
  )

pub find_disc-delete_row :
    (j k : ℕ) (ds : List Disc) → (j == k) ≡ false → find_disc j (delete_row k ds) ≡ find_disc j ds
find_disc-delete_row j k [] h = refl
find_disc-delete_row j k (d ∷ ds) h = ground (arith, find_disc-delete_row j k ds h)

find_disc-delete_row-none :
    (j k : ℕ) (ds : List Disc) → find_disc j ds ≡ none → find_disc j (delete_row k ds) ≡ none
find_disc-delete_row-none j k [] h = refl
find_disc-delete_row-none j k (d ∷ ds) h = ground (arith, find_disc-delete_row-none j k ds)

find_slot-delete_row-none :
    (j k : ℕ) (ds : List Disc) → find_slot j ds ≡ none → find_slot j (delete_row k ds) ≡ none
find_slot-delete_row-none j k [] h = refl
find_slot-delete_row-none j k (d ∷ ds) h = ground (arith, find_slot-delete_row-none j k ds)

pub delete_row-IsTable : (k : ℕ) (ds : List Disc) → IsTable ds → IsTable (delete_row k ds)
delete_row-IsTable k [] h = tt
delete_row-IsTable k (d ∷ ds) h = ground (
  arith,
  delete_row-IsTable k ds h.3,
  find_slot-delete_row-none d.slot k ds h.1,
  find_disc-delete_row-none d.id k ds h.2,
)

pub unlink-AreLinked :
    (k : ℕ) (ds : List Disc) (es : List Event)
    → AreLinked ds es
    → AreLinked (delete_row k ds) (unlink k es)
unlink-AreLinked k ds [] h = tt
unlink-AreLinked k ds (e ∷ es) h = (forgotten e.disc_id h.0, unlink-AreLinked k ds es h.1)
  where
    forgotten :
        (id : Option ℕ) → refers id ds ≡ true → refers (forget k id) (delete_row k ds) ≡ true
    forgotten none r = refl
    forgotten (some id) r = ground (arith, find_disc-delete_row id k ds)
