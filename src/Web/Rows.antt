-- ===== src/Web/Rows.antt =====
-- The rows of the catalogue that a job works on, by the disc and the slot that it names, and what a
-- change of other rows leaves of them.
use disc_stakka_web.Base.{
  ℕ, ◌≤◌, Bool, true, false, ◌||◌, if◌then◌else◌, Option, none, some, List, [], ◌∷◌, ◌≡◌, refl,
  arith, ap, ◌∙◌,
}
use disc_stakka_web.Catalog.Db.{
  Disc, Status, find_disc, is_some, next_id, refers, update_row, delete_row,
}
use disc_stakka_web.Catalog.Valid.{
  IsTable, find_disc-next_id, find_disc-update_row, find_disc-delete_row,
}
use disc_stakka_web.Catalog.Edit.{untouched}
use disc_stakka_web.Catalog.Writes.{find_disc-cons}
use disc_stakka_web.Web.{is_same}

-- Where the catalogue says that a disc is.
pub record Place : Type 0 where
  pub id : ℕ
  pub slot : ℕ
  pub status : Status

abbrev pub place : Disc → Place
place d = record { id = d.id; slot = d.slot; status = d.status }

module _ (disc_id slot : Option ℕ) where
  abbrev pub is_used : ℕ → ℕ → Bool
  is_used k n = is_same (some k) disc_id || is_same (some n) slot

  abbrev pub used_rows : List Disc → List Place
  used_rows [] = []
  used_rows (d ∷ ds) =
      let rest = used_rows ds in if is_used d.id d.slot then place d ∷ rest else rest

  pub used_rows-same :
      (k : ℕ) (f : Disc → Disc)
      → ((d : Disc) → place (f d) ≡ place d)
      → (ds : List Disc) → used_rows (update_row k f ds) ≡ used_rows ds
  used_rows-same k f same [] = refl
  used_rows-same k f same (d ∷ ds) =
      ground
        (arith, used_rows-same k f same ds, ap Place.id (same d), ap Place.slot (same d), same d)

  pub used_rows-update_row :
      (k : ℕ) (f : Disc → Disc)
      → ((d : Disc) → (f d).id ≡ d.id)
      → ((d : Disc) → (f d).slot ≡ d.slot)
      → (found : Disc) (ds : List Disc) → find_disc k ds ≡ some found
      → is_used k found.slot ≡ false
      → IsTable ds
      → used_rows (update_row k f ds) ≡ used_rows ds
  used_rows-update_row k f same_id same_slot found [] e h t = refl
  used_rows-update_row k f same_id same_slot found (d ∷ ds) e h t = ground (
    arith,
    used_rows-update_row k f same_id same_slot found ds,
    untouched k f ds,
    same_id d,
    same_slot d,
  )

  pub used_rows-delete_row :
      (k : ℕ) (found : Disc) (ds : List Disc)
      → find_disc k ds ≡ some found
      → is_used k found.slot ≡ false
      → used_rows (delete_row k ds) ≡ used_rows ds
  used_rows-delete_row k found [] e h = refl
  used_rows-delete_row k found (d ∷ ds) e h = ground (arith, used_rows-delete_row k found ds)

module _ (k : ℕ) (slot : Option ℕ) where
  pub refers-update_row :
      (disc_id : Option ℕ) (f : Disc → Disc)
      → ((d : Disc) → (f d).id ≡ d.id)
      → ((d : Disc) → (f d).slot ≡ d.slot)
      → (ds : List Disc) → refers disc_id ds ≡ true
      → refers disc_id (update_row k f ds) ≡ true
  refers-update_row none f same_id same_slot ds h = refl
  refers-update_row (some id) f same_id same_slot ds h =
      find_disc-update_row k f same_id same_slot id ds ∙ h

  pub refers-delete_row :
      (disc_id : Option ℕ) (n : ℕ) (ds : List Disc)
      → is_used disc_id slot k n ≡ false
      → refers disc_id ds ≡ true
      → refers disc_id (delete_row k ds) ≡ true
  refers-delete_row none n ds e h = refl
  refers-delete_row (some id) n ds e h =
      ap is_some (find_disc-delete_row id k ds (ground arith)) ∙ h

-- A new row in a slot that is not used.
pub refers-cons :
    (disc_id : Option ℕ) (d : Disc) (ds : List Disc)
    → refers disc_id ds ≡ true
    → refers disc_id (d ∷ ds) ≡ true
refers-cons none d ds h = refl
refers-cons (some id) d ds h = find_disc-cons id d ds h

some_or_none : (r : Option Disc) → r ≡ none → is_some r ≡ true → ⊥
some_or_none r e h = ground (arith, e, h)

pub unused_next_id :
    (disc_id slot : Option ℕ) (n : ℕ) (ds : List Disc)
    → is_used none slot (next_id ds) n ≡ false
    → refers disc_id ds ≡ true
    → is_used disc_id slot (next_id ds) n ≡ false
unused_next_id none slot n ds e h = e
unused_next_id (some id) slot n ds e h =
    ground
      (arith, some_or_none (find_disc id ds), λ (le : next_id ds ≤ id). find_disc-next_id id ds le)
