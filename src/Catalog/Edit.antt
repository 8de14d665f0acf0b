-- ===== src/Catalog/Edit.antt =====
-- `update_disc` of discstakka/catalog/db.py.
use disc_stakka_web.Base.{
  ℕ, Bool, true, false, not, ◌&&◌, ◌||◌, ◌==◌, if◌then◌else◌, Option, none, some, List, [], ◌∷◌,
  ◌≡◌, refl, arith, subst, sym, ◌∙◌,
}
use disc_stakka_web.Effect.{Text, raised, sqlite_error, Done, skip}
use disc_stakka_web.Effect.Triple.{After, Keeps, if_lem, skip_lem, final_lem}
use disc_stakka_web.Catalog.Db.{
  Disc, Conn, Query, find_disc, find_slot, is_some, slot_in_range, update_row, update_rows,
  transaction,
}
use disc_stakka_web.Catalog.Valid.{IsTable, IsSound, AreLinked-mono, update_row-IsTable}
use disc_stakka_web.Catalog.Writes.{transaction-IsSound}

-- The columns that the keywords name; `some` for one that is given.
pub record Changes : Type 0 where
  pub title : Option Text
  pub subtitle : Option (Option Text)
  pub category : Option (Option Text)
  pub platform : Option (Option Text)
  pub notes : Option (Option Text)
  pub art_path : Option (Option Text)
  pub slot : Option ℕ

abbrev pub given : {A : Type 0} → Option A → A → A
given none old = old
given (some new) old = new

abbrev pub changed : Changes → ℕ → Disc → Disc
changed x now d = record d {
  title = given x.title d.title;
  subtitle = given x.subtitle d.subtitle;
  category = given x.category d.category;
  platform = given x.platform d.platform;
  notes = given x.notes d.notes;
  art_path = given x.art_path d.art_path;
  slot = given x.slot d.slot;
  updated_at = now;
}

-- `if not sets`
abbrev pub names_nothing : Changes → Bool
names_nothing x =
    not (is_some x.title)
    && not (is_some x.subtitle)
    && not (is_some x.category)
    && not (is_some x.platform)
    && not (is_some x.notes)
    && not (is_some x.art_path)
    && not (is_some x.slot)

-- A row other than that of `k` has the slot.
abbrev pub is_elsewhere : ℕ → ℕ → List Disc → Bool
is_elsewhere k s [] = false
is_elsewhere k s (d ∷ ds) =
    let rest = is_elsewhere k s ds in if d.slot == s && not (d.id == k) then true else rest

-- The constraints on the slot, which are tested only if there is a row to change.
abbrev pub admits : ℕ → Option ℕ → List Disc → Bool
admits k none ds = true
admits k (some s) ds =
    not (is_some (find_disc k ds)) || (slot_in_range s && not (is_elsewhere k s ds))

unfoldable pub edit_row : ℕ → Changes → Query Done
edit_row k x c =
    (if admits k x.slot c.live.discs
        then update_rows k (changed x)
        else (λ c. (raised sqlite_error, c)))
      c

unfoldable pub update_disc : ℕ → Changes → Query Done
update_disc k x = if names_nothing x then skip else transaction (edit_row k x)

pub untouched :
    (k : ℕ) (f : Disc → Disc) (ds : List Disc) → find_disc k ds ≡ none → update_row k f ds ≡ ds
untouched k f [] h = refl
untouched k f (d ∷ ds) h = ground (arith, untouched k f ds)

find_slot-none :
    (k s : ℕ) (ds : List Disc)
    → is_elsewhere k s ds ≡ false
    → find_disc k ds ≡ none
    → find_slot s ds ≡ none
find_slot-none k s [] e h = refl
find_slot-none k s (d ∷ ds) e h = ground (arith, find_slot-none k s ds)

find_disc-edited :
    (k : ℕ) (f : Disc → Disc)
    → ((d : Disc) → (f d).id ≡ d.id)
    → (j : ℕ) (ds : List Disc)
    → is_some (find_disc j (update_row k f ds)) ≡ is_some (find_disc j ds)
find_disc-edited k f same_id j [] = refl
find_disc-edited k f same_id j (d ∷ ds) =
    ground (arith, find_disc-edited k f same_id j ds, same_id d)

-- A row that moves to a slot that no other row has.
module _ (k s : ℕ) (f : Disc → Disc) (same_id : (d : Disc) → (f d).id ≡ d.id)
    (moved : (d : Disc) → (f d).slot ≡ s) where
  find_slot-moved :
      (j : ℕ) (ds : List Disc)
      → (j == s) ≡ false
      → find_slot j ds ≡ none
      → find_slot j (update_row k f ds) ≡ none
  find_slot-moved j [] e h = refl
  find_slot-moved j (d ∷ ds) e h = ground (arith, find_slot-moved j ds e, moved d)

  moved-IsTable :
      (ds : List Disc)
      → slot_in_range s ≡ true
      → is_elsewhere k s ds ≡ false
      → IsTable ds
      → IsTable (update_row k f ds)
  moved-IsTable [] r e h = tt
  moved-IsTable (d ∷ ds) r e h = ground (
    arith,
    moved-IsTable ds r,
    untouched k f ds,
    find_slot-none k s ds,
    find_slot-moved d.slot ds,
    find_disc-edited k f same_id d.id ds,
    same_id d,
    moved d,
  )

-- The change is by a slot that is given or not.
module _ (k : ℕ) (f : Disc → Disc) (same_id : (d : Disc) → (f d).id ≡ d.id) where
  moved_if_found :
      (s : ℕ) (r : Option Disc) (ds : List Disc)
      → ((d : Disc) → (f d).slot ≡ s)
      → find_disc k ds ≡ r
      → admits k (some s) ds ≡ true
      → IsTable ds
      → IsTable (update_row k f ds)
  moved_if_found s none ds moved e a h = subst IsTable (sym (untouched k f ds e)) h
  moved_if_found s (some d) ds moved e a h =
      moved-IsTable k s f same_id moved ds (ground arith) (ground arith) h

  edited-IsTable :
      (slot : Option ℕ) (ds : List Disc)
      → ((d : Disc) → (f d).slot ≡ given slot d.slot)
      → admits k slot ds ≡ true
      → IsTable ds
      → IsTable (update_row k f ds)
  edited-IsTable none ds by a h = update_row-IsTable k f same_id by ds h
  edited-IsTable (some s) ds by a h = moved_if_found s (find_disc k ds) ds by refl a h

rows-IsSound :
    (k : ℕ) (x : Changes) (c : Conn)
    → admits k x.slot c.live.discs ≡ true
    → IsSound c
    → IsSound (update_rows k (changed x) c).1
unfolding update_rows
rows-IsSound k x c a p =
    let f = changed x c.now in
    (
      (
        edited-IsTable k f (λ d. refl) x.slot c.live.discs (λ d. refl) a p.0.0,
        AreLinked-mono c.live.discs (update_row k f c.live.discs) c.live.events
            (λ id h. find_disc-edited k f (λ d. refl) id c.live.discs ∙ h) p.0.1,
      ),
      p.1,
    )

After-edit :
    (b : Bool) (k : ℕ) (x : Changes) (c : Conn)
    → admits k x.slot c.live.discs ≡ b
    → IsSound c
    → After IsSound
        (λ _. IsSound)
        (λ _. IsSound)
        ((if b then update_rows k (changed x) else (λ c. (raised sqlite_error, c))) c).0
        ((if b then update_rows k (changed x) else (λ c. (raised sqlite_error, c))) c).1
unfolding update_rows
After-edit true k x c a p = rows-IsSound k x c a p
After-edit false k x c a p = p

edit_row-IsSound : (k : ℕ) (x : Changes) → Keeps IsSound (edit_row k x)
unfolding edit_row
edit_row-IsSound k x = record {
  holds = λ c p. After-edit (admits k x.slot c.live.discs) k x c refl p;
}

pub update_disc-IsSound : (k : ℕ) (x : Changes) → Keeps IsSound (update_disc k x)
unfolding update_disc
update_disc-IsSound k x =
    if_lem (names_nothing x) (λ _. skip_lem (λ c p. p))
      (λ _. transaction-IsSound (edit_row-IsSound k x))

-- On a connection whose tables have slots in range, no slot and no key twice, and no event that
-- names a disc the table has not, in what is committed and in what the connection sees:
-- `update_disc` keeps this, however it ends and whichever columns it changes, the slot included.
pub update_disc_keeps_valid :
    (c : Conn) (id : ℕ) (x : Changes) → IsSound c → IsSound (update_disc id x c).1
update_disc_keeps_valid c id x h = final_lem (update_disc-IsSound id x) c h
