-- ===== src/Examples/Catalogue.antt =====
-- The catalogue and the registry of jobs, at concrete inputs.
use disc_stakka_web.Catalog.Edit.{Changes, update_disc, update_disc_keeps_valid}
use disc_stakka_web.Base.{ℕ, none, some, [], ◌∷◌, ◌≡◌, ◌≤◌, length, refl, arith}
use disc_stakka_web.Effect.{format, nil, ok, ◌>>=◌, pure}
use disc_stakka_web.Effect.Triple.{After}
use disc_stakka_web.Jobs.{JobId}
use disc_stakka_web.Jobs.Registry.{JobRegistry, add, get, add_keeps_the_newest}
use disc_stakka_web.Catalog.Db.{
  EventKind, titled, next_id, create_disc, mark_out, mark_stored, delete_disc, log_event,
}
use disc_stakka_web.Catalog.Valid.{IsSound}
use disc_stakka_web.Catalog.Writes.{writes_keep_valid}
use disc_stakka_web.Catalog.Slots.{
  IsLowestFree, first_of, next_free_slot, free_slots, next_free_slot_is_the_lowest,
  free_slot_takes_a_disc,
}
use disc_stakka_web.Examples.Inputs.{conn}

pub conn-IsSound : IsSound conn
conn-IsSound = (((refl, refl, refl, tt), tt), ((refl, refl, refl, tt), tt))

writes_keep_valid_example :
    IsSound (create_disc 20 (titled (format "Kind of Blue" nil)) EventKind.added conn).1
    × IsSound (mark_out 7 EventKind.added none conn).1
    × IsSound (mark_stored 7 EventKind.added none conn).1
    × IsSound (delete_disc 7 conn).1
    × IsSound (log_event EventKind.added (some 7) (some 18) none conn).1
writes_keep_valid_example =
    writes_keep_valid conn 7 20 (titled (format "Kind of Blue" nil)) EventKind.added (some 7)
      (some 18) none conn-IsSound

next_free_slot_is_the_lowest_example :
    After
      (λ _. ⊥)
      (λ found c'. IsLowestFree found conn.live.discs × (c' ≡ conn))
      (λ _ _. ⊥)
      (next_free_slot conn).0
      (next_free_slot conn).1
    × ((free_slots >>= λ slots. pure (first_of slots)) conn ≡ next_free_slot conn)
next_free_slot_is_the_lowest_example = next_free_slot_is_the_lowest conn

lowest : (next_free_slot conn).0 ≡ ok (some 1)
unfolding next_free_slot
lowest = refl

free_slot_takes_a_disc_example :
    (create_disc 1 (titled (format "Kind of Blue" nil)) EventKind.added conn).0
    ≡ ok (next_id conn.live.discs)
free_slot_takes_a_disc_example =
    free_slot_takes_a_disc conn 1 (titled (format "Kind of Blue" nil)) EventKind.added lowest

abbrev first : JobId
first = record { second = 1; number = 1 }

abbrev second : JobId
second = record { second = 1; number = 2 }

abbrev registry : JobRegistry ℕ
registry = record { jobs = (first, 10) ∷ []; order = first ∷ []; keep = 1 }

add_keeps_the_newest_example :
    (length (add second 20 registry).order ≤ 1) × (get second (add second 20 registry) ≡ some 20)
add_keeps_the_newest_example = add_keeps_the_newest second 20 registry (omega arith) refl

abbrev to_slot_20 : Changes
to_slot_20 = record {
  title = none;
  subtitle = none;
  category = none;
  platform = none;
  notes = none;
  art_path = none;
  slot = some 20;
}

update_disc_keeps_valid_example : IsSound (update_disc 7 to_slot_20 conn).1
update_disc_keeps_valid_example = update_disc_keeps_valid conn 7 to_slot_20 conn-IsSound
