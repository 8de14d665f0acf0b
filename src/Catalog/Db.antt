-- ===== src/Catalog/Db.antt =====
-- The two tables of discstakka/catalog/schema.sql and the statements of discstakka/catalog/db.py
-- that write to them. A connection has what is committed and what its own transaction sees; a
-- statement that breaks a constraint raises `sqlite3.IntegrityError`. `now` is what `_now()` reads.
use disc_stakka_web.Base.{
  ℕ, ◌+◌, Bool, true, false, not, ◌&&◌, ◌==◌, leb, if◌then◌else◌, Option, none, some, List, [], ◌∷◌,
}
use disc_stakka_web.Effect.{
  Text, Outcome, ok, raised, running, sqlite_error, M, Done, ◌>>=◌, ◌>>◌, pure, gets, modify,
}
use disc_stakka_web.Slots.{slot_min, slot_max}

pub data Status : Type 0 where
  stored out : Status

pub data EventKind : Type 0 where
  added ejected returned retracted reset manual removed failed : EventKind

pub record Disc : Type 0 where
  pub id : ℕ
  pub slot : ℕ
  pub title : Text
  pub subtitle : Option Text
  pub category : Option Text
  pub platform : Option Text
  pub notes : Option Text
  pub art_path : Option Text
  pub status : Status
  pub checked_out_at : Option ℕ
  pub created_at : ℕ
  pub updated_at : ℕ

pub record Event : Type 0 where
  pub disc_id : Option ℕ
  pub slot : Option ℕ
  pub kind : EventKind
  pub detail : Option Text
  pub at : ℕ

-- The newest event first.
pub record Db : Type 0 where
  pub discs : List Disc
  pub events : List Event

pub record Conn : Type 0 where
  pub live : Db
  pub saved : Db
  pub now : ℕ

abbrev pub Query : Type 0 → Type 0
Query A = M Conn A

unfoldable pub commit : Query Done
commit = modify λ c. record c { saved = c.live }

unfoldable pub rollback : Query Done
rollback = modify λ c. record c { live = c.saved }

-- `with conn:` commits, or rolls back and lets the exception go on.
abbrev pub with_outcome : {A : Type 0} → Outcome A → Conn → Outcome A × Conn
with_outcome (ok a) c = (ok a, record c { saved = c.live })
with_outcome (raised e) c = (raised e, record c { live = c.saved })
with_outcome running c = (running, c)

abbrev pub transaction : {A : Type 0} → Query A → Query A
transaction m c = with_outcome (m c).0 (m c).1

-- `SELECT * FROM disc WHERE id = ?` and `WHERE slot = ?`
abbrev pub find_disc : ℕ → List Disc → Option Disc
find_disc k [] = none
find_disc k (d ∷ ds) = if d.id == k then some d else find_disc k ds

abbrev pub find_slot : ℕ → List Disc → Option Disc
find_slot k [] = none
find_slot k (d ∷ ds) = if d.slot == k then some d else find_slot k ds

abbrev pub is_some : {A : Type 0} → Option A → Bool
is_some none = false
is_some (some a) = true

unfoldable pub get_disc : ℕ → Query (Option Disc)
get_disc id = gets (λ c. find_disc id c.live.discs)

unfoldable pub get_by_slot : ℕ → Query (Option Disc)
get_by_slot slot = gets (λ c. find_slot slot c.live.discs)

-- The key that SQLite gives to a row of an `INTEGER PRIMARY KEY`: one above the largest.
abbrev pub next_id : List Disc → ℕ
next_id [] = 1
next_id (d ∷ ds) = let rest = next_id ds in if leb rest d.id then d.id + 1 else rest

abbrev pub slot_in_range : ℕ → Bool
slot_in_range slot = leb slot_min slot && leb slot slot_max

-- The constraints on an event: its disc, if it names one, is in the table.
abbrev pub refers : Option ℕ → List Disc → Bool
refers none ds = true
refers (some id) ds = is_some (find_disc id ds)

unfoldable pub log_event : EventKind → Option ℕ → Option ℕ → Option Text → Query Done
log_event kind disc_id slot detail c =
    if refers disc_id c.live.discs
    then (
      ok tt,
      record c {
        live = record (c.live) {
          events =
              record { disc_id = disc_id; slot = slot; kind = kind; detail = detail; at = c.now }
              ∷ c.live.events;
        };
      },
    )
    else (raised sqlite_error, c)

-- The columns that the caller of `create_disc` gives besides the slot.
pub record Details : Type 0 where
  pub title : Text
  pub subtitle : Option Text
  pub category : Option Text
  pub platform : Option Text
  pub notes : Option Text
  pub art_path : Option Text

abbrev pub titled : Text → Details
titled title = record {
  title = title;
  subtitle = none;
  category = none;
  platform = none;
  notes = none;
  art_path = none;
}

unfoldable pub new_disc : ℕ → ℕ → ℕ → Details → Disc
new_disc id slot now x = record {
  id = id;
  slot = slot;
  title = x.title;
  subtitle = x.subtitle;
  category = x.category;
  platform = x.platform;
  notes = x.notes;
  art_path = x.art_path;
  status = stored;
  checked_out_at = none;
  created_at = now;
  updated_at = now;
}

-- The `INSERT` of `create_disc`, which returns `lastrowid`: the slot is in range and free.
unfoldable pub insert_disc : ℕ → Details → Query ℕ
unfolding new_disc
insert_disc slot x c =
    if slot_in_range slot && not (is_some (find_slot slot c.live.discs))
    then (
      ok (next_id c.live.discs),
      record c {
        live = record (c.live) {
          discs = new_disc (next_id c.live.discs) slot c.now x ∷ c.live.discs;
        };
      },
    )
    else (raised sqlite_error, c)

unfoldable pub create_disc : ℕ → Details → EventKind → Query ℕ
create_disc slot x kind =
    transaction
      (do id ← insert_disc slot x; log_event kind (some id) (some slot) (some x.title); pure id)

-- `UPDATE disc SET … WHERE id = ?`, where the columns do not include the slot.
abbrev pub update_row : ℕ → (Disc → Disc) → List Disc → List Disc
update_row k f [] = []
update_row k f (d ∷ ds) = (if d.id == k then f d else d) ∷ update_row k f ds

-- The change may use the time that `_now()` reads.
unfoldable pub update_rows : ℕ → (ℕ → Disc → Disc) → Query Done
update_rows k f =
    modify λ c. record c { live = record (c.live) { discs = update_row k (f c.now) c.live.discs } }

abbrev pub slot_of : Option Disc → Option ℕ
slot_of none = none
slot_of (some d) = some d.slot

abbrev pub title_of : Option Disc → Option Text
title_of none = none
title_of (some d) = some d.title

abbrev pub checked_out : ℕ → Disc → Disc
checked_out now d = record d { status = out; checked_out_at = some now; updated_at = now }

abbrev pub put_back : ℕ → Disc → Disc
put_back now d = record d { status = stored; checked_out_at = none; updated_at = now }

unfoldable pub mark_out : ℕ → EventKind → Option Text → Query Done
mark_out id kind detail = transaction (do
  update_rows id checked_out
  row ← get_disc id
  log_event kind (some id) (slot_of row) detail)

unfoldable pub mark_stored : ℕ → EventKind → Option Text → Query Done
mark_stored id kind detail =
    transaction
      (do update_rows id put_back; row ← get_disc id; log_event kind (some id) (slot_of row) detail)

abbrev pub delete_row : ℕ → List Disc → List Disc
delete_row k [] = []
delete_row k (d ∷ ds) = if d.id == k then ds else d ∷ delete_row k ds

-- `ON DELETE SET NULL`
abbrev pub forget : ℕ → Option ℕ → Option ℕ
forget k none = none
forget k (some id) = if id == k then none else some id

abbrev pub unlink : ℕ → List Event → List Event
unlink k [] = []
unlink k (e ∷ es) = record e { disc_id = forget k e.disc_id } ∷ unlink k es

unfoldable pub delete_rows : ℕ → Query Done
delete_rows k = modify λ c. record c {
  live = record { discs = delete_row k c.live.discs; events = unlink k c.live.events };
}

unfoldable pub delete_disc : ℕ → Query (Option Disc)
delete_disc id = do
  row ← get_disc id
  transaction (do delete_rows id; log_event removed none (slot_of row) (title_of row))
  pure row
