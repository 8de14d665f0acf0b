-- ===== src/Catalog/Writes.antt =====
-- Every write of discstakka/catalog/db.py keeps the tables valid, whether it commits or rolls back.
use disc_stakka_web.Base.{ℕ, true, Option, List, ◌∷◌, ◌≡◌, refl, arith, ◌∙◌}
use disc_stakka_web.Effect.{Text, Outcome, ok, raised, running}
use disc_stakka_web.Effect.Triple.{Keeps, After, bind_lem, pure_lem, final_lem}
use disc_stakka_web.Catalog.Db.{
  Disc, Conn, Query, EventKind, Details, find_disc, is_some, next_id, checked_out, put_back,
  transaction, with_outcome, get_disc, log_event, insert_disc, create_disc, update_rows, mark_out,
  mark_stored, delete_rows, delete_disc, commit, rollback, new_disc,
}
use disc_stakka_web.Catalog.Valid.{
  IsSound, find_disc-next_id, AreLinked-mono, update_row-IsTable, find_disc-update_row,
  delete_row-IsTable, unlink-AreLinked,
}

with_outcome-IsSound :
    {A : Type 0} (r : Outcome A) (c : Conn)
    → After IsSound (λ _. IsSound) (λ _. IsSound) r c
    → After IsSound (λ _. IsSound) (λ _. IsSound) (with_outcome r c).0 (with_outcome r c).1
with_outcome-IsSound (ok a) c h = (h.0, h.0)
with_outcome-IsSound (raised e) c h = (h.1, h.1)
with_outcome-IsSound running c h = h

pub transaction-IsSound :
    {A : Type 0} {m : Query A} → Keeps IsSound m → Keeps IsSound (transaction m)
transaction-IsSound {m} h = record {
  holds = λ c p. with_outcome-IsSound (m c).0 (m c).1 (h.holds c p);
}

pub commit-IsSound : Keeps IsSound commit
unfolding commit
commit-IsSound = record { holds = λ c p. (p.0, p.0) }

pub rollback-IsSound : Keeps IsSound rollback
unfolding rollback
rollback-IsSound = record { holds = λ c p. (p.1, p.1) }

get_disc-IsSound : (id : ℕ) → Keeps IsSound (get_disc id)
unfolding get_disc
get_disc-IsSound id = record { holds = λ c p. p }

pub log_event-IsSound :
    (kind : EventKind) (disc_id slot : Option ℕ) (detail : Option Text)
    → Keeps IsSound (log_event kind disc_id slot detail)
unfolding log_event
log_event-IsSound kind disc_id slot detail = record { holds = λ c p. ground arith }

pub find_disc-cons :
    (id : ℕ) (d : Disc) (ds : List Disc)
    → is_some (find_disc id ds) ≡ true
    → is_some (find_disc id (d ∷ ds)) ≡ true
find_disc-cons id d ds h = ground arith

insert_disc-IsSound : (slot : ℕ) (x : Details) → Keeps IsSound (insert_disc slot x)
unfolding insert_disc
insert_disc-IsSound slot x = record {
  holds = λ c p.
      let ds = c.live.discs in
      let d = new_disc (next_id ds) slot c.now x in
      ground (
        arith,
        find_disc-next_id (next_id ds) ds (omega arith),
        AreLinked-mono ds (d ∷ ds) c.live.events (λ id h. find_disc-cons id d ds h) p.0.1,
      );
}

update_rows-IsSound :
    (k : ℕ) (f : ℕ → Disc → Disc)
    → ((now : ℕ) (d : Disc) → (f now d).id ≡ d.id)
    → ((now : ℕ) (d : Disc) → (f now d).slot ≡ d.slot)
    → Keeps IsSound (update_rows k f)
unfolding update_rows
update_rows-IsSound k f same_id same_slot = record {
  holds = λ c p. (
    (
      update_row-IsTable k (f c.now) (same_id c.now) (same_slot c.now) c.live.discs p.0.0,
      AreLinked-mono c.live.discs _ c.live.events
          (λ id there.
            find_disc-update_row k (f c.now) (same_id c.now) (same_slot c.now) id c.live.discs
            ∙ there)
          p.0.1,
    ),
    p.1,
  );
}

delete_rows-IsSound : (k : ℕ) → Keeps IsSound (delete_rows k)
unfolding delete_rows
delete_rows-IsSound k = record {
  holds = λ c p. (
    (delete_row-IsTable k c.live.discs p.0.0, unlink-AreLinked k c.live.discs c.live.events p.0.1),
    p.1,
  );
}

pub create_disc-IsSound :
    (slot : ℕ) (x : Details) (kind : EventKind) → Keeps IsSound (create_disc slot x kind)
unfolding create_disc
create_disc-IsSound slot x kind = transaction-IsSound (
    bind_lem (insert_disc-IsSound slot x)
      λ id. bind_lem (log_event-IsSound kind _ _ _) (λ _. pure_lem id (λ c p. p)))

pub mark_out-IsSound :
    (id : ℕ) (kind : EventKind) (detail : Option Text) → Keeps IsSound (mark_out id kind detail)
unfolding mark_out
mark_out-IsSound id kind detail = transaction-IsSound (
    bind_lem (update_rows-IsSound id checked_out (λ _ d. refl) (λ _ d. refl))
      λ _. bind_lem (get_disc-IsSound id) (λ row. log_event-IsSound kind _ _ _))

pub mark_stored-IsSound :
    (id : ℕ) (kind : EventKind) (detail : Option Text) → Keeps IsSound (mark_stored id kind detail)
unfolding mark_stored
mark_stored-IsSound id kind detail = transaction-IsSound (
    bind_lem (update_rows-IsSound id put_back (λ _ d. refl) (λ _ d. refl))
      λ _. bind_lem (get_disc-IsSound id) (λ row. log_event-IsSound kind _ _ _))

pub delete_disc-IsSound : (id : ℕ) → Keeps IsSound (delete_disc id)
unfolding delete_disc
delete_disc-IsSound id = bind_lem (get_disc-IsSound id) λ row.
    bind_lem
      (transaction-IsSound
        (bind_lem (delete_rows-IsSound id) (λ _. log_event-IsSound EventKind.removed _ _ _)))
      (λ _. pure_lem row (λ c p. p))

-- On a connection whose tables have slots in range, no slot and no key twice, and no event that
-- names a disc the table has not, in what is committed and in what the connection sees:
-- `create_disc`, `mark_out`, `mark_stored`, `delete_disc` and `log_event` keep this, however they
-- end.
pub writes_keep_valid :
    (c : Conn) (id slot : ℕ) (x : Details) (kind : EventKind) (disc_id at : Option ℕ)
    (detail : Option Text)
    → IsSound c
    → IsSound (create_disc slot x kind c).1
      × IsSound (mark_out id kind detail c).1
      × IsSound (mark_stored id kind detail c).1
      × IsSound (delete_disc id c).1
      × IsSound (log_event kind disc_id at detail c).1
writes_keep_valid c id slot x kind disc_id at detail h = (
  final_lem (create_disc-IsSound slot x kind) c h,
  final_lem (mark_out-IsSound id kind detail) c h,
  final_lem (mark_stored-IsSound id kind detail) c h,
  final_lem (delete_disc-IsSound id) c h,
  final_lem (log_event-IsSound kind disc_id at detail) c h,
)
