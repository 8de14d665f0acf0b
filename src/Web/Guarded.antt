-- ===== src/Web/Guarded.antt =====
-- Every write of discstakka/catalog/db.py that the handlers of app.py make leaves the rows of a job alone,
-- if it is of a disc or a slot that the job does not use.
use disc_stakka_web.Base.{ℕ, true, false, Option, none, some, List, ◌≡◌, refl, arith, ap, ◌∙◌}
use disc_stakka_web.Effect.{Text, Outcome, ok, raised, running}
use disc_stakka_web.Effect.Triple.{After, Triple, bind_lem, pure_lem, if_lem, skip_lem}
use disc_stakka_web.Catalog.Db.{
  Disc, Conn, Query, Details, EventKind, find_disc, next_id, refers, get_disc, transaction,
  with_outcome, log_event, insert_disc, new_disc, create_disc, update_rows, checked_out, put_back,
  mark_out, mark_stored, delete_rows, delete_disc,
}
use disc_stakka_web.Catalog.Edit.{Changes, given, changed, names_nothing, edit_row, update_disc}
use disc_stakka_web.Catalog.Valid.{IsSound}
use disc_stakka_web.Web.Rows.{
  Place, place, is_used, used_rows, used_rows-same, used_rows-update_row, used_rows-delete_row,
  refers-update_row, refers-delete_row, refers-cons, unused_next_id,
}

-- The rows that a disc's number and a slot name are the given ones, and there is a row of that number.
module _ (x y : Option ℕ) (U : List Place) where
  abbrev pub HasRows : List Disc → Type 0
  HasRows ds = (used_rows x y ds ≡ U) × (refers x ds ≡ true)

  abbrev pub KeepsRows : Conn → Type 0
  KeepsRows c = HasRows c.live.discs × HasRows c.saved.discs

  -- A write that keeps the rows, from what it may rest on.
  abbrev pub Spares : {A : Type 0} → (Conn → Type 0) → Query A → Type 0
  Spares P m = Triple KeepsRows P m (λ _. KeepsRows) (λ _. KeepsRows)

  with_outcome-KeepsRows :
      {A : Type 0} (r : Outcome A) (c : Conn)
      → After KeepsRows (λ _. KeepsRows) (λ _. KeepsRows) r c
      → After KeepsRows (λ _. KeepsRows) (λ _. KeepsRows) (with_outcome r c).0 (with_outcome r c).1
  with_outcome-KeepsRows (ok a) c h = (h.0, h.0)
  with_outcome-KeepsRows (raised e) c h = (h.1, h.1)
  with_outcome-KeepsRows running c h = h

  transaction_lem :
      {A : Type 0} {P : Conn → Type 0} {m : Query A} → Spares P m → Spares P (transaction m)
  transaction_lem {m} h = record {
    holds = λ c p. with_outcome-KeepsRows (m c).0 (m c).1 (h.holds c p);
  }

  log_event_lem :
      (kind : EventKind) (disc_id slot : Option ℕ) (detail : Option Text)
      → Spares KeepsRows (log_event kind disc_id slot detail)
  unfolding log_event
  log_event_lem kind disc_id slot detail = record { holds = λ c p. ground arith }

  get_disc-KeepsRows : (id : ℕ) → Spares KeepsRows (get_disc id)
  unfolding get_disc
  get_disc-KeepsRows id = record { holds = λ c p. p }

  -- The connection has a disc under this number, and neither it nor its slot is used.
  abbrev pub Unused : ℕ → Disc → Conn → Type 0
  Unused id disc c =
      (IsSound c × KeepsRows c)
      × (find_disc id c.live.discs ≡ some disc)
      × (is_used x y id disc.slot ≡ false)

  update_rows_lem :
      (id : ℕ) (disc : Disc) (f : ℕ → Disc → Disc)
      → ((now : ℕ) (d : Disc) → (f now d).id ≡ d.id)
      → ((now : ℕ) (d : Disc) → (f now d).slot ≡ d.slot)
      → Spares (Unused id disc) (update_rows id f)
  unfolding update_rows
  update_rows_lem id disc f same_id same_slot = record {
    holds = λ c p. (
      (
        used_rows-update_row x y id (f c.now) (same_id c.now) (same_slot c.now) disc c.live.discs
              p.1 p.2 p.0.0.0.0
            ∙ p.0.1.0.0,
        refers-update_row id y x (f c.now) (same_id c.now) (same_slot c.now) c.live.discs p.0.1.0.1,
      ),
      p.0.1.1,
    );
  }

  pub mark_out_lem :
      (id : ℕ) (disc : Disc) (kind : EventKind) (detail : Option Text)
      → Spares (Unused id disc) (mark_out id kind detail)
  unfolding mark_out
  mark_out_lem id disc kind detail = transaction_lem (
      bind_lem (update_rows_lem id disc checked_out (λ _ d. refl) (λ _ d. refl))
        λ _. bind_lem (get_disc-KeepsRows id) (λ row. log_event_lem kind _ _ _))

  pub mark_stored_lem :
      (id : ℕ) (disc : Disc) (kind : EventKind) (detail : Option Text)
      → Spares (Unused id disc) (mark_stored id kind detail)
  unfolding mark_stored
  mark_stored_lem id disc kind detail = transaction_lem (
      bind_lem (update_rows_lem id disc put_back (λ _ d. refl) (λ _ d. refl))
        λ _. bind_lem (get_disc-KeepsRows id) (λ row. log_event_lem kind _ _ _))

  delete_rows_lem : (id : ℕ) (disc : Disc) → Spares (Unused id disc) (delete_rows id)
  unfolding delete_rows
  delete_rows_lem id disc = record {
    holds = λ c p. (
      (
        used_rows-delete_row x y id disc c.live.discs p.1 p.2 ∙ p.0.1.0.0,
        refers-delete_row id y x disc.slot c.live.discs p.2 p.0.1.0.1,
      ),
      p.0.1.1,
    );
  }

  get_disc-Unused :
      (id : ℕ) (disc : Disc)
      → Triple KeepsRows (Unused id disc) (get_disc id) (λ _. Unused id disc) (λ _. KeepsRows)
  unfolding get_disc
  get_disc-Unused id disc = record { holds = λ c p. p }

  pub delete_disc_lem : (id : ℕ) (disc : Disc) → Spares (Unused id disc) (delete_disc id)
  unfolding delete_disc
  delete_disc_lem id disc = bind_lem (get_disc-Unused id disc) λ row.
      bind_lem
        (transaction_lem
          (bind_lem (delete_rows_lem id disc) (λ _. log_event_lem EventKind.removed _ _ _)))
        (λ _. pure_lem row (λ c p. p))

  -- The slot is not used.
  abbrev pub Spare : ℕ → Conn → Type 0
  Spare slot c = KeepsRows c × ((k : ℕ) → is_used none y k slot ≡ false)

  insert_disc_lem : (slot : ℕ) (d : Details) → Spares (Spare slot) (insert_disc slot d)
  unfolding insert_disc new_disc
  insert_disc_lem slot d = record {
    holds = λ c p.
        let ds = c.live.discs in
        ground (
          arith,
          unused_next_id x y slot ds (p.1 (next_id ds)) p.0.0.1,
          refers-cons x (new_disc (next_id ds) slot c.now d) ds p.0.0.1,
        );
  }

  pub create_disc_lem :
      (slot : ℕ) (d : Details) (kind : EventKind) → Spares (Spare slot) (create_disc slot d kind)
  unfolding create_disc
  create_disc_lem slot d kind = transaction_lem (
      bind_lem (insert_disc_lem slot d)
        λ id. bind_lem (log_event_lem kind _ _ _) (λ _. pure_lem id (λ c p. p)))

  edit_row_lem : (id : ℕ) (e : Changes) → e.slot ≡ none → Spares KeepsRows (edit_row id e)
  unfolding edit_row update_rows
  edit_row_lem id e fixed = record {
    holds = λ c p.
        let f = changed e c.now in
        let same_slot : (d : Disc) → (f d).slot ≡ d.slot = λ d. ap (λ s. given s d.slot) fixed in
        let same : (d : Disc) → place (f d) ≡ place d =
          λ d. ap (λ s. record { id = d.id; slot = s; status = d.status }) (same_slot d) in
        ground (
          arith,
          used_rows-same x y id f same c.live.discs,
          refers-update_row id y x f (λ d. refl) same_slot c.live.discs p.0.1,
        );
  }

  pub update_disc_lem : (id : ℕ) (e : Changes) → e.slot ≡ none → Spares KeepsRows (update_disc id e)
  unfolding update_disc
  update_disc_lem id e fixed =
      if_lem (names_nothing e) (λ _. skip_lem (λ c p. p))
        (λ _. transaction_lem (edit_row_lem id e fixed))
