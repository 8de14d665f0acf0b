-- ===== src/Web/Recording.antt =====
-- app.py, `reconcile_manual` (lines 452 to 481): the form that records a disc by hand never asks the
-- database for what its constraints refuse.
use disc_stakka_web.Base.{
  ℕ, true, ◌&&◌, leb, Option, none, some, List, [], ◌∷◌, ◌≤◌, length, ◌≡◌, refl, arith, ap, sym,
  subst, ◌⊎◌, inl, inr,
}
use disc_stakka_web.Effect.{chars, Outcome, ok, raised, running, ◌>>◌, pure}
use disc_stakka_web.Effect.Triple.{
  After, Triple, bind_lem, pure_lem, gets_lem, modify_lem, if_lem, known_lem, weaken,
}
use disc_stakka_web.Slots.{slot_min, slot_max}
use disc_stakka_web.Jobs.{Job}
use disc_stakka_web.Catalog.Db.{
  Disc, Conn, Query, EventKind, titled, find_slot, next_id, new_disc, slot_in_range, get_by_slot,
  create_disc, insert_disc, log_event,
}
use disc_stakka_web.Web.{
  Web, Server, Response, see_other, reconcile_target, edit_target, FormInt, not_int, negative,
  natural, Flash, flash, query, reopened, with_conn, job_using, form_slot, stripped,
}
use disc_stakka_web.Web.Edits.{record_in, record_free, record_titled, record_slot, reconcile_manual}

abbrev pub Nowhere : Server → Type 0
Nowhere s = ⊥

-- The form is shown again and nothing is written.
abbrev pub IsUnchanged : Conn → Response → Server → Type 0
IsUnchanged c r s = (s.conn.saved ≡ c.saved) × (r ≡ see_other reconcile_target)

-- The disc is in the table, with this title, in a slot that was free, and the answer leads to its form.
abbrev pub IsRecorded : ℕ → List ℕ → Conn → Response → Server → Type 0
IsRecorded slot title c r s =
    let ds = c.saved.discs in
    (slot_in_range slot ≡ true)
    × (find_slot slot ds ≡ none)
    × (1 ≤ length title)
    × (s.conn.saved.discs ≡ new_disc (next_id ds) slot c.now (titled (chars title)) ∷ ds)
    × (r ≡ see_other (edit_target (next_id ds)))

abbrev pub IsAnswered : FormInt → Option (List ℕ) → Conn → Response → Server → Type 0
IsAnswered (natural slot) title c r s = IsUnchanged c r s ⊎ IsRecorded slot (stripped title) c r s
IsAnswered _ title c r s = IsUnchanged c r s

-- What `conn()` opens on what is committed.
abbrev pub fresh : Conn → Conn
fresh c = record c { live = c.saved }

abbrev pub At : Conn → Server → Type 0
At c s = s.conn ≡ fresh c

abbrev pub Ends : Conn → (Response → Server → Type 0) → Web Response → Type 0
Ends c Q m = Triple Nowhere (At c) m Q (λ _. Nowhere)

-- The `INSERT`s pass the constraints.
create_disc_lem :
    (slot : ℕ) (title : List ℕ) (c : Conn)
    → slot_in_range slot ≡ true
    → find_slot slot c.saved.discs ≡ none
    → let q = create_disc slot (titled (chars title)) EventKind.manual (fresh c) in
      let ds = c.saved.discs in
      (q.0 ≡ ok (next_id ds))
      × (q.1.saved.discs ≡ new_disc (next_id ds) slot c.now (titled (chars title)) ∷ ds)
unfolding create_disc insert_disc log_event new_disc
create_disc_lem slot title c range free = ground arith

module _ (c : Conn) where
  again :
      {Q : Response → Server → Type 0} (message : Flash)
      → ((r : Response) (s : Server) → IsUnchanged c r s → Q r s)
      → Ends c Q (flash message >> pure (see_other reconcile_target))
  unfolding flash
  again {Q} message q =
      bind_lem {Q = λ _. At c} {R = Q} (modify_lem _ (λ s p. p))
        (λ _. pure_lem _ (λ s p. q _ s (ap (λ (k : Conn). k.saved) p, refl)))

  -- A statement that returns, by what it returns and leaves.
  returns :
      {A : Type 0} (Q : A → Conn → Type 0) (o : Outcome A) (a : A) (s : Server)
      → o ≡ ok a
      → Q a s.conn
      → After Nowhere (λ a s. Q a s.conn) (λ _. Nowhere) o s
  returns Q o a s e q = subst (λ o. After Nowhere (λ a s. Q a s.conn) (λ _. Nowhere) o s) (sym e) q

  pub returned_query :
      {A : Type 0} (Q : A → Conn → Type 0) (q : Query A) (a : A)
      → (q (fresh c)).0 ≡ ok a
      → Q a (q (fresh c)).1
      → Triple Nowhere (At c) (query q) (λ a s. Q a s.conn) (λ _. Nowhere)
  unfolding query
  returned_query Q q a e h = record {
    holds = λ s p.
        subst
          (λ k.
            After Nowhere (λ a s. Q a s.conn) (λ _. Nowhere) (q k).0 (record s { conn = (q k).1 }))
          (sym p) (returns Q (q (fresh c)).0 a (record s { conn = (q (fresh c)).1 }) e h);
  }

  abbrev Created : ℕ → List ℕ → ℕ → Conn → Type 0
  Created slot title id conn =
      (id ≡ next_id c.saved.discs)
      × (conn.saved.discs
          ≡ new_disc (next_id c.saved.discs) slot c.now (titled (chars title)) ∷ c.saved.discs)

  record_in_lem :
      (slot : ℕ) (title : List ℕ) (job : Option Job)
      → slot_in_range slot ≡ true
      → find_slot slot c.saved.discs ≡ none
      → 1 ≤ length title
      → Ends c (λ r s. IsUnchanged c r s ⊎ IsRecorded slot title c r s) (record_in slot title job)
  unfolding flash
  record_in_lem slot title (some job) range free named = again _ (λ r s p. inl p)
  record_in_lem slot title none range free named =
      let made = create_disc_lem slot title c range free in
      bind_lem (returned_query (Created slot title) _ _ made.0 (refl, made.1)) λ id.
        bind_lem {Q = λ _ s. Created slot title id s.conn} (modify_lem _ (λ s p. p)) λ _.
          pure_lem _ (λ s p. inr (range, free, named, p.1, ap (λ k. see_other (edit_target k)) p.0))

  record_free_lem :
      (slot : ℕ) (title : List ℕ) (row : Option Disc)
      → slot_in_range slot ≡ true
      → find_slot slot c.saved.discs ≡ row
      → 1 ≤ length title
      → Ends c (λ r s. IsUnchanged c r s ⊎ IsRecorded slot title c r s) (record_free slot title row)
  unfolding job_using
  record_free_lem slot title (some disc) range free named = again _ (λ r s p. inl p)
  record_free_lem slot title none range free named =
      bind_lem (gets_lem _ (λ s p. p)) (λ job. record_in_lem slot title job range free named)

  record_titled_lem :
      (slot : ℕ) (title : List ℕ)
      → slot_in_range slot ≡ true
      → Ends c (λ r s. IsUnchanged c r s ⊎ IsRecorded slot title c r s) (record_titled slot title)
  unfolding query get_by_slot
  record_titled_lem slot [] range = again _ (λ r s p. inl p)
  record_titled_lem slot (k ∷ ks) range =
      let row = find_slot slot c.saved.discs in
      bind_lem
        (returned_query (λ r conn. (r ≡ row) × (conn ≡ fresh c)) (get_by_slot slot) row refl
          (refl, refl))
        λ r.
          known_lem (find_slot slot c.saved.discs ≡ r) (λ s p. sym p.0)
            λ e.
              weaken (record_free_lem slot (k ∷ ks) r range e (omega arith)) (λ s p. p.1)
                (λ _ s p. p) (λ _ s p. p)

  -- The slot that `_form_slot` gives, if it gives one.
  abbrev Picks : FormInt → Option ℕ → Type 0
  Picks field none = Unit
  Picks (natural k) (some slot) = (slot ≡ k) × (slot_in_range slot ≡ true)
  Picks _ (some slot) = ⊥

  no_slot :
      (field : FormInt) (message : Flash)
      → Triple Nowhere
          (At c)
          (flash message >> pure none)
          (λ o s. Picks field o × At c s)
          (λ _. Nowhere)
  unfolding flash
  no_slot field message =
      bind_lem {Q = λ _. At c} (modify_lem _ (λ s p. p)) (λ _. pure_lem none (λ s p. (tt, p)))

  form_slot_lem :
      (field : FormInt)
      → Triple Nowhere (At c) (form_slot field) (λ o s. Picks field o × At c s) (λ _. Nowhere)
  unfolding form_slot
  form_slot_lem not_int = no_slot not_int _
  form_slot_lem negative = no_slot negative _
  form_slot_lem (natural slot) =
      if_lem (leb slot_min slot && leb slot slot_max)
        (λ range. pure_lem _ (λ s p. ((refl, range), p))) (λ _. no_slot (natural slot) _)

  refusal-IsAnswered :
      (field : FormInt) (title : Option (List ℕ)) (r : Response) (s : Server)
      → IsUnchanged c r s
      → IsAnswered field title c r s
  refusal-IsAnswered not_int title r s p = p
  refusal-IsAnswered negative title r s p = p
  refusal-IsAnswered (natural slot) title r s p = inl p

  record_slot_lem :
      (field : FormInt) (title : Option (List ℕ)) (o : Option ℕ)
      → Picks field o
      → Ends c (IsAnswered field title c) (record_slot title o)
  record_slot_lem field title none h =
      pure_lem _ (λ s p. refusal-IsAnswered field title _ s (ap (λ (k : Conn). k.saved) p, refl))
  record_slot_lem (natural k) title (some slot) h =
      subst (λ k. Ends c (IsAnswered (natural k) title c) (record_slot title (some slot))) h.0
        (record_titled_lem slot (stripped title) h.1)
  record_slot_lem not_int title (some slot) h = elim h [ ]
  record_slot_lem negative title (some slot) h = elim h [ ]

  reopened-IsAnswered :
      (field : FormInt) (title : Option (List ℕ)) (o : Outcome Response) (s : Server)
      → After Nowhere (IsAnswered field title c) (λ _. Nowhere) o s
      → After Nowhere (IsAnswered field title c) (λ _. Nowhere) o (reopened s)
  unfolding reopened
  reopened-IsAnswered (natural slot) title (ok r) s p = p
  reopened-IsAnswered not_int title (ok r) s p = p
  reopened-IsAnswered negative title (ok r) s p = p
  reopened-IsAnswered field title (raised e) s p = p
  reopened-IsAnswered field title running s p = p

-- The form that records a disc by hand is always answered: whatever its fields, the tables and the
-- job that is under way, `reconcile_manual` raises nothing, since it never asks for an `INSERT` that a
-- constraint of the tables refuses. Either it leads back to the form and nothing is written, or the
-- field was a slot in range that was free, the title was more than blanks, the disc is committed as
-- one row more, and the answer leads to the form of this row.
pub manual_requests_raise_nothing :
    (field : FormInt) (title : Option (List ℕ)) (s : Server)
    → let r = reconcile_manual field title s in
      After Nowhere (IsAnswered field title s.conn) (λ _. Nowhere) r.0 r.1
unfolding reconcile_manual with_conn reopened
manual_requests_raise_nothing field title s =
    let c = s.conn in
    let m = bind_lem {R = IsAnswered field title c} (form_slot_lem c field) (λ o.
      known_lem (Picks c field o) (λ s p. p.0)
        (λ h. weaken (record_slot_lem c field title o h) (λ s p. p.1) (λ _ s p. p) (λ _ s p. p))) in
    reopened-IsAnswered c field title _ _ (m.holds (reopened s) refl)
