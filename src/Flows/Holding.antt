-- ===== src/Flows/Holding.antt =====
-- While a flow talks to the unit, logs, or reports through its job, the rows of the catalogue stay.
use disc_stakka_web.Base.{ℕ, true, Option, List, ◌∷◌, ◌≡◌, refl, arith, subst, sym}
use disc_stakka_web.Effect.{Text, Exc, Outcome, ok, raised, running}
use disc_stakka_web.Effect.Triple.{Triple, After, Any}
use disc_stakka_web.Transport.{Transport}
use disc_stakka_web.Protocol.Handle.{DiscStakka, WireEvent, traced, now_ms, Call}
use disc_stakka_web.Protocol.Stable.{Quiet}
use disc_stakka_web.Protocol.Events.{WireInvariant}
use disc_stakka_web.Jobs
use disc_stakka_web.Jobs.{Job, Phase}
use disc_stakka_web.Trace.{Trace}
use disc_stakka_web.Catalog.Db.{
  Disc, Conn, Query, EventKind, update_row, checked_out, put_back, get_disc, log_event, commit,
  mark_out, mark_stored, update_rows, Details, create_disc, insert_disc, new_disc, next_id,
}
use disc_stakka_web.Flows.{Shared, job_note, on_job, on_trace, query, query_outcome, set_phase}

-- The rows are `ds`, committed and seen, and the connection's time is `n`.
abbrev pub Rows : ℕ → List Disc → Conn → Type 0
Rows n ds c = (c.live.discs ≡ ds) × (c.saved.discs ≡ ds) × (c.now ≡ n)

-- The trace callback leaves the connection alone.
abbrev pub IsQuiet : Option (ℕ → Shared → Shared) → Type 0
IsQuiet t = (st : ℕ) (j : Shared) → (traced t st j).conn ≡ j.conn

abbrev pub SameConn : (Shared → Shared) → Type 0
SameConn f = (j : Shared) → (f j).conn ≡ j.conn

abbrev pub HoldingOf :
    ℕ → List Disc → List WireEvent → Option (ℕ → Shared → Shared) → Shared → Type 0
HoldingOf n ds l t j = Rows n ds j.conn × IsQuiet t

pub holding : (n : ℕ) (ds : List Disc) → WireInvariant (λ _ _. true) SameConn (HoldingOf n ds)
holding n ds = record {
  hears = λ p l t j h. h;
  sends = λ u m c x l t j a b h. h;
  observes = λ st l t j h. (subst (Rows n ds) (sym (h.1 st j)) h.0, h.1);
  changes = λ f l t j c h. (subst (Rows n ds) (sym (c j)) h.0, h.1);
}

pub Quiet-note : Quiet SameConn job_note
unfolding Jobs.note
Quiet-note = λ message j. refl

module _ {W : Type 0} where
  abbrev pub Holding : ℕ → List Disc → DiscStakka W Shared → Type 0
  Holding n ds s = Rows n ds s.caller.conn × IsQuiet s.trace

  abbrev pub Holds : {A : Type 0} → ℕ → List Disc → Call W Shared A → Type 0
  Holds n ds m = Triple Any (Holding n ds) m (λ _. Holding n ds) (λ _. Holding n ds)

  pub on_job-Holds : (n : ℕ) (ds : List Disc) (f : Job → Job) → Holds n ds (on_job f)
  unfolding on_job
  on_job-Holds n ds f = record { holds = λ s p. p }

  pub on_trace-Holds :
      {E : Exc → DiscStakka W Shared → Type 0} (n : ℕ) (ds : List Disc) (f : Trace → Trace)
      → Triple Any (Holding n ds) (on_trace f) (λ _. Holding n ds) E
  unfolding on_trace
  on_trace-Holds n ds f = record { holds = λ s p. p }

  pub set_phase-Holds :
      (T : Transport W) (n : ℕ) (ds : List Disc) (phase : Phase) (message : Text) (window : ℕ)
      → Holds n ds (set_phase T phase message window)
  unfolding set_phase now_ms
  set_phase-Holds T n ds phase message window = record {
    holds =
        λ s p. (on_job-Holds n ds (Jobs.set_phase (T.now_ms s.io) phase message window)).holds s p;
  }

  After-query :
      {A : Type 0} (Q : A → Conn → Type 0) (E : Exc → Conn → Type 0) (r : Outcome A) (c : Conn)
      (s : DiscStakka W Shared)
      → IsQuiet s.trace
      → After Any Q E r c
      → After Any
          (λ a s'. Q a s'.caller.conn × IsQuiet s'.trace)
          (λ e s'. E e s'.caller.conn × IsQuiet s'.trace)
          (query_outcome (r, c) s).0
          (query_outcome (r, c) s).1
  After-query Q E (ok a) c s q h = (h, q)
  After-query Q E (raised e) c s q h = (h, q)
  After-query Q E running c s q h = tt

  -- What is true of a query is true of it in a flow.
  pub query_lem :
      {A : Type 0} {P : Conn → Type 0} {Q : A → Conn → Type 0} {E : Exc → Conn → Type 0}
      {m : Query A}
      → Triple Any P m Q E
      → Triple {S = DiscStakka W Shared} Any
          (λ s. P s.caller.conn × IsQuiet s.trace)
          (query m)
          (λ a s. Q a s.caller.conn × IsQuiet s.trace)
          (λ e s. E e s.caller.conn × IsQuiet s.trace)
  unfolding query
  query_lem {Q} {E} {m} h = record {
    holds = λ s p.
        After-query Q E (m s.caller.conn).0 (m s.caller.conn).1 s p.1 (h.holds s.caller.conn p.0);
  }

-- Queries that leave the rows alone, and those that change one.
module _ (n : ℕ) (ds : List Disc) where
  abbrev RowsKept : {A : Type 0} → Query A → Type 0
  RowsKept m = Triple Any (Rows n ds) m (λ _. Rows n ds) (λ _. Rows n ds)

  pub log_event-Rows :
      (kind : EventKind) (disc_id slot : Option ℕ) (detail : Option Text)
      → RowsKept (log_event kind disc_id slot detail)
  unfolding log_event
  log_event-Rows kind disc_id slot detail = record { holds = λ c p. ground arith }

  pub commit-Rows : RowsKept commit
  unfolding commit
  commit-Rows = record { holds = λ c p. (p.0, p.0, p.2) }

  -- A read raises nothing.
  pub get_disc-Rows : (id : ℕ) → Triple Any (Rows n ds) (get_disc id) (λ _. Rows n ds) (λ _ _. ⊥)
  unfolding get_disc
  get_disc-Rows id = record { holds = λ c p. p }

  row-eq :
      (id : ℕ) (f : ℕ → Disc → Disc) (c : Conn)
      → Rows n ds c
      → update_row id (f c.now) c.live.discs ≡ update_row id (f n) ds
  row-eq id f c p = cc

  new_row-eq :
      (slot : ℕ) (x : Details) (c : Conn)
      → Rows n ds c
      → (next_id c.live.discs ≡ next_id ds)
        × (new_disc (next_id c.live.discs) slot c.now x ∷ c.live.discs
            ≡ new_disc (next_id ds) slot n x ∷ ds)
  new_row-eq slot x c p = (cc, cc)

  pub mark_out-Rows :
      (id : ℕ) (kind : EventKind) (detail : Option Text)
      → Triple Any
          (Rows n ds)
          (mark_out id kind detail)
          (λ _. Rows n (update_row id (checked_out n) ds))
          (λ _. Rows n ds)
  unfolding mark_out update_rows get_disc log_event
  mark_out-Rows id kind detail = record { holds = λ c p. ground (arith, row-eq id checked_out c p) }

  pub mark_stored-Rows :
      (id : ℕ) (kind : EventKind) (detail : Option Text)
      → Triple Any
          (Rows n ds)
          (mark_stored id kind detail)
          (λ _. Rows n (update_row id (put_back n) ds))
          (λ _. Rows n ds)
  unfolding mark_stored update_rows get_disc log_event
  mark_stored-Rows id kind detail = record { holds = λ c p. ground (arith, row-eq id put_back c p) }

  pub create_disc-Rows :
      (slot : ℕ) (x : Details) (kind : EventKind)
      → Triple Any
          (Rows n ds)
          (create_disc slot x kind)
          (λ id c. (id ≡ next_id ds) × Rows n (new_disc (next_id ds) slot n x ∷ ds) c)
          (λ _. Rows n ds)
  unfolding create_disc insert_disc log_event
  create_disc-Rows slot x kind = record { holds = λ c p. ground (arith, new_row-eq slot x c p) }
