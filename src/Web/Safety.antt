-- ===== src/Web/Safety.antt =====
-- app.py: what `job_using` and `start_job` are for. While a job is under way, no request changes the rows
-- that it works on, and none starts another job.
use disc_stakka_web.Base.{
  ℕ, Bool, true, false, if◌then◌else◌, Option, none, some, List, ◌≡◌, refl, arith, ap, subst, sym,
  ◌∙◌,
}
use disc_stakka_web.Effect.{Text}
use disc_stakka_web.Effect.Triple.{Triple, Keeps, both_lem, weaken_all}
use disc_stakka_web.Jobs.{Job}
use disc_stakka_web.Catalog.Db.{Disc, Conn, Query, EventKind, titled, refers}
use disc_stakka_web.Catalog.Edit.{update_disc-IsSound}
use disc_stakka_web.Catalog.Listing.{Sqlite}
use disc_stakka_web.Catalog.Valid.{IsSound}
use disc_stakka_web.Catalog.Writes.{
  create_disc-IsSound, mark_out-IsSound, mark_stored-IsSound, delete_disc-IsSound,
}
use disc_stakka_web.Controller.Submit.{
  Controller, Runner, current_job, submit, Refuses, submit_takes_one_job,
}
use disc_stakka_web.Web.{Server, query, submit_job, uses, if_used, job_of}
use disc_stakka_web.Web.Edits.{Ingested}
use disc_stakka_web.Web.Guarded.{
  KeepsRows, Spares, Unused, Spare, mark_out_lem, mark_stored_lem, delete_disc_lem, create_disc_lem,
  update_disc_lem,
}
use disc_stakka_web.Web.Invariant.{IsInvariant, On, Found, IsUnused, query_lem}
use disc_stakka_web.Web.Respond.{Arrival, serve}
use disc_stakka_web.Web.Rows.{Place, used_rows}
use disc_stakka_web.Web.Writes.{serve_lem}

-- A controller with a job under way, and the rows of that job.
module _ (C : Controller) (ref : ℕ) (cur : current_job C ≡ some ref) (U : List Place) where
  abbrev job : Job
  job = C.job_at ref

  abbrev Guarded : Controller → Conn → Type 0
  Guarded c conn = (c ≡ C) × (IsSound conn × KeepsRows job.disc_id job.slot U conn)

  not_used : (b : Bool) → none ≡ (if b then some job else none) → b ≡ false
  not_used b h = ground (arith, h)

  unused : (a b : Option ℕ) (c : Controller) → c ≡ C → IsUnused a b c → uses a b job ≡ false
  unused a b c e h =
      not_used (uses a b job)
        (subst (λ o. none ≡ if_used a b (job_of C o)) cur (subst (IsUnused a b) e h))

  Guarded-query :
      {A : Type 0} {P : Server → Type 0} {Q : Conn → Type 0} (q : Query A)
      → Keeps IsSound q
      → Spares job.disc_id job.slot U Q q
      → ((s : Server) → P s → (s.controller ≡ C) × (IsSound s.conn × Q s.conn))
      → Triple (On Guarded) P (query q) (λ _. On Guarded) (λ _. On Guarded)
  Guarded-query {P} q sound spares from = query_lem Guarded P q λ s p.
      (weaken_all {P' = λ c. IsSound c × _} (both_lem sound spares) (λ c h. h)
          (λ c h. ((from s p).0, h)) (λ a c h. ((from s p).0, h))
          (λ x c h. ((from s p).0, h))).holds
        s.conn (from s p).1

  still_busy : (new : Job) (runner : Runner) (c : Controller) → c ≡ C → (submit new runner c).1 ≡ C
  still_busy new runner c e =
      subst (λ c. (submit new runner c).1 ≡ C) (sym e)
        (ap (λ r. r.1)
          (subst (λ o. Refuses o new runner C (submit new runner C)) cur
            (submit_takes_one_job new runner C)))

  -- The row that the handler has, as the writes are told of it.
  Found-Unused :
      (id : ℕ) (s : Server) (disc : Disc)
      → Found Guarded id disc s
      → (s.controller ≡ C) × (IsSound s.conn × Unused job.disc_id job.slot U id disc s.conn)
  unfolding uses
  Found-Unused id s disc p = (
    p.0.0.0,
    (p.0.0.1.0, (p.0.0.1, p.0.1, unused (some id) (some disc.slot) s.controller p.0.0.0 p.1)),
  )

  new-Spare :
      (slot : ℕ) (s : Server)
      → On Guarded s × IsUnused none (some slot) s.controller
      → (s.controller ≡ C) × (IsSound s.conn × Spare job.disc_id job.slot U slot s.conn)
  unfolding uses
  new-Spare slot s p =
      (p.0.0, (p.0.1.0, (p.0.1.1, λ k. unused none (some slot) s.controller p.0.0 p.1)))

  Guarded-IsInvariant : IsInvariant Guarded
  unfolding submit_job
  Guarded-IsInvariant = record {
    on_reopen = λ c conn p. (p.0, ((p.1.0.1, p.1.0.1), (p.1.1.1, p.1.1.1)));
    on_clock = λ c conn now p. p;
    on_submit =
        λ new runner. record { holds = λ s p. (still_busy new runner s.controller p.0, p.1) };
    on_edit = λ id x e.
        Guarded-query _ (update_disc-IsSound id x) (update_disc_lem _ _ U id x e) (λ s p. p);
    on_delete = λ id disc.
        Guarded-query _ (delete_disc-IsSound id) (delete_disc_lem _ _ U id disc)
          (λ s p. Found-Unused id s disc p);
    on_out = λ id disc detail.
        Guarded-query _ (mark_out-IsSound id EventKind.manual detail)
          (mark_out_lem _ _ U id disc EventKind.manual detail) (λ s p. Found-Unused id s disc p);
    on_stored = λ id disc detail.
        Guarded-query _ (mark_stored-IsSound id EventKind.manual detail)
          (mark_stored_lem _ _ U id disc EventKind.manual detail) (λ s p. Found-Unused id s disc p);
    on_create = λ slot title.
        Guarded-query _ (create_disc-IsSound slot (titled title) EventKind.manual)
          (create_disc_lem _ _ U slot (titled title) EventKind.manual) (new-Spare slot);
  }

-- From a server on which a job is under way, whose connection has no transaction open, whose tables are
-- valid, and whose job names a disc of the catalogue or none: after every sequence of requests the
-- controller is as it was, so that no other job has been started, and so are the number, the slot and
-- the status of every row that has the job's disc or the job's slot; no row has come to it or gone.
pub requests_spare_the_job :
    (S : Sqlite) (ingest : Option (List ℕ) → Option (List ℕ) → Option Text → Ingested)
    (arrivals : List Arrival) (s : Server) (ref : ℕ)
    → current_job s.controller ≡ some ref
    → s.conn.live ≡ s.conn.saved
    → IsSound s.conn
    → refers (s.controller.job_at ref).disc_id s.conn.saved.discs ≡ true
    → ((serve S ingest arrivals s).controller ≡ s.controller)
      × (used_rows
            (s.controller.job_at ref).disc_id
            (s.controller.job_at ref).slot
            (serve S ingest arrivals s).conn.saved.discs
          ≡ used_rows
              (s.controller.job_at ref).disc_id
              (s.controller.job_at ref).slot
              s.conn.saved.discs)
requests_spare_the_job S ingest arrivals s ref cur same sound named =
    let x = (s.controller.job_at ref).disc_id in
    let y = (s.controller.job_at ref).slot in
    let U = used_rows x y s.conn.saved.discs in
    let kept =
      serve_lem (Guarded s.controller ref cur U) (Guarded-IsInvariant s.controller ref cur U) S
        ingest arrivals s
        (
          refl,
          (
            sound,
            (
              (ap (λ db. used_rows x y db.discs) same, ap (λ db. refers x db.discs) same ∙ named),
              (refl, named),
            ),
          ),
        ) in
    (kept.0, kept.1.1.1.0)
