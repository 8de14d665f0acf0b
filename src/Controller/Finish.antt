-- ===== src/Controller/Finish.antt =====
-- However a job goes, the worker reports its end.
use disc_stakka_web.Base.{ℕ, Bool, true, false, if◌then◌else◌, Option, none, ◌≡◌, ◌≢◌, refl, arith}
use disc_stakka_web.Effect.{Text, Exc, Outcome, ok, raised, running, Done, skip, any_exception}
use disc_stakka_web.Effect.Triple.{
  Triple, After, bind_lem, handle_lem, pure_lem, skip_lem, if_lem, weaken,
}
use disc_stakka_web.Transport.{Transport}
use disc_stakka_web.Protocol.Handle.{DiscStakka, Call}
use disc_stakka_web.Protocol.Connection.{open_unit}
use disc_stakka_web.Jobs
use disc_stakka_web.Jobs.{Job, JobResult}
use disc_stakka_web.Catalog.Db.{Conn, EventKind, Query, log_event, commit, rollback}
use disc_stakka_web.Flows.{Shared, query, query_outcome, on_job, on_trace}
use disc_stakka_web.Trace.{Trace}
use disc_stakka_web.Flows.Kept.{IsTotal}
use disc_stakka_web.Controller.Run.{
  is_sqlite_error, log_for_job, log_failure, report_failure, set_trace, close_conn, end_job, finish,
  prepare, guarded, run_owned,
}

-- A query that raises nothing but an error of the database.
abbrev OnlySqlite : {A : Type 0} → Outcome A → Type 0
OnlySqlite (ok a) = Unit
OnlySqlite (raised e) = is_sqlite_error e ≡ true
OnlySqlite running = ⊥

log_event-OnlySqlite :
    (kind : EventKind) (disc_id slot : Option ℕ) (detail : Option Text) (c : Conn)
    → OnlySqlite (log_event kind disc_id slot detail c).0
unfolding log_event
log_event-OnlySqlite kind disc_id slot detail c = ground arith

-- What the worker does to the unit: nothing but what the opening and the runner do to it.
pub record Untouched {W : Type 0} (I : DiscStakka W Shared → Type 0) : Type 0 where
  pub caller_keeps : (s : DiscStakka W Shared) (j : Shared) → I s → I (record s { caller = j })
  pub trace_keeps :
      (s : DiscStakka W Shared) (t : Option (ℕ → Shared → Shared))
      → I s
      → I (record s { trace = t })

module _ {W : Type 0} (B I : DiscStakka W Shared → Type 0) (un : Untouched I) where
  -- The call keeps `I` and raises nothing.
  abbrev pub Quietly : {A : Type 0} → Call W Shared A → Type 0
  Quietly m = Triple B I m (λ _. I) (λ _ _. ⊥)

  abbrev Sqlite : {A : Type 0} → Call W Shared A → Type 0
  Sqlite m = Triple B I m (λ _. I) (λ e s. (is_sqlite_error e ≡ true) × I s)

  After-query :
      {A : Type 0} (r : Outcome A) (c : Conn) (s : DiscStakka W Shared)
      → OnlySqlite r
      → I s
      → After B
          (λ (_ : A). I)
          (λ e s'. (is_sqlite_error e ≡ true) × I s')
          (query_outcome (r, c) s).0
          (query_outcome (r, c) s).1
  After-query (ok a) c s o p = un.caller_keeps s _ p
  After-query (raised e) c s o p = (o, un.caller_keeps s _ p)
  After-query running c s o p = absurd o

  rollback-Quietly : Quietly (query rollback)
  unfolding query rollback
  rollback-Quietly = record { holds = λ s p. un.caller_keeps s _ p }

  commit-Sqlite : Sqlite (query commit)
  unfolding query commit
  commit-Sqlite = record { holds = λ s p. un.caller_keeps s _ p }

  log_for_job-Sqlite : (e : Exc) → Sqlite (log_for_job e)
  unfolding log_for_job query
  log_for_job-Sqlite e = record {
    holds = λ s p. After-query _ _ s (log_event-OnlySqlite _ _ _ _ s.caller.conn) p;
  }

  on_job-Quietly : (f : Job → Job) → Quietly (on_job f)
  unfolding on_job
  on_job-Quietly f = record { holds = λ s p. un.caller_keeps s _ p }

  log_failure-Quietly : (connected : Bool) (e : Exc) → Quietly (log_failure connected e)
  unfolding log_failure
  log_failure-Quietly connected e =
      if_lem connected
        (λ _.
          handle_lem is_sqlite_error _
            (bind_lem (weaken rollback-Quietly (λ s p. p) (λ a s p. p) (λ e s p. absurd p))
              λ _. bind_lem (log_for_job-Sqlite e) (λ _. commit-Sqlite))
            (λ e c. skip_lem (λ s p. p.1)) (λ e s c p. ground (arith, p.0)))
        (λ _. skip_lem (λ s p. p))

  report_failure-Quietly : (connected : Bool) (e : Exc) → Quietly (report_failure connected e)
  unfolding report_failure
  report_failure-Quietly connected e =
      bind_lem (log_failure-Quietly connected e) (λ _. on_job-Quietly _)

  set_trace-Quietly : (t : Option (ℕ → Shared → Shared)) → Quietly (set_trace t)
  unfolding set_trace
  set_trace-Quietly t = record { holds = λ s p. un.trace_keeps s t p }

  -- `I`, whether the call returns or raises.
  abbrev Keeping : {A : Type 0} → Call W Shared A → Type 0
  Keeping m = Triple B I m (λ _. I) (λ _. I)

  After-connected :
      (r : Outcome Done) (s : DiscStakka W Shared)
      → r ≢ running
      → I s
      → After B (λ _. I) (λ _. I) r s
  After-connected (ok a) s t p = p
  After-connected (raised e) s t p = p
  After-connected running s t p = absurd (t refl)

  connect-Keeping : (connect : Query Done) → IsTotal connect → Keeping (query connect)
  unfolding query
  connect-Keeping connect total = record {
    holds = λ s p.
        After-connected (connect s.caller.conn).0 _ (total s.caller.conn) (un.caller_keeps s _ p);
  }

  module _ (T : Transport W) (fuel : ℕ) (connect : Query Done) where
    prepare-Quietly :
        IsTotal connect → Keeping (open_unit T fuel 3) → Quietly (prepare T fuel connect)
    unfolding prepare
    prepare-Quietly total opening =
        handle_lem any_exception _
          (bind_lem opening λ _.
            bind_lem (weaken (set_trace-Quietly _) (λ s p. p) (λ a s p. p) (λ e s p. absurd p))
              λ _. bind_lem (connect-Keeping connect total) (λ _. pure_lem _ (λ s p. p)))
          (λ e c. bind_lem (report_failure-Quietly false e) (λ _. pure_lem _ (λ s p. p)))
          (λ e s c p. ground arith)

    guarded-Quietly :
        (runner : Call W Shared Done)
        → IsTotal connect
        → Keeping (open_unit T fuel 3)
        → Keeping runner
        → Quietly (guarded T fuel connect runner)
    unfolding guarded
    guarded-Quietly runner total opening run = bind_lem (prepare-Quietly total opening) λ connected.
        bind_lem
          (if_lem connected
            (λ _.
              handle_lem any_exception _ run (λ e c. report_failure-Quietly true e)
                (λ e s c p. ground arith))
            (λ _. skip_lem (λ s p. p)))
          (λ _. pure_lem _ (λ s p. p))

  -- The job is over and the trace is off.
  abbrev IsOver : DiscStakka W Shared → Type 0
  IsOver s = (Jobs.finished s.caller.job ≡ true) × (s.trace ≡ none) × I s

  abbrev IsOff : DiscStakka W Shared → Type 0
  IsOff s = (s.trace ≡ none) × I s

  clear_trace-IsOff : Triple B I (set_trace none) (λ _. IsOff) (λ _ _. ⊥)
  unfolding set_trace
  clear_trace-IsOff = record { holds = λ s p. (refl, un.trace_keeps s none p) }

  on_trace-IsOff : (f : Trace → Trace) → Triple B IsOff (on_trace f) (λ _. IsOff) (λ _ _. ⊥)
  unfolding on_trace
  on_trace-IsOff f = record { holds = λ s p. (p.0, un.caller_keeps s _ p.1) }

  close_conn-IsOff :
      (connected : Bool) → Triple B IsOff (close_conn connected) (λ _. IsOff) (λ _ _. ⊥)
  unfolding close_conn query rollback
  close_conn-IsOff connected =
      if_lem connected (λ _. record { holds = λ s p. (p.0, un.caller_keeps s _ p.1) })
        (λ _. skip_lem (λ s p. p))

  unless_finished :
      (b : Bool) (message : Text) (result : JobResult) (s : DiscStakka W Shared)
      → Jobs.finished s.caller.job ≡ b
      → IsOff s
      → After B
          (λ _. IsOver)
          (λ _ _. ⊥)
          ((if b then skip else on_job (Jobs.fail message result)) s).0
          ((if b then skip else on_job (Jobs.fail message result)) s).1
  unfolding on_job Jobs.fail Jobs.finished
  unless_finished true message result s e p = (e, p.0, p.1)
  unless_finished false message result s e p = (refl, p.0, un.caller_keeps s _ p.1)

  end_job-IsOver : Triple B IsOff end_job (λ _. IsOver) (λ _ _. ⊥)
  unfolding end_job
  end_job-IsOver = record {
    holds = λ s p. unless_finished (Jobs.finished s.caller.job) _ _ s refl p;
  }

  finish-IsOver : (connected : Bool) → Triple B I (finish connected) (λ _. IsOver) (λ _ _. ⊥)
  unfolding finish
  finish-IsOver connected = bind_lem clear_trace-IsOff λ _.
      bind_lem (on_trace-IsOff _) λ _. bind_lem (close_conn-IsOff connected) (λ _. end_job-IsOver)

  pub run_owned-IsOver :
      (T : Transport W) (fuel : ℕ) (connect : Query Done) (runner : Call W Shared Done)
      → IsTotal connect
      → Keeping (open_unit T fuel 3)
      → Keeping runner
      → Triple B I (run_owned T fuel connect runner) (λ _. IsOver) (λ _ _. ⊥)
  unfolding run_owned
  run_owned-IsOver T fuel connect runner total opening run =
      bind_lem (guarded-Quietly T fuel connect runner total opening run) finish-IsOver
