-- ===== src/Controller/Run.antt =====
-- `_run_owned` and `_log_failure` of discstakka/device.py: whatever the runner does, the job ends.
-- `connect` is what `db.connect` does to the connection, up to SQLite.
use disc_stakka_web.Base.{ℕ, Bool, true, false, if◌then◌else◌, Option, none, some}
use disc_stakka_web.Effect.{
  Text, format, nil, text, error, Exc, not_connected, device_error, value_error, os_error,
  sqlite_error, art_error, other_error, Done, ◌>>=◌, ◌>>◌, pure, skip, modify, handle,
  any_exception,
}
use disc_stakka_web.Transport.{Transport}
use disc_stakka_web.Protocol.Handle.{Call}
use disc_stakka_web.Protocol.Connection.{open_unit}
use disc_stakka_web.Jobs
use disc_stakka_web.Catalog.Db.{EventKind, Query, log_event, commit, rollback}
use disc_stakka_web.Trace
use disc_stakka_web.Flows.{Shared, say, on_job, query, mark, no_result}

-- `str(exc)`
abbrev pub text_of : Exc → Text
text_of (not_connected t) = t
text_of (device_error t) = t
text_of (value_error t) = t
text_of os_error = say "OSError"
text_of sqlite_error = say "sqlite3.Error"
text_of (art_error t) = t
text_of other_error = say "Exception"

-- What the three `except` clauses say.
abbrev pub failure_text : Exc → Text
failure_text (not_connected t) = format "Lost the Disc Stakka: %s" (text t nil)
failure_text (device_error t) = t
failure_text e = format "Unexpected error: %s" (error e nil)

abbrev pub is_sqlite_error : Exc → Bool
is_sqlite_error sqlite_error = true
is_sqlite_error _ = false

-- `self._ds.trace = trace.status`
abbrev status_callback : ℕ → Shared → Shared
status_callback st j = record j { trace = Trace.record_status st j.trace }

module _ {W : Type 0} where
  -- `db.log_event(conn, "failed", job.disc_id, job.slot, str(exc))`
  unfoldable pub log_for_job : Exc → Call W Shared Done
  log_for_job e s =
      query (log_event EventKind.failed s.caller.job.disc_id s.caller.job.slot (some (text_of e))) s

  -- `_log_failure`; `connected` tells whether there is a connection yet.
  unfoldable pub log_failure : Bool → Exc → Call W Shared Done
  log_failure connected e =
      if connected
      then handle is_sqlite_error (do query rollback; log_for_job e; query commit) (λ _. skip)
      else skip

  unfoldable pub report_failure : Bool → Exc → Call W Shared Done
  report_failure connected e = do
    log_failure connected e
    on_job (Jobs.fail (failure_text e) no_result)

  unfoldable pub set_trace : Option (ℕ → Shared → Shared) → Call W Shared Done
  set_trace t = modify λ s. record s { trace = t }

  -- The connection is closed, if there is one: what is not committed is lost.
  unfoldable pub close_conn : Bool → Call W Shared Done
  close_conn connected = if connected then query rollback else skip

  -- `if not job.done: job.fail(…)`
  unfoldable pub end_job : Call W Shared Done
  end_job s =
      (if Jobs.finished s.caller.job
          then skip
          else on_job (Jobs.fail (say "Job ended without reporting a result") no_result))
        s

  -- The `finally` clause.
  unfoldable pub finish : Bool → Call W Shared Done
  finish connected = do set_trace none; mark (say "end"); close_conn connected; end_job

module _ {W : Type 0} (T : Transport W) (fuel : ℕ) (connect : Query Done) where
  -- The part of the `try` before there is a connection; `false` if it raised.
  unfoldable pub prepare : Call W Shared Bool
  prepare =
      handle any_exception
        (do open_unit T fuel 3; set_trace (some status_callback); query connect; pure true)
        (λ e. report_failure false e >> pure false)

  -- The `try` with its three clauses; whether there is a connection is returned.
  unfoldable pub guarded : Call W Shared Done → Call W Shared Bool
  guarded runner = do
    connected ← prepare
    if connected then handle any_exception runner (report_failure true) else skip
    pure connected

  unfoldable pub run_owned : Call W Shared Done → Call W Shared Done
  run_owned runner = do connected ← guarded runner; finish connected
