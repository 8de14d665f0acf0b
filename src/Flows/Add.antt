-- ===== src/Flows/Add.antt =====
-- `run_add` of discstakka/flows.py: load a disc into a slot, new or returning.
use disc_stakka_web.Base.{ℕ, zero, suc, ◌+◌, ltb, true, false, if◌then◌else◌, Option, none, some}
use disc_stakka_web.Effect.{
  Text, format, nil, num, text, error, Done, ◌>>=◌, ◌>>◌, pure, skip, out_of_fuel, is_device_error,
  handle,
}
use disc_stakka_web.Transport.{Transport}
use disc_stakka_web.Protocol.Packet.{insert_window_ms}
use disc_stakka_web.Protocol.Handle.{Call, now_ms}
use disc_stakka_web.Protocol.Waiting.{status}
use disc_stakka_web.Protocol.Moves.{move_to, park, wait_for_insert, ingest}
use disc_stakka_web.Jobs
use disc_stakka_web.Jobs.{Phase}
use disc_stakka_web.Catalog.Db.{
  Disc, EventKind, get_disc, log_event, commit, mark_stored, create_disc, titled,
}
use disc_stakka_web.Trace
use disc_stakka_web.Flows.{
  Shared, job_note, no_result, of_disc, say, on_job, on_trace, query, mark, set_phase,
}

-- `disc["title"] if disc else "Disc"`
abbrev title_or : Option Disc → Text
title_or none = say "Disc"
title_or (some d) = d.title

module _ {W : Type 0} (T : Transport W) (fuel : ℕ) where
  -- The branch in which no disc went in.
  unfoldable pub nothing_inserted : ℕ → Option ℕ → Call W Shared Done
  nothing_inserted slot disc_id = do
    set_phase T Phase.parking (say "Timed out; returning to home...") 0
    park T fuel none
    query (log_event EventKind.failed disc_id (some slot) (some (say "no disc inserted")))
    query commit
    on_job (Jobs.fail (say "No disc went in within 30 seconds. Nothing has changed.") no_result)

  -- The row that a load writes; the number of the disc is returned.
  unfoldable pub catalogue : ℕ → Option ℕ → Call W Shared ℕ
  catalogue slot none =
      query (
        create_disc slot (titled (format "Untitled disc (slot %d)" (num slot nil))) EventKind.added)
  catalogue slot (some id) = do query (mark_stored id EventKind.returned none); pure id

  -- The loop of the watch, which only records what the unit reports.
  unfoldable pub watch : ℕ → ℕ → Call W Shared Done
  watch zero deadline = out_of_fuel
  watch (suc rounds) deadline = do
    now ← now_ms T
    if ltb now deadline
        then (do st ← status T fuel; on_trace (Trace.record_status st); watch rounds deadline)
        else skip

  -- The `try` around it: losing the unit here is not a failure of the load.
  unfoldable pub watch_unit : Call W Shared Done
  watch_unit = do
    mark (say "parked; watching for 10s to see if it comes back out")
    now ← now_ms T
    handle is_device_error (watch fuel (now + 10_000))
        (λ exc. mark (format "lost the unit while watching: %s" (error exc nil)))

  unfoldable pub report_load : ℕ → Option ℕ → ℕ → Call W Shared Done
  report_load slot none id = on_job (
      Jobs.succeed (format "Disc loaded into slot %d. Now give it a name." (num slot nil))
        (record { disc_id = some id; needs_details = true }))
  report_load slot (some _) id = do
    row ← query (get_disc id)
    on_job (
        Jobs.succeed (format "%s is back in slot %d." (text (title_or row) (num slot nil)))
          (of_disc id))

  -- From the sight of a disc at the aperture on.
  unfoldable pub load : ℕ → Option ℕ → Call W Shared Done
  load slot disc_id = do
    set_phase T Phase.ingesting (say "Taking the disc in...") 0
    mark (say "disc seen; settling before 0x1D")
    ingest T fuel job_note
    mark (say "0x1D acknowledged")
    set_phase T Phase.parking (say "Returning to home...") 0
    park T fuel none
    id ← catalogue slot disc_id
    watch_unit
    report_load slot disc_id id

  unfoldable pub run_add : ℕ → Option ℕ → Call W Shared Done
  run_add slot disc_id = do
    set_phase T Phase.moving (format "Moving to slot %d..." (num slot nil)) 0
    mark (format "move to slot %d" (num slot nil))
    move_to T fuel slot false job_note
    set_phase T Phase.awaiting_insert (say "Insert the disc now.") insert_window_ms
    mark (say "awaiting insert (watching DISC_WAITING)")
    seen ← wait_for_insert T fuel
    if seen then load slot disc_id else nothing_inserted slot disc_id
