-- ===== src/Flows.antt =====
-- discstakka/flows.py: the runners of the hardware jobs. What the unit's callbacks and the runners
-- share with it is the job, the database connection and the trace.
pub mod Add
pub mod Eject
pub mod Holding
pub mod Kept
pub mod Load
pub mod Operations
pub mod Ending
pub mod Rotation
use disc_stakka_web.Base.{
  ℕ, zero, suc, ◌+◌, ltb, Bool, true, false, if◌then◌else◌, Option, none, some, String,
}
use disc_stakka_web.Effect.{
  Text, format, nil, num, str, text, error, Exc, Outcome, M, Done, ◌>>=◌, ◌>>◌, pure, skip,
  out_of_fuel, gets, modify, is_device_error, handle,
}
use disc_stakka_web.Slots.{slot_max}
use disc_stakka_web.Transport.{Transport}
use disc_stakka_web.Protocol.Packet.{insert_window_ms, take_window_ms}
use disc_stakka_web.Protocol.Handle.{DiscStakka, Call, Progress, now_ms}
use disc_stakka_web.Protocol.Waiting.{status}
use disc_stakka_web.Protocol.Moves.{
  reset, move_to, park, wait_for_insert, wait_for_take, disc_in_bay, ingest, retract,
}
use disc_stakka_web.Jobs
use disc_stakka_web.Jobs.{Job, Phase, JobResult}
use disc_stakka_web.Catalog.Db
use disc_stakka_web.Catalog.Db.{
  Conn, Disc, EventKind, Query, get_disc, log_event, commit, mark_out, mark_stored, create_disc,
  titled,
}
use disc_stakka_web.Trace
use disc_stakka_web.Trace.{Trace}

pub record Shared : Type 0 where
  pub job : Job
  pub conn : Conn
  pub trace : Trace

-- `job.note`
abbrev pub job_note : Progress Shared
job_note = some λ message j. record j { job = Jobs.note message j.job }

abbrev pub no_result : JobResult
no_result = record { disc_id = none; needs_details = false }

abbrev pub of_disc : ℕ → JobResult
of_disc id = record { disc_id = some id; needs_details = false }

abbrev pub say : String → Text
say s = format s nil

abbrev pub query_outcome :
    {W A : Type 0} → Outcome A × Conn → DiscStakka W Shared → Outcome A × DiscStakka W Shared
query_outcome r s = (r.0, record s { caller = record (s.caller) { conn = r.1 } })

module _ {W : Type 0} where
  -- A change of the job, and of the trace.
  unfoldable pub on_job : (Job → Job) → Call W Shared Done
  on_job f = modify λ s. record s { caller = record (s.caller) { job = f s.caller.job } }

  unfoldable pub on_trace : (Trace → Trace) → Call W Shared Done
  on_trace f = modify λ s. record s { caller = record (s.caller) { trace = f s.caller.trace } }

  unfoldable pub query : {A : Type 0} → Query A → Call W Shared A
  query q s = query_outcome (q s.caller.conn) s

  abbrev pub mark : Text → Call W Shared Done
  mark label = on_trace (Trace.mark label)

unfoldable pub set_phase : {W : Type 0} → Transport W → Phase → Text → ℕ → Call W Shared Done
set_phase T phase message window_ms = do
  now ← now_ms T
  on_job (Jobs.set_phase now phase message window_ms)

module _ {W : Type 0} (T : Transport W) (fuel : ℕ) where
  unfoldable pub run_reset : Call W Shared Done
  run_reset = do
    set_phase T Phase.moving (say "Resetting the unit...") 0
    reset T fuel job_note
    query (log_event EventKind.reset none none none)
    query commit
    on_job (Jobs.succeed (say "Unit reset. Carousel is at home.") no_result)

  -- The branch of `run_eject` for an empty bay.
  unfoldable pub eject_nothing : Disc → Call W Shared Done
  eject_nothing disc = do
    set_phase T Phase.parking (say "Nothing came out; returning to home...") 0
    mark (say "nothing in the bay")
    park T fuel none
    query (
        log_event EventKind.failed (some disc.id) (some disc.slot)
          (some (say "eject found no disc")))
    query commit
    on_job (
        Jobs.fail
          (format
            "Slot %d appears to be empty. If the disc is already out, open it and mark it as taken out."
            (num disc.slot nil))
          (of_disc disc.id))

  -- The handler of a `retract` that failed: it does not park.
  unfoldable pub retract_failed : Disc → Exc → Call W Shared Done
  retract_failed disc exc = do
    mark (format "retract failed: %s" (error exc nil))
    query (
        log_event EventKind.failed (some disc.id) (some disc.slot)
          (some (format "retract: %s" (error exc nil))))
    query commit
    on_job (
        Jobs.fail
          (format
            "The disc was not taken in time, and the unit could not put it back: %s. Take it from the bay, mark the disc as taken out, then Reset the unit."
            (error exc nil))
          (of_disc disc.id))

  -- After a `retract` that went well.
  unfoldable pub retracted : Disc → Bool → Call W Shared Done
  retracted disc acked = do
    mark (format "retract %s" (str (if acked then "acknowledged" else "not acknowledged") nil))
    park T fuel none
    query (log_event EventKind.retracted (some disc.id) (some disc.slot) none)
    query commit
    on_job (
        Jobs.fail
          (format
            "The disc was not taken in time, so the unit took it back towards slot %d. If you took it as it went in, open the disc and mark it as taken out."
            (num disc.slot nil))
          (of_disc disc.id))

  -- `try: acked = ds.retract(…)`, with `none` for the handler, which ends the runner.
  unfoldable pub try_retract : Disc → Call W Shared (Option Bool)
  try_retract disc =
      handle is_device_error (do acked ← retract T fuel job_note; pure (some acked))
        (λ exc. retract_failed disc exc >> pure none)

  unfoldable pub not_taken : Disc → Call W Shared Done
  not_taken disc = do
    set_phase T Phase.retracting (say "Not taken - putting it back...") 0
    mark (say "not taken; retracting")
    acked ← try_retract disc
    elim acked [ none ↦ skip | some a ↦ retracted disc a ]

  unfoldable pub taken : Disc → Call W Shared Done
  taken disc = do
    set_phase T Phase.parking (say "Returning to home...") 0
    mark (say "taken; returning to home")
    park T fuel none
    query (mark_out disc.id EventKind.ejected none)
    on_job (
        Jobs.succeed
          (format
            "A disc was taken from slot %d. The catalogue now lists %s as checked out and holds the slot for its return."
            (num disc.slot (text disc.title nil)))
          (of_disc disc.id))

  unfoldable pub present_disc : Disc → Call W Shared Done
  present_disc disc = do
    set_phase T Phase.presented (say "Take the disc from the unit.") take_window_ms
    mark (say "presented; waiting for it to be taken")
    gone ← wait_for_take T fuel
    if gone then taken disc else not_taken disc

  -- `run_eject` for a disc that the catalogue has; its number is `disc.id`.
  unfoldable pub eject_disc : Disc → Call W Shared Done
  eject_disc disc = do
    set_phase T Phase.moving (format "Fetching slot %d..." (num disc.slot nil)) 0
    mark (format "eject slot %d" (num disc.slot nil))
    move_to T fuel disc.slot true job_note
    out ← disc_in_bay T fuel
    if out then present_disc disc else eject_nothing disc

  unfoldable pub run_eject : ℕ → Call W Shared Done
  run_eject disc_id = do
    row ← query (get_disc disc_id)
    elim row [
      | none ↦ on_job (Jobs.fail (say "That disc is no longer in the catalogue.") no_result)
      | some disc ↦ eject_disc disc
    ]
