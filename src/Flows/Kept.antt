-- ===== src/Flows/Kept.antt =====
-- What every operation on the unit keeps is kept by the flows: here the flows are composed once, for
-- predicates that do not mention the job, the catalogue and the trace.
use disc_stakka_web.Base.{ℕ, Bool, true, false, Option, none, some, ◌≢◌, refl, arith}
use disc_stakka_web.Effect.{Text, Outcome, ok, raised, running, ◌>>=◌, is_device_error}
use disc_stakka_web.Effect.Triple.{Triple, After, bind_lem, handle_lem, pure_lem, skip_lem, if_lem}
use disc_stakka_web.Transport.{Transport}
use disc_stakka_web.Protocol.Handle.{DiscStakka, Call, now_ms}
use disc_stakka_web.Protocol.Moves.{
  reset, move_to, park, wait_for_insert, wait_for_take, disc_in_bay, ingest, retract,
}
use disc_stakka_web.Jobs.{Job, Phase}
use disc_stakka_web.Trace.{Trace}
use disc_stakka_web.Catalog.Db.{
  Disc, Conn, Query, EventKind, Details, get_disc, log_event, commit, update_rows, mark_out,
  mark_stored, create_disc, insert_disc,
}
use disc_stakka_web.Flows.{
  Shared, job_note, query, on_job, on_trace, set_phase, run_reset, eject_nothing, retract_failed,
  retracted, try_retract, not_taken, taken, present_disc, eject_disc, run_eject,
}
use disc_stakka_web.Flows.Add.{nothing_inserted, catalogue, watch_unit, report_load, load, run_add}

-- A query gives a result.
abbrev pub IsTotal : {A : Type 0} → Query A → Type 0
IsTotal m = (c : Conn) → (m c).0 ≢ running

get_disc-IsTotal : (id : ℕ) → IsTotal (get_disc id)
unfolding get_disc
get_disc-IsTotal id c = ground arith

log_event-IsTotal :
    (kind : EventKind) (disc_id slot : Option ℕ) (detail : Option Text)
    → IsTotal (log_event kind disc_id slot detail)
unfolding log_event
log_event-IsTotal kind disc_id slot detail c = ground arith

commit-IsTotal : IsTotal commit
unfolding commit
commit-IsTotal c = ground arith

mark_out-IsTotal :
    (id : ℕ) (kind : EventKind) (detail : Option Text) → IsTotal (mark_out id kind detail)
unfolding mark_out update_rows get_disc log_event
mark_out-IsTotal id kind detail c = ground arith

mark_stored-IsTotal :
    (id : ℕ) (kind : EventKind) (detail : Option Text) → IsTotal (mark_stored id kind detail)
unfolding mark_stored update_rows get_disc log_event
mark_stored-IsTotal id kind detail c = ground arith

create_disc-IsTotal :
    (slot : ℕ) (x : Details) (kind : EventKind) → IsTotal (create_disc slot x kind)
unfolding create_disc insert_disc log_event
create_disc-IsTotal slot x kind c = ground arith

-- The operations that the flows call keep `I`; `B` holds if the fuel runs out in one of them.
pub record Operated {W : Type 0} (T : Transport W) (fuel : ℕ) (B I : DiscStakka W Shared → Type 0)
    : Type 0 where
  pub caller_keeps : (s : DiscStakka W Shared) (j : Shared) → I s → I (record s { caller = j })
  pub reset_keeps : Triple B I (reset T fuel job_note) (λ _. I) (λ _. I)
  pub move_keeps :
      (slot : ℕ) (eject : Bool) → Triple B I (move_to T fuel slot eject job_note) (λ _. I) (λ _. I)
  pub park_keeps : Triple B I (park T fuel none) (λ _. I) (λ _. I)
  pub insert_keeps : Triple B I (wait_for_insert T fuel) (λ _. I) (λ _. I)
  pub take_keeps : Triple B I (wait_for_take T fuel) (λ _. I) (λ _. I)
  pub bay_keeps : Triple B I (disc_in_bay T fuel) (λ _. I) (λ _. I)
  pub ingest_keeps : Triple B I (ingest T fuel job_note) (λ _. I) (λ _. I)
  pub retract_keeps : Triple B I (retract T fuel job_note) (λ _. I) (λ _. I)
  pub watch_keeps : Triple B I (watch_unit T fuel) (λ _. I) (λ _. I)

module _ {W : Type 0} {T : Transport W} {fuel : ℕ} {B I : DiscStakka W Shared → Type 0}
    (ops : Operated T fuel B I) where
  abbrev pub Stays : {A : Type 0} → Call W Shared A → Type 0
  Stays m = Triple B I m (λ _. I) (λ _. I)

  on_job-Stays : (f : Job → Job) → Stays (on_job f)
  unfolding on_job
  on_job-Stays f = record { holds = λ s p. ops.caller_keeps s _ p }

  pub on_trace-Stays : (f : Trace → Trace) → Stays (on_trace f)
  unfolding on_trace
  on_trace-Stays f = record { holds = λ s p. ops.caller_keeps s _ p }

  set_phase-Stays :
      (phase : Phase) (message : Text) (window : ℕ) → Stays (set_phase T phase message window)
  unfolding set_phase now_ms on_job
  set_phase-Stays phase message window = record { holds = λ s p. ops.caller_keeps s _ p }

  After-total :
      {A : Type 0} (r : Outcome A) (s : DiscStakka W Shared)
      → r ≢ running
      → I s
      → After B (λ (_ : A). I) (λ _. I) r s
  After-total (ok a) s t p = p
  After-total (raised e) s t p = p
  After-total running s t p = absurd (t refl)

  query-Stays : {A : Type 0} (m : Query A) → IsTotal m → Stays (query m)
  unfolding query
  query-Stays m t = record {
    holds = λ s p. After-total (m s.caller.conn).0 _ (t s.caller.conn) (ops.caller_keeps s _ p);
  }

  -- The end of a flow that logs, commits and then ends the job.
  log_and_end-Stays :
      (kind : EventKind) (disc_id slot : Option ℕ) (detail : Option Text) (f : Job → Job)
      → Stays (query (log_event kind disc_id slot detail) >>= λ _. query commit >>= λ _. on_job f)
  log_and_end-Stays kind disc_id slot detail f =
      bind_lem (query-Stays _ (log_event-IsTotal _ _ _ _))
        λ _. bind_lem (query-Stays _ commit-IsTotal) (λ _. on_job-Stays f)

  pub run_reset-Stays : Stays (run_reset T fuel)
  unfolding run_reset
  run_reset-Stays =
      bind_lem (set_phase-Stays _ _ _)
        λ _. bind_lem ops.reset_keeps (λ _. log_and_end-Stays _ _ _ _ _)

  eject_nothing-Stays : (disc : Disc) → Stays (eject_nothing T fuel disc)
  unfolding eject_nothing
  eject_nothing-Stays disc = bind_lem (set_phase-Stays _ _ _) λ _.
      bind_lem (on_trace-Stays _) λ _. bind_lem ops.park_keeps (λ _. log_and_end-Stays _ _ _ _ _)

  try_retract-Stays : (disc : Disc) → Stays (try_retract T fuel disc)
  unfolding try_retract retract_failed
  try_retract-Stays disc =
      handle_lem is_device_error _ (bind_lem ops.retract_keeps (λ acked. pure_lem _ (λ s p. p)))
        (λ e c.
          bind_lem (bind_lem (on_trace-Stays _) (λ _. log_and_end-Stays _ _ _ _ _))
            (λ _. pure_lem _ (λ s p. p)))
        (λ e s c p. p)

  not_taken-Stays : (disc : Disc) → Stays (not_taken T fuel disc)
  unfolding not_taken retracted
  not_taken-Stays disc = bind_lem (set_phase-Stays _ _ _) λ _. bind_lem (on_trace-Stays _) λ _.
      bind_lem (try_retract-Stays disc) (elim [
        | none ↦ skip_lem (λ s p. p)
        | some a ↦
            bind_lem (on_trace-Stays _)
              λ _. bind_lem ops.park_keeps (λ _. log_and_end-Stays _ _ _ _ _)
      ])

  taken-Stays : (disc : Disc) → Stays (taken T fuel disc)
  unfolding taken
  taken-Stays disc = bind_lem (set_phase-Stays _ _ _) λ _. bind_lem (on_trace-Stays _) λ _.
      bind_lem ops.park_keeps
        λ _. bind_lem (query-Stays _ (mark_out-IsTotal _ _ _)) (λ _. on_job-Stays _)

  eject_disc-Stays : (disc : Disc) → Stays (eject_disc T fuel disc)
  unfolding eject_disc present_disc
  eject_disc-Stays disc = bind_lem (set_phase-Stays _ _ _) λ _. bind_lem (on_trace-Stays _) λ _.
      bind_lem (ops.move_keeps disc.slot true) λ _. bind_lem ops.bay_keeps λ present.
        if_lem present
          (λ _. bind_lem (set_phase-Stays _ _ _) λ _. bind_lem (on_trace-Stays _) λ _.
            bind_lem ops.take_keeps
              λ gone. if_lem gone (λ _. taken-Stays disc) (λ _. not_taken-Stays disc))
          (λ _. eject_nothing-Stays disc)

  pub run_eject-Stays : (id : ℕ) → Stays (run_eject T fuel id)
  unfolding run_eject
  run_eject-Stays id =
      bind_lem (query-Stays _ (get_disc-IsTotal id))
        (elim [ none ↦ on_job-Stays _ | some disc ↦ eject_disc-Stays disc ])

  catalogue-Stays : (slot : ℕ) (disc_id : Option ℕ) → Stays (catalogue T fuel slot disc_id)
  unfolding catalogue
  catalogue-Stays slot none = query-Stays _ (create_disc-IsTotal _ _ _)
  catalogue-Stays slot (some id) =
      bind_lem (query-Stays _ (mark_stored-IsTotal _ _ _)) (λ _. pure_lem _ (λ s p. p))

  report_load-Stays :
      (slot : ℕ) (disc_id : Option ℕ) (id : ℕ) → Stays (report_load T fuel slot disc_id id)
  unfolding report_load
  report_load-Stays slot none id = on_job-Stays _
  report_load-Stays slot (some k) id =
      bind_lem (query-Stays _ (get_disc-IsTotal id)) (λ row. on_job-Stays _)

  load-Stays : (slot : ℕ) (disc_id : Option ℕ) → Stays (load T fuel slot disc_id)
  unfolding load
  load-Stays slot disc_id = bind_lem (set_phase-Stays _ _ _) λ _. bind_lem (on_trace-Stays _) λ _.
      bind_lem ops.ingest_keeps λ _. bind_lem (on_trace-Stays _) λ _.
        bind_lem (set_phase-Stays _ _ _) λ _. bind_lem ops.park_keeps λ _.
          bind_lem (catalogue-Stays slot disc_id)
            λ id. bind_lem ops.watch_keeps (λ _. report_load-Stays slot disc_id id)

  pub run_add-Stays : (slot : ℕ) (disc_id : Option ℕ) → Stays (run_add T fuel slot disc_id)
  unfolding run_add nothing_inserted
  run_add-Stays slot disc_id = bind_lem (set_phase-Stays _ _ _) λ _.
      bind_lem (on_trace-Stays _) λ _. bind_lem (ops.move_keeps slot false) λ _.
        bind_lem (set_phase-Stays _ _ _) λ _. bind_lem (on_trace-Stays _) λ _.
          bind_lem ops.insert_keeps λ seen.
            if_lem seen (λ _. load-Stays slot disc_id)
              (λ _.
                bind_lem (set_phase-Stays _ _ _)
                  λ _. bind_lem ops.park_keeps (λ _. log_and_end-Stays _ _ _ _ _))
