-- ===== src/Web/Hardware.antt =====
-- app.py: the requests that start a job (lines 302 to 361 and 433 to 435).
use disc_stakka_web.Base.{ℕ, Option, none, some}
use disc_stakka_web.Effect.{format, nil, num, text, ◌>>=◌, ◌>>◌, pure}
use disc_stakka_web.Flows.{say}
use disc_stakka_web.Jobs.{Job, Kind}
use disc_stakka_web.Catalog.Db.{Disc, Status, stored, out, get_disc, get_by_slot}
use disc_stakka_web.Catalog.Slots.{free_slots, next_free_slot}
use disc_stakka_web.Controller.Submit.{Runner, reset_runner, eject_runner, add_runner}
use disc_stakka_web.Web.{
  Web, Response, render, see_other, not_found, add_view, add_target, disc_target, FormInt,
  warn_flash, error_flash, flash, query, with_conn, make_job, start_job, form_slot,
}

-- What a handler has when it closes the connection: its answer, or the job to start.
pub data Planned : Type 0 where
  answer : Response → Planned
  plan : Job → Runner → Planned

abbrev pub carry_out : Planned → Web Response
carry_out (answer r) = pure r
carry_out (plan job runner) = start_job job runner

abbrev pub eject_stored : Status → ℕ → Disc → Web Planned
eject_stored out id disc =
    flash (warn_flash (say "That disc is already checked out."))
    >> pure (answer (see_other (disc_target id)))
eject_stored stored id disc = do
  job ←
      make_job Kind.eject (format "Eject %s (slot %d)" (text disc.title (num disc.slot nil)))
        (some id) (some disc.slot)
  pure (plan job (eject_runner id))

abbrev pub plan_eject : ℕ → Option Disc → Web Planned
plan_eject id none = pure (answer not_found)
plan_eject id (some disc) = eject_stored disc.status id disc

unfoldable pub disc_eject : ℕ → Web Response
disc_eject id = with_conn (query (get_disc id) >>= plan_eject id) >>= carry_out

abbrev pub return_out : Status → ℕ → Disc → Web Planned
return_out stored id disc =
    flash (warn_flash (say "That disc is not checked out."))
    >> pure (answer (see_other (disc_target id)))
return_out out id disc = do
  job ←
      make_job Kind.return (format "Return %s to slot %d" (text disc.title (num disc.slot nil)))
        (some id) (some disc.slot)
  pure (plan job (add_runner disc.slot (some id)))

abbrev pub plan_return : ℕ → Option Disc → Web Planned
plan_return id none = pure (answer not_found)
plan_return id (some disc) = return_out disc.status id disc

unfoldable pub disc_return : ℕ → Web Response
disc_return id = with_conn (query (get_disc id) >>= plan_return id) >>= carry_out

abbrev pub add_free : ℕ → Option Disc → Web Response
add_free slot (some disc) =
    flash (error_flash (format "Slot %d is already spoken for." (num slot nil)))
    >> pure (see_other add_target)
add_free slot none = do
  job ← make_job Kind.add (format "Load a disc into slot %d" (num slot nil)) none (some slot)
  start_job job (add_runner slot none)

abbrev pub add_slot : Option ℕ → Web Response
add_slot none = pure (see_other add_target)
add_slot (some slot) = query (get_by_slot slot) >>= add_free slot

-- A POST gives its field.
unfoldable pub add : Option FormInt → Web Response
add none = with_conn (do
  free ← query free_slots
  suggested ← query next_free_slot
  pure (render (add_view free suggested)))
add (some field) = with_conn (form_slot field >>= add_slot)

unfoldable pub device_reset : Web Response
device_reset = do
  job ← make_job Kind.reset (say "Reset the unit") none none
  start_job job reset_runner
