-- ===== src/Web/Respond.antt =====
-- app.py: the routes, and a sequence of requests. A request comes with the readings of the clocks at
-- which it is served, and one to the device with how its call of the controller ended; what a handler raises is answered by Flask, and the next request is served.
use disc_stakka_web.Base.{ℕ, Bool, Option, List, [], ◌∷◌}
use disc_stakka_web.Effect.{Text, Outcome, Done}
use disc_stakka_web.Jobs.{JobId}
use disc_stakka_web.Catalog.Listing.{Sqlite}
use disc_stakka_web.Web.{Web, Server, Response, FormInt}
use disc_stakka_web.Controller.Claims.{Claimed, Probe}
use disc_stakka_web.Web.Device.{device_page, device_reconnect}
use disc_stakka_web.Web.Pages.{IndexArgs, index, reconcile, disc_page, job_page, job_json}
use disc_stakka_web.Web.Edits.{
  EditForm, DeleteForm, Ingested, disc_edit, disc_delete, reconcile_manual, disc_mark_out,
  disc_mark_stored,
}
use disc_stakka_web.Web.Hardware.{disc_eject, disc_return, add, device_reset}

pub data Request : Type 0 where
  get_index : IndexArgs → Request
  get_disc_page : ℕ → Request
  edit_request : ℕ → Option EditForm → Request
  delete_request : ℕ → DeleteForm → Request
  eject_request : ℕ → Request
  return_request : ℕ → Request
  add_request : Option FormInt → Request
  get_job_page : JobId → Bool → Request
  get_job_json : JobId → Request
  reset_request : Request
  get_reconcile : Request
  manual_request : FormInt → Option (List ℕ) → Request
  mark_out_request : ℕ → Request
  mark_stored_request : ℕ → Request
  get_device : Outcome (Claimed Probe) → Request
  reconnect_request : Outcome (Claimed Done) → Request

pub record Arrival : Type 0 where
  pub request : Request
  pub now_ms : ℕ
  pub second : ℕ
  pub now : ℕ

unfoldable pub at_time : Arrival → Server → Server
at_time a s = record s {
  now_ms = a.now_ms;
  second = a.second;
  conn = record (s.conn) { now = a.now };
}

module _ (S : Sqlite) (ingest : Option (List ℕ) → Option (List ℕ) → Option Text → Ingested) where
  unfoldable pub respond : Request → Web Response
  respond (get_index args) = index S args
  respond (get_disc_page id) = disc_page id
  respond (edit_request id form) = disc_edit ingest id form
  respond (delete_request id form) = disc_delete id form
  respond (eject_request id) = disc_eject id
  respond (return_request id) = disc_return id
  respond (add_request field) = add field
  respond (get_job_page id polls) = job_page id polls
  respond (get_job_json id) = job_json id
  respond reset_request = device_reset
  respond get_reconcile = reconcile S
  respond (manual_request field title) = reconcile_manual field title
  respond (mark_out_request id) = disc_mark_out id
  respond (mark_stored_request id) = disc_mark_stored id
  respond (get_device r) = device_page r
  respond (reconnect_request r) = device_reconnect r

  -- The state after a list of requests.
  unfoldable pub serve : List Arrival → Server → Server
  serve [] s = s
  serve (a ∷ rest) s = serve rest (respond a.request (at_time a s)).1
