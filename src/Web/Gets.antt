-- ===== src/Web/Gets.antt =====
-- app.py: the requests that are not meant to change anything, which a browser may repeat at will.
use disc_stakka_web.Base.{
  ℕ, Bool, true, false, not, ◌&&◌, Option, none, some, List, ◌≡◌, refl, arith,
}
use disc_stakka_web.Effect.{Text}
use disc_stakka_web.Effect.Triple.{Keeps, bind_lem, pure_lem, weaken, final_lem}
use disc_stakka_web.Jobs.{Job}
use disc_stakka_web.Catalog.Db.{Db, Disc, Conn}
use disc_stakka_web.Catalog.Listing.{Sqlite}
use disc_stakka_web.Controller.Submit.{Controller}
use disc_stakka_web.Web.{Server}
use disc_stakka_web.Web.Edits.{
  DeleteForm, Ingested, edit_found, disc_edit, delete_confirmed, delete_unused, delete_found,
  disc_delete,
}
use disc_stakka_web.Web.Invariant.{
  Reopens, On, get_disc_lem, or_404_lem, job_using_lem, say-Keeps, with_conn-Keeps,
}
use disc_stakka_web.Web.Reads.{
  device_page-Keeps, device_reconnect-Keeps, index-Keeps, reconcile-Keeps, disc_page-Keeps,
  job_page-Keeps, job_json-Keeps, add_page-Keeps,
}
use disc_stakka_web.Web.Respond.{
  Request, get_index, get_disc_page, edit_request, delete_request, eject_request, return_request,
  add_request, get_job_page, get_job_json, reset_request, get_reconcile, manual_request,
  mark_out_request, mark_stored_request, get_device, reconnect_request, respond,
}

-- A GET, a delete that the confirmation form has not confirmed, and the handler of a reconnection, which
-- only tells how the call of the controller has ended.
abbrev pub is_read : Request → Bool
is_read (get_index args) = true
is_read (get_disc_page id) = true
is_read (edit_request id none) = true
is_read (delete_request id form) = not (form.is_post && form.confirmed)
is_read (add_request none) = true
is_read (get_job_page id polls) = true
is_read (get_job_json id) = true
is_read get_reconcile = true
is_read (get_device r) = true
is_read (reconnect_request r) = true
is_read _ = false

module _ (C : Controller) (D : Db) where
  -- The controller and what is committed.
  abbrev Same : Controller → Conn → Type 0
  Same c conn = (c ≡ C) × (conn.saved ≡ D)

  reopen : Reopens Same
  reopen c conn p = p

  edit_page-Keeps :
      (ingest : Option (List ℕ) → Option (List ℕ) → Option Text → Ingested) (id : ℕ)
      → Keeps (On Same) (disc_edit ingest id none)
  unfolding disc_edit
  edit_page-Keeps ingest id = with_conn-Keeps Same reopen (
      bind_lem (get_disc_lem Same id)
        λ row. or_404_lem Same id row (edit_found ingest id none) (λ disc. pure_lem _ (λ s p. p.0)))

  delete_unused-Keeps :
      (job : Option Job) (id : ℕ) (form : DeleteForm) (disc : Disc)
      → not (form.is_post && form.confirmed) ≡ true
      → Keeps (On Same) (delete_unused job id form disc)
  delete_unused-Keeps (some job) id form disc h = say-Keeps Same _ _
  delete_unused-Keeps none id form disc h = by_answer (form.is_post && form.confirmed) h
    where
      by_answer :
          (b : Bool) → not b ≡ true → Keeps (On Same) (delete_confirmed b id form.from_list disc)
      by_answer true e = absurd (ground (arith, e))
      by_answer false e = pure_lem _ (λ s p. p)

  delete_page-Keeps :
      (id : ℕ) (form : DeleteForm)
      → not (form.is_post && form.confirmed) ≡ true
      → Keeps (On Same) (disc_delete id form)
  unfolding disc_delete
  delete_page-Keeps id form h = with_conn-Keeps Same reopen (
      bind_lem (get_disc_lem Same id) λ row. or_404_lem Same id row (delete_found id form) λ disc.
        bind_lem (job_using_lem Same _ (some id) (some disc.slot)) λ job.
          weaken (delete_unused-Keeps job id form disc h) (λ s p. p.0.0) (λ _ s p. p) (λ _ s p. p))

  respond-Same :
      (S : Sqlite) (ingest : Option (List ℕ) → Option (List ℕ) → Option Text → Ingested)
      (request : Request)
      → is_read request ≡ true
      → Keeps (On Same) (respond S ingest request)
  unfolding respond
  respond-Same S ingest (get_index args) h = index-Keeps Same reopen S args
  respond-Same S ingest (get_disc_page id) h = disc_page-Keeps Same reopen id
  respond-Same S ingest (edit_request id none) h = edit_page-Keeps ingest id
  respond-Same S ingest (edit_request id (some form)) h = absurd (ground (arith, h))
  respond-Same S ingest (delete_request id form) h = delete_page-Keeps id form h
  respond-Same S ingest (eject_request id) h = absurd (ground (arith, h))
  respond-Same S ingest (return_request id) h = absurd (ground (arith, h))
  respond-Same S ingest (add_request none) h = add_page-Keeps Same reopen
  respond-Same S ingest (add_request (some field)) h = absurd (ground (arith, h))
  respond-Same S ingest (get_job_page id polls) h = job_page-Keeps Same reopen id polls
  respond-Same S ingest (get_job_json id) h = job_json-Keeps Same reopen id
  respond-Same S ingest reset_request h = absurd (ground (arith, h))
  respond-Same S ingest get_reconcile h = reconcile-Keeps Same reopen S
  respond-Same S ingest (manual_request field title) h = absurd (ground (arith, h))
  respond-Same S ingest (mark_out_request id) h = absurd (ground (arith, h))
  respond-Same S ingest (mark_stored_request id) h = absurd (ground (arith, h))
  respond-Same S ingest (get_device r) h = device_page-Keeps Same reopen r
  respond-Same S ingest (reconnect_request r) h = device_reconnect-Keeps Same reopen r

-- A request that reads - a page, the form of an edit or of an addition, the JSON view, the report of a
-- reconnection, or a delete that is no POST with the confirmation - leaves what is committed in the
-- catalogue and the controller's jobs as they were, however it ends: it starts no job.
pub reads_change_nothing :
    (S : Sqlite) (ingest : Option (List ℕ) → Option (List ℕ) → Option Text → Ingested)
    (request : Request) (s : Server)
    → is_read request ≡ true
    → ((respond S ingest request s).1.controller ≡ s.controller)
      × ((respond S ingest request s).1.conn.saved ≡ s.conn.saved)
reads_change_nothing S ingest request s h =
    final_lem (respond-Same s.controller s.conn.saved S ingest request h) s (refl, refl)
