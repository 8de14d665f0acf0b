-- ===== src/Web/Writes.antt =====
-- app.py: the requests that write the catalogue, and so all requests, keep
-- what the writes keep.
use disc_stakka_web.Base.{ℕ, Bool, true, false, ◌&&◌, Option, none, some, List, [], ◌∷◌, ◌≡◌, refl}
use disc_stakka_web.Effect.{Text, chars}
use disc_stakka_web.Effect.Triple.{Triple, Keeps, bind_lem, pure_lem, weaken, final_lem}
use disc_stakka_web.Jobs.{Job}
use disc_stakka_web.Catalog.Db.{Disc, Status, stored, out, Conn, find_disc}
use disc_stakka_web.Catalog.Listing.{Sqlite}
use disc_stakka_web.Controller.Submit.{Controller, current_job}
use disc_stakka_web.Web.{Web, Server, Response, FormInt, flash, stripped, if_used, job_of}
use disc_stakka_web.Web.Invariant.{
  IsInvariant, On, Found, flash-Keeps, get_disc_lem, get_by_slot-Keeps, or_404_lem, job_using_lem,
  say-Keeps, form_slot-Keeps, with_conn-Keeps,
}
use disc_stakka_web.Web.Reads.{
  device_page-Keeps, device_reconnect-Keeps, index-Keeps, reconcile-Keeps, disc_page-Keeps,
  job_page-Keeps, job_json-Keeps, disc_eject-Keeps, disc_return-Keeps, add-Keeps,
  device_reset-Keeps,
}
use disc_stakka_web.Web.Edits.{
  EditForm, DeleteForm, Ingested, stem, refused, fields, save, edit_titled, edit_found, disc_edit,
  remove_art, busy_with, delete_confirmed, delete_unused, delete_found, disc_delete, record_in,
  record_free, record_titled, record_slot, reconcile_manual, correct_status, correct_unused,
  correct_found, correct, disc_mark_out, disc_mark_stored,
}
use disc_stakka_web.Web.Respond.{
  Request, get_index, get_disc_page, edit_request, delete_request, eject_request, return_request,
  add_request, get_job_page, get_job_json, reset_request, get_reconcile, manual_request,
  mark_out_request, mark_stored_request, get_device, reconnect_request, Arrival, respond, serve,
  at_time,
}

module _ (J : Controller → Conn → Type 0) (inv : IsInvariant J) where
  save-Keeps :
      (id : ℕ) (form : EditForm) (disc : Disc) (r : Ingested) → Keeps (On J) (save id form disc r)
  unfolding fields
  save-Keeps id form disc (refused reason) = say-Keeps J _ _
  save-Keeps id form disc (stem path) =
      bind_lem (inv.on_edit id (fields form path) refl) (λ _. say-Keeps J _ _)

  module _ (ingest : Option (List ℕ) → Option (List ℕ) → Option Text → Ingested) where
    edit_titled-Keeps :
        (title : List ℕ) (id : ℕ) (form : EditForm) (disc : Disc)
        → Keeps (On J) (edit_titled ingest title id form disc)
    edit_titled-Keeps [] id form disc = say-Keeps J _ _
    edit_titled-Keeps (c ∷ cs) id form disc =
        save-Keeps id form disc (ingest form.art_file form.art_url disc.art_path)

    edit_found-Keeps :
        (id : ℕ) (form : Option EditForm) (disc : Disc)
        → Keeps (On J) (edit_found ingest id form disc)
    edit_found-Keeps id none disc = pure_lem _ (λ s p. p)
    edit_found-Keeps id (some form) disc = edit_titled-Keeps (stripped form.title) id form disc

    disc_edit-Keeps : (id : ℕ) (form : Option EditForm) → Keeps (On J) (disc_edit ingest id form)
    unfolding disc_edit
    disc_edit-Keeps id form = with_conn-Keeps J inv.on_reopen (
        bind_lem (get_disc_lem J id) λ row.
          or_404_lem J id row (edit_found ingest id form)
            λ disc. weaken (edit_found-Keeps id form disc) (λ s p. p.0) (λ _ s p. p) (λ _ s p. p))

  -- The end of a handler that was in a position to write.
  abbrev Writes : ℕ → Disc → Web Response → Type 0
  Writes id disc m = Triple (On J) (Found J id disc) m (λ _. On J) (λ _. On J)

  busy_with-Keeps : (job : Job) → Keeps (On J) (busy_with job)
  busy_with-Keeps job = say-Keeps J _ _

  remove_art-Keeps : (path : Option Text) → Keeps (On J) (remove_art path)
  unfolding remove_art
  remove_art-Keeps path = record { holds = λ s p. p }

  delete_confirmed-Writes :
      (confirmed : Bool) (id : ℕ) (from_list : Bool) (disc : Disc)
      → Writes id disc (delete_confirmed confirmed id from_list disc)
  delete_confirmed-Writes false id from_list disc = pure_lem _ (λ s p. p.0.0)
  delete_confirmed-Writes true id from_list disc =
      bind_lem (inv.on_delete id disc)
        (λ _. bind_lem (remove_art-Keeps disc.art_path) (λ _. say-Keeps J _ _))

  correct_status-Writes :
      (now new : Status) (id : ℕ) (disc : Disc)
      → Triple (On J) (Found J id disc) (correct_status now new id disc) (λ _. On J) (λ _. On J)
  unfolding flash
  correct_status-Writes stored stored id disc = record { holds = λ s p. p.0.0 }
  correct_status-Writes out out id disc = record { holds = λ s p. p.0.0 }
  correct_status-Writes stored out id disc = bind_lem (inv.on_out id disc _) (λ _. flash-Keeps J _)
  correct_status-Writes out stored id disc =
      bind_lem (inv.on_stored id disc _) (λ _. flash-Keeps J _)

  -- What `job_using` found, and what the handler goes on with.
  abbrev Asked : ℕ → Disc → Option Job → Server → Type 0
  Asked id disc job s =
      (J s.controller s.conn × (find_disc id s.conn.live.discs ≡ some disc))
      × (job ≡ if_used (some id) (some disc.slot) (job_of s.controller (current_job s.controller)))

  delete_unused-lem :
      (job : Option Job) (id : ℕ) (form : DeleteForm) (disc : Disc)
      → Triple (On J) (Asked id disc job) (delete_unused job id form disc) (λ _. On J) (λ _. On J)
  delete_unused-lem (some job) id form disc =
      weaken (busy_with-Keeps job) (λ s p. p.0.0) (λ _ s p. p) (λ _ s p. p)
  delete_unused-lem none id form disc =
      delete_confirmed-Writes (form.is_post && form.confirmed) id form.from_list disc

  correct_unused-lem :
      (job : Option Job) (id : ℕ) (status : Status) (disc : Disc)
      → Triple
          (On J)
          (Asked id disc job)
          (correct_unused job id status disc)
          (λ _. On J)
          (λ _. On J)
  correct_unused-lem (some job) id status disc =
      weaken (busy_with-Keeps job) (λ s p. p.0.0) (λ _ s p. p) (λ _ s p. p)
  correct_unused-lem none id status disc =
      bind_lem (correct_status-Writes disc.status status id disc) (λ _. pure_lem _ (λ s p. p))

  disc_delete-Keeps : (id : ℕ) (form : DeleteForm) → Keeps (On J) (disc_delete id form)
  unfolding disc_delete
  disc_delete-Keeps id form = with_conn-Keeps J inv.on_reopen (
      bind_lem (get_disc_lem J id) λ row. or_404_lem J id row (delete_found id form) λ disc.
        bind_lem (job_using_lem J _ (some id) (some disc.slot))
          (λ job. delete_unused-lem job id form disc))

  correct-Keeps : (id : ℕ) (status : Status) → Keeps (On J) (correct id status)
  unfolding correct
  correct-Keeps id status = with_conn-Keeps J inv.on_reopen (
      bind_lem (get_disc_lem J id) λ row. or_404_lem J id row (correct_found id status) λ disc.
        bind_lem (job_using_lem J _ (some id) (some disc.slot))
          (λ job. correct_unused-lem job id status disc))

  record_in-lem :
      (slot : ℕ) (title : List ℕ) (job : Option Job)
      → Triple
          (On J)
          (λ s.
            On J s
            × (job ≡ if_used none (some slot) (job_of s.controller (current_job s.controller))))
          (record_in slot title job)
          (λ _. On J)
          (λ _. On J)
  unfolding flash
  record_in-lem slot title (some job) = record { holds = λ s p. p.0 }
  record_in-lem slot title none =
      bind_lem (inv.on_create slot (chars title)) (λ id. say-Keeps J _ _)

  record_free-Keeps :
      (slot : ℕ) (title : List ℕ) (row : Option Disc) → Keeps (On J) (record_free slot title row)
  record_free-Keeps slot title (some disc) = say-Keeps J _ _
  record_free-Keeps slot title none =
      bind_lem (job_using_lem J (On J) none (some slot)) (record_in-lem slot title)

  record_titled-Keeps : (slot : ℕ) (title : List ℕ) → Keeps (On J) (record_titled slot title)
  record_titled-Keeps slot [] = say-Keeps J _ _
  record_titled-Keeps slot (c ∷ cs) =
      bind_lem (get_by_slot-Keeps J slot) (record_free-Keeps slot (c ∷ cs))

  record_slot-Keeps :
      (title : Option (List ℕ)) (slot : Option ℕ) → Keeps (On J) (record_slot title slot)
  record_slot-Keeps title none = pure_lem _ (λ s p. p)
  record_slot-Keeps title (some slot) = record_titled-Keeps slot (stripped title)

  reconcile_manual-Keeps :
      (field : FormInt) (title : Option (List ℕ)) → Keeps (On J) (reconcile_manual field title)
  unfolding reconcile_manual
  reconcile_manual-Keeps field title =
      with_conn-Keeps J inv.on_reopen (bind_lem (form_slot-Keeps J field) (record_slot-Keeps title))

  module _ (S : Sqlite) (ingest : Option (List ℕ) → Option (List ℕ) → Option Text → Ingested) where
    pub respond-Keeps : (request : Request) → Keeps (On J) (respond S ingest request)
    unfolding respond disc_mark_out disc_mark_stored
    respond-Keeps (get_index args) = index-Keeps J inv.on_reopen S args
    respond-Keeps (get_disc_page id) = disc_page-Keeps J inv.on_reopen id
    respond-Keeps (edit_request id form) = disc_edit-Keeps ingest id form
    respond-Keeps (delete_request id form) = disc_delete-Keeps id form
    respond-Keeps (eject_request id) = disc_eject-Keeps J inv id
    respond-Keeps (return_request id) = disc_return-Keeps J inv id
    respond-Keeps (add_request field) = add-Keeps J inv field
    respond-Keeps (get_job_page id polls) = job_page-Keeps J inv.on_reopen id polls
    respond-Keeps (get_job_json id) = job_json-Keeps J inv.on_reopen id
    respond-Keeps reset_request = device_reset-Keeps J inv
    respond-Keeps get_reconcile = reconcile-Keeps J inv.on_reopen S
    respond-Keeps (manual_request field title) = reconcile_manual-Keeps field title
    respond-Keeps (mark_out_request id) = correct-Keeps id out
    respond-Keeps (mark_stored_request id) = correct-Keeps id stored
    respond-Keeps (get_device r) = device_page-Keeps J inv.on_reopen r
    respond-Keeps (reconnect_request r) = device_reconnect-Keeps J inv.on_reopen r

    -- So does every sequence of requests.
    pub serve_lem :
        (arrivals : List Arrival) (s : Server) → On J s → On J (serve S ingest arrivals s)
    unfolding serve at_time
    serve_lem [] s p = p
    serve_lem (a ∷ rest) s p = serve_lem rest (respond S ingest a.request (at_time a s)).1 (
        final_lem (respond-Keeps a.request) (at_time a s)
          (inv.on_clock s.controller s.conn a.now p))
