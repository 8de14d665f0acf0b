-- ===== src/Examples/Server.antt =====
-- The requests of the web application and the threads of the controller, at concrete inputs.
use disc_stakka_web.Base.{
  ℕ, length, true, false, Option, none, some, List, [], ◌∷◌, ◌≡◌, refl, inl, arith,
}
use disc_stakka_web.Effect.{Text, ok}
use disc_stakka_web.Effect.Triple.{After}
use disc_stakka_web.Jobs
use disc_stakka_web.Jobs.{Job}
use disc_stakka_web.Jobs.Registry.{new_registry}
use disc_stakka_web.Catalog.Db.{Disc, refers, get_by_slot, create_disc, insert_disc, log_event}
use disc_stakka_web.Catalog.Listing.{covers}
use disc_stakka_web.Catalog.Taxonomy.{codes}
use disc_stakka_web.Controller.Submit.{
  Controller, eject_runner, reset_runner, current_job, launch, submit, finished_at,
}
use disc_stakka_web.Controller.Threads.{System, start, Reach, here, next, submits}
use disc_stakka_web.Controller.Orderly.{one_job_at_a_time}
use disc_stakka_web.Web.{
  Server, natural, see_other, job_target, reopened, with_conn, form_slot, query, flash, job_using,
}
use disc_stakka_web.Web.Pages.{tracked, job_page, job_json}
use disc_stakka_web.Web.Edits.{Ingested, stem, reconcile_manual}
use disc_stakka_web.Web.Hardware.{disc_eject}
use disc_stakka_web.Web.Respond.{
  Request, get_reconcile, delete_request, manual_request, mark_out_request, Arrival, respond, serve,
}
use disc_stakka_web.Web.Rows.{used_rows}
use disc_stakka_web.Web.Recording.{Nowhere, IsAnswered, manual_requests_raise_nothing}
use disc_stakka_web.Web.Safety.{requests_spare_the_job}
use disc_stakka_web.Web.Gets.{reads_change_nothing}
use disc_stakka_web.Web.Answers.{
  OnJobPage, IsEjectOf, next_job_id, eject_shows_its_job, AreJobViews, job_views_agree,
}
use disc_stakka_web.Examples.Inputs.{conn, disc, job}
use disc_stakka_web.Examples.Catalogue.{conn-IsSound}
use disc_stakka_web.Examples.Pages.{sqlite}

-- A controller without a job, and one on which the eject of the disc in slot 18 is under way.
abbrev calm : Controller
calm = record {
  job_at = λ _. job;
  fresh = 0;
  current = none;
  registry = new_registry 4;
  threads = [];
}

abbrev ejecting : Controller
ejecting = (launch job (eject_runner 7) calm).1

abbrev server : Server
server = record {
  controller = calm;
  conn = conn;
  flashes = [];
  view = covers;
  removed_art = [];
  now_ms = 5;
  second = 1;
  counter = 1;
}

abbrev busy_server : Server
busy_server = record server { controller = ejecting }

abbrev no_art : Option (List ℕ) → Option (List ℕ) → Option Text → Ingested
no_art file url replacing = stem none

abbrev arrival : Request → Arrival
arrival request = record { request = request; now_ms = 6; second = 2; now = 10 }

abbrev arrivals : List Arrival
arrivals =
    arrival (mark_out_request 7)
    ∷ arrival (delete_request 7 (record { is_post = true; confirmed = true; from_list = false }))
    ∷ arrival (manual_request (natural 20) (some (codes "Kind of Blue")))
    ∷ []

manual_requests_raise_nothing_example :
    let r = reconcile_manual (natural 20) (some (codes " Kind of Blue ")) server in
    After Nowhere
      (IsAnswered (natural 20) (some (codes " Kind of Blue ")) server.conn)
      (λ _. Nowhere)
      r.0
      r.1
manual_requests_raise_nothing_example =
    manual_requests_raise_nothing (natural 20) (some (codes " Kind of Blue ")) server

abbrev shelf : List Disc
shelf = (reconcile_manual (natural 20) (some (codes " Kind of Blue ")) server).1.conn.saved.discs

one_more : length shelf ≡ 2
unfolding reconcile_manual with_conn reopened form_slot query get_by_slot flash job_using
    create_disc insert_disc log_event current_job
one_more = refl

is_ejecting : current_job ejecting ≡ some 0
unfolding current_job launch Jobs.finished
is_ejecting = refl

names_the_disc :
    refers (busy_server.controller.job_at 0).disc_id busy_server.conn.saved.discs ≡ true
unfolding launch
names_the_disc = refl

requests_spare_the_job_example :
    ((serve sqlite no_art arrivals busy_server).controller ≡ busy_server.controller)
    × (used_rows
          (busy_server.controller.job_at 0).disc_id
          (busy_server.controller.job_at 0).slot
          (serve sqlite no_art arrivals busy_server).conn.saved.discs
        ≡ used_rows
            (busy_server.controller.job_at 0).disc_id
            (busy_server.controller.job_at 0).slot
            busy_server.conn.saved.discs)
requests_spare_the_job_example =
    requests_spare_the_job sqlite no_art arrivals busy_server 0 is_ejecting refl conn-IsSound
      names_the_disc

reads_change_nothing_example :
    ((respond sqlite no_art get_reconcile server).1.controller ≡ server.controller)
    × ((respond sqlite no_art get_reconcile server).1.conn.saved ≡ server.conn.saved)
reads_change_nothing_example = reads_change_nothing sqlite no_art get_reconcile server refl

no_job : current_job calm ≡ none
unfolding current_job
no_job = refl

eject_shows_its_job_example :
    ((disc_eject 7 server).0 ≡ ok (see_other (job_target (next_job_id server))))
    × ((disc_eject 7 server).1.controller.threads ≡ (0, eject_runner 7) ∷ [])
    × OnJobPage (IsEjectOf 7 disc) (job_page (next_job_id server) true (disc_eject 7 server).1).0
eject_shows_its_job_example =
    eject_shows_its_job server 7 disc true no_job refl refl (omega arith) refl

job_views_agree_example :
    AreJobViews true
      (tracked job.id busy_server)
      (job_page job.id true busy_server).0
      (job_json job.id busy_server).0
job_views_agree_example = job_views_agree busy_server job.id true

abbrev one_waiting : System
one_waiting = record (start (λ _. job) 4) {
  controller = (submit job reset_runner calm).1;
  waiting = 0 ∷ [];
}

one_is_reached : Reach (start (λ _. job) 4) one_waiting
unfolding current_job Jobs.finished submit launch
one_is_reached = next here (submits job reset_runner refl refl)

not_finished : finished_at one_waiting.controller 0 ≡ false
unfolding submit launch Jobs.finished
not_finished = refl

abbrev only : ℕ
only = 0

one_job_at_a_time_example : (only ≡ only) × (current_job one_waiting.controller ≡ some only)
one_job_at_a_time_example =
    one_job_at_a_time (λ _. job) 4 only only one_is_reached (inl refl) (inl refl) not_finished
      not_finished
