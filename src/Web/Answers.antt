-- ===== src/Web/Answers.antt =====
-- app.py: what a browser sees of a job that it starts (lines 113 to 120, 302 to 320 and 364 to 395).
use disc_stakka_web.Base.{
  ℕ, suc, ◌*◌, ◌≤◌, ◌<◌, Bool, true, false, ◌&&◌, if◌then◌else◌, Option, none, some, ◌∷◌, ◌≡◌, refl,
  arith, ap, subst, sym, ◌∙◌,
}
use disc_stakka_web.Effect.{format, nil, num, text, Outcome, ok, bind_outcome}
use disc_stakka_web.Flows.{say}
use disc_stakka_web.Protocol.Packet.{take_window_ms}
use disc_stakka_web.Jobs
use disc_stakka_web.Jobs.{Job, JobId, Kind, Phase, Snapshot}
use disc_stakka_web.Jobs.Registry.{holds_id, add_keeps_the_newest}
use disc_stakka_web.Catalog.Db.{Disc, stored, find_disc, get_disc}
use disc_stakka_web.Controller.Submit.{eject_runner, current_job, launch, set_job, submit_free}
use disc_stakka_web.Web.{
  Server, Response, render, see_other, json, unknown_job, index_target, flash, job_view, job_target,
  query, reopened, with_conn, make_job, submit_job, answer_submitted, start_job,
}
use disc_stakka_web.Web.Hardware.{carry_out, plan_eject, eject_stored, disc_eject}
use disc_stakka_web.Web.Pages.{
  is_eject, is_watched, xhr_cookie_s, refresh_s, tracked, show_job, job_page, job_answer, job_json,
}

-- What is asked of the page of a job; another answer has nothing of it.
abbrev pub OnJobPage : (Snapshot → ℕ → Type 0) → Outcome Response → Type 0
OnJobPage P (ok (render (job_view snap refresh))) = P snap refresh
OnJobPage P _ = ⊥

-- The number of the next job.
abbrev pub next_job_id : Server → JobId
next_job_id s = record { second = s.second; number = suc s.counter }

abbrev eject_job : ℕ → Disc → Server → Job
eject_job id disc s =
    Jobs.new_job (next_job_id s) Kind.eject
      (format "Eject %s (slot %d)" (text disc.title (num disc.slot nil))) (some id) (some disc.slot)
      (say "Starting...")

-- The state in which the job has been submitted.
abbrev launched : ℕ → Disc → Server → Server
launched id disc s = record (reopened s) {
  counter = suc s.counter;
  controller = (launch (eject_job id disc s) (eject_runner id) s.controller).1;
}

module _ (s : Server) (id : ℕ) (disc : Disc) where
  after_row : Option Disc → Outcome Response × Server
  unfolding reopened
  after_row row =
      let r = plan_eject id row (reopened s) in bind_outcome carry_out r.0 (reopened r.1)

  pub eject_launches :
      current_job s.controller ≡ none
      → find_disc id s.conn.saved.discs ≡ some disc
      → disc.status ≡ stored
      → disc_eject id s ≡ (ok (see_other (job_target (next_job_id s))), launched id disc s)
  unfolding disc_eject with_conn reopened query get_disc make_job start_job submit_job Jobs.new_job
      launch after_row
  eject_launches free found here =
      ap after_row found
      ∙ ap
          (λ status.
            let r = eject_stored status id disc (reopened s) in
            bind_outcome carry_out r.0 (reopened r.1))
          here
      ∙ ap
          (λ r.
            bind_outcome (answer_submitted (eject_job id disc s)) (ok r.0)
              (record (reopened s) { counter = suc s.counter; controller = r.1 }))
          (submit_free (eject_job id disc s) (eject_runner id) s.controller free)

-- What `job_page` makes of what is tracked.
abbrev page_of : Bool → Server → Option Snapshot → Outcome Response
page_of polls s snap = (show_job polls snap s).0

set_job-same : (ref : ℕ) (job : Job) (jobs : ℕ → Job) → set_job ref job jobs ref ≡ job
set_job-same ref job jobs = ground arith

-- The job that was just submitted is tracked, if its number is new.
launched_is_tracked :
    (s : Server) (id : ℕ) (disc : Disc)
    → 1 ≤ s.controller.registry.keep
    → holds_id (next_job_id s) s.controller.registry.order ≡ false
    → tracked (next_job_id s) (launched id disc s)
      ≡ some (Jobs.snapshot s.now_ms (eject_job id disc s))
unfolding tracked launch reopened Jobs.new_job
launched_is_tracked s id disc keep new =
    let job = eject_job id disc s in
    let c = s.controller in
    let added = (add_keeps_the_newest (next_job_id s) c.fresh c.registry keep new).1 in
    ap
      (λ r. elim r [
        | none ↦ none
        | some ref ↦ some (Jobs.snapshot s.now_ms (set_job c.fresh job c.job_at ref))
      ])
      added
    ∙ ap (λ j. some (Jobs.snapshot s.now_ms j)) (set_job-same c.fresh job c.job_at)

-- The job of an eject, at its start.
abbrev pub IsEjectOf : ℕ → Disc → Snapshot → ℕ → Type 0
IsEjectOf id disc snap refresh =
    (snap.kind ≡ Kind.eject)
    × (snap.disc_id ≡ some id)
    × (snap.slot ≡ some disc.slot)
    × (snap.done ≡ false)
    × (refresh * 1_000 < take_window_ms)

first_page :
    (polls : Bool) (s : Server) (id : ℕ) (disc : Disc)
    → OnJobPage
        (IsEjectOf id disc)
        (page_of polls (launched id disc s) (some (Jobs.snapshot s.now_ms (eject_job id disc s))))
unfolding Jobs.snapshot Jobs.new_job refresh_s
first_page true s id disc = (refl, refl, refl, refl, omega arith)
first_page false s id disc = (refl, refl, refl, refl, omega arith)

-- On a server without a job under way, which keeps at least one job and has not yet used the number of
-- the next one, an eject of a disc that the catalogue says is stored answers with a redirect to a new job
-- and starts one worker for it. The page behind the redirect shows this job: an eject of that disc from
-- its slot, not done, on a page that refreshes before the unit takes the disc back.
pub eject_shows_its_job :
    (s : Server) (id : ℕ) (disc : Disc) (polls : Bool)
    → current_job s.controller ≡ none
    → find_disc id s.conn.saved.discs ≡ some disc
    → disc.status ≡ stored
    → 1 ≤ s.controller.registry.keep
    → holds_id (next_job_id s) s.controller.registry.order ≡ false
    → ((disc_eject id s).0 ≡ ok (see_other (job_target (next_job_id s))))
      × ((disc_eject id s).1.controller.threads
          ≡ (s.controller.fresh, eject_runner id) ∷ s.controller.threads)
      × OnJobPage (IsEjectOf id disc) (job_page (next_job_id s) polls (disc_eject id s).1).0
unfolding job_page launch reopened
eject_shows_its_job s id disc polls free found here keep new =
    let done = eject_launches s id disc free found here in
    (
      ap (λ r. r.0) done,
      ap (λ r. r.1.controller.threads) done,
      subst (λ r. OnJobPage (IsEjectOf id disc) (job_page (next_job_id s) polls r.1).0) (sym done)
          (subst (λ snap. OnJobPage (IsEjectOf id disc) (page_of polls (launched id disc s) snap))
            (sym (launched_is_tracked s id disc keep new)) (first_page polls s id disc)),
    )

-- The time to the refresh of an eject that is watched.
abbrev pub watched_ms : Bool → Snapshot → ℕ
watched_ms polls snap =
    if is_eject snap.kind && is_watched snap.phase then refresh_s polls snap * 1_000 else 0

-- What the two views of a job say of it.
abbrev pub AreJobViews : Bool → Option Snapshot → Outcome Response → Outcome Response → Type 0
AreJobViews polls none page view = (page ≡ ok (see_other index_target)) × (view ≡ ok unknown_job)
AreJobViews polls (some snap) page view =
    (page ≡ ok (render (job_view snap (refresh_s polls snap))))
    × (view ≡ ok (json snap xhr_cookie_s))
    × (1 ≤ refresh_s polls snap)
    × (refresh_s polls snap ≤ 10)
    × (watched_ms polls snap < take_window_ms)

refresh_bounds :
    (polls : Bool) (snap : Snapshot)
    → (1 ≤ refresh_s polls snap)
      × (refresh_s polls snap ≤ 10)
      × (watched_ms polls snap < take_window_ms)
unfolding refresh_s
refresh_bounds polls snap = ground arith

views_of :
    (polls : Bool) (s : Server) (snap : Option Snapshot)
    → AreJobViews polls snap (page_of polls s snap) (ok (job_answer snap))
unfolding flash
views_of polls s none = (refl, refl)
views_of polls s (some snap) = let b = refresh_bounds polls snap in (refl, refl, b.0, b.1, b.2)

-- The page of a job and its JSON view show the same snapshot, or both say that the job is not tracked.
-- The page refreshes after 1 to 10 seconds, and while an eject is moving or presents its disc, before the
-- unit takes the disc back, whether the browser polls or not.
pub job_views_agree :
    (s : Server) (id : JobId) (polls : Bool)
    → AreJobViews polls (tracked id s) (job_page id polls s).0 (job_json id s).0
unfolding job_page job_json
job_views_agree s id polls = views_of polls s (tracked id s)
