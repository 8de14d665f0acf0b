-- ===== src/Web.antt =====
-- app.py: what the request handlers share. Every request is one step on the state of the server: its
-- handler runs to its end with the database connection and the controller to itself. `flashes` are the
-- messages that no page has shown yet, the newest first; `removed_art` the stems given to `art.remove`.
pub mod Pages
pub mod Edits
pub mod Hardware
pub mod Device
pub mod Respond
pub mod Invariant
pub mod Reads
pub mod Writes
pub mod Recording
pub mod Correcting
pub mod Rows
pub mod Guarded
pub mod Safety
pub mod Answers
pub mod Gets
use disc_stakka_web.Base.{
  ℕ, suc, String, Bool, true, false, not, ◌&&◌, ◌||◌, ◌==◌, leb, if◌then◌else◌, Option, none, some,
  List, [], ◌∷◌,
}
use disc_stakka_web.Effect.{
  Text, chars, format, nil, num, text, Outcome, M, Done, ◌>>=◌, ◌>>◌, pure, gets, modify, skip,
}
use disc_stakka_web.Slots.{slot_min, slot_max}
use disc_stakka_web.Flows.{say}
use disc_stakka_web.Jobs
use disc_stakka_web.Jobs.{Job, JobId, Kind, Snapshot}
use disc_stakka_web.Catalog.Db.{Disc, Event, Conn, Query, is_some}
use disc_stakka_web.Catalog.Listing.{Filter, Order, View}
use disc_stakka_web.Catalog.Stats.{Stats}
use disc_stakka_web.Catalog.Taxonomy.{strip, or_empty}
use disc_stakka_web.Controller.Claims.{Probe}
use disc_stakka_web.Controller.Submit.{
  Controller, Runner, Submitted, busy, started, current_job, submit,
}

pub data Flash : Type 0 where
  ok_flash warn_flash error_flash : Text → Flash

pub record Server : Type 0 where
  pub controller : Controller
  pub conn : Conn
  pub flashes : List Flash
  pub view : View
  pub removed_art : List (Option Text)
  pub now_ms : ℕ
  pub second : ℕ
  pub counter : ℕ

abbrev pub Web : Type 0 → Type 0
Web A = M Server A

-- The pages that a redirect names.
pub data Target : Type 0 where
  index_target add_target device_target reconcile_target : Target
  disc_target edit_target : ℕ → Target
  job_target : JobId → Target

-- What `catalog.html` is given.
pub record Catalogue : Type 0 where
  pub discs : List Disc
  pub page : ℕ
  pub pages : ℕ
  pub total : ℕ
  pub filter : Filter
  pub order : Order
  pub view : View
  pub category_counts : List (Text × ℕ)
  pub platform_counts : List (Text × ℕ)
  pub stats : Stats

-- A template with what it is given.
pub data Page : Type 0 where
  catalog_page : Catalogue → Page
  disc_view edit_view : Disc → Page
  confirm_delete : Disc → Target → Page
  add_view : List ℕ → Option ℕ → Page
  job_view : Snapshot → ℕ → Page
  reconcile_view : List (ℕ × Option Disc) → Page
  device_view : Option Probe → Option Text → List (Event × Option Text) → Page

pub data Response : Type 0 where
  render : Page → Response
  see_other : Target → Response
  json : Snapshot → ℕ → Response
  not_found : Response
  unknown_job : Response

-- `int(…)` of a field of a form or of a query string.
pub data FormInt : Type 0 where
  not_int : FormInt
  negative : FormInt
  natural : ℕ → FormInt

unfoldable pub flash : Flash → Web Done
flash message = modify (λ s. record s { flashes = message ∷ s.flashes })

-- A statement on the request's connection.
unfoldable pub query : {A : Type 0} → Query A → Web A
query q s = ((q s.conn).0, record s { conn = (q s.conn).1 })

-- `conn()` and `c.close()`: a connection sees what is committed, and what it did not commit is gone.
unfoldable pub reopened : Server → Server
reopened s = record s { conn = record (s.conn) { live = s.conn.saved } }

unfoldable pub with_conn : {A : Type 0} → Web A → Web A
with_conn m s = let r = m (reopened s) in (r.0, reopened r.1)

-- `if disc is None: abort(404)`
abbrev pub or_404 : Option Disc → (Disc → Web Response) → Web Response
or_404 none k = pure not_found
or_404 (some disc) k = k disc

abbrev pub is_same : Option ℕ → Option ℕ → Bool
is_same none used = false
is_same (some k) none = false
is_same (some k) (some j) = j == k

-- The test of `job_using`.
unfoldable pub uses : Option ℕ → Option ℕ → Job → Bool
uses disc_id slot job = is_same disc_id job.disc_id || is_same slot job.slot

abbrev pub if_used : Option ℕ → Option ℕ → Option Job → Option Job
if_used disc_id slot none = none
if_used disc_id slot (some job) = if uses disc_id slot job then some job else none

-- The job behind a reference, if there is one.
abbrev pub job_of : Controller → Option ℕ → Option Job
job_of c none = none
job_of c (some ref) = some (c.job_at ref)

unfoldable pub job_using : Option ℕ → Option ℕ → Web (Option Job)
job_using disc_id slot =
    gets (λ s. if_used disc_id slot (job_of s.controller (current_job s.controller)))

-- `Job(…)`, with the number that the counter gives.
unfoldable pub make_job : Kind → Text → Option ℕ → Option ℕ → Web Job
make_job kind title disc_id slot =
    modify (λ s. record s { counter = suc s.counter })
    >> gets λ s.
      Jobs.new_job (record { second = s.second; number = s.counter }) kind title disc_id slot
        (say "Starting...")

unfoldable pub submit_job : Job → Runner → Web Submitted
submit_job job runner s =
    let r = submit job runner s.controller in (Outcome.ok r.0, record s { controller = r.1 })

abbrev pub answer_submitted : Job → Submitted → Web Response
answer_submitted job (started ref) = pure (see_other (job_target job.id))
answer_submitted job (busy ref) = do
  other ← gets (λ s. s.controller.job_at ref)
  flash (warn_flash (format "The Disc Stakka is already busy with: %s" (text other.title nil)))
  pure (see_other (job_target other.id))

unfoldable pub start_job : Job → Runner → Web Response
start_job job runner = submit_job job runner >>= answer_submitted job

-- `_form_slot`
unfoldable pub form_slot : FormInt → Web (Option ℕ)
form_slot not_int = flash (error_flash (say "Pick a slot.")) >> pure none
form_slot negative =
    flash (error_flash (format "Slots run from %d to %d." (num slot_min (num slot_max nil))))
    >> pure none
form_slot (natural slot) =
    if leb slot_min slot && leb slot slot_max
    then pure (some slot)
    else flash (error_flash (format "Slots run from %d to %d." (num slot_min (num slot_max nil))))
      >> pure none

-- `(value or "").strip()`, and that `or None`
abbrev pub stripped : Option (List ℕ) → List ℕ
stripped value = strip (or_empty value)

abbrev pub or_none : List ℕ → Option Text
or_none [] = none
or_none (c ∷ cs) = some (chars (c ∷ cs))

abbrev pub to_text : Option (List ℕ) → Option Text
to_text none = none
to_text (some cs) = some (chars cs)
