-- ===== src/Web/Correcting.antt =====
-- app.py, `_correct` (lines 484 to 526): what the two corrections of the catalogue do to its rows.
use disc_stakka_web.Base.{ℕ, false, ◌==◌, Option, none, some, ◌≡◌, ◌⊎◌}
use disc_stakka_web.Effect.{Text, Done}
use disc_stakka_web.Effect.Triple.{Triple}
use disc_stakka_web.Jobs.{Job}
use disc_stakka_web.Catalog.Db.{
  Disc, Status, stored, out, Conn, Query, EventKind, find_disc, mark_out, mark_stored,
}
use disc_stakka_web.Controller.Submit.{current_job}
use disc_stakka_web.Web.{
  Server, Response, see_other, not_found, disc_target, job_target, if_used, job_of,
}

-- The row that a correction makes of a row.
abbrev pub corrected : Status → ℕ → Disc → Disc
corrected out now d = record d { status = out; checked_out_at = some now; updated_at = now }
corrected stored now d = record d { status = stored; checked_out_at = none; updated_at = now }

-- The job that is under way and uses the disc or its slot.
abbrev pub user : ℕ → Disc → Server → Option Job
user id d s = if_used (some id) (some d.slot) (job_of s.controller (current_job s.controller))

module _ (id : ℕ) (status : Status) (j : ℕ) (c : Conn) where
  -- The row says so already.
  abbrev pub IsAlready : Disc → Response → Server → Type 0
  IsAlready d r s =
      (d.status ≡ status) × (r ≡ see_other (disc_target id)) × (s.conn.saved ≡ c.saved)

  -- A job that is under way uses the disc, or its slot.
  abbrev pub IsInUse : Disc → Response → Server → Type 0
  IsInUse d r s =
      (job : Job) × (user id d s ≡ some job)
      × (r ≡ see_other (job_target job.id))
      × (s.conn.saved ≡ c.saved)

  -- The row of the disc is corrected, and that of any other disc is as it was.
  abbrev pub IsCorrected : Disc → Response → Server → Type 0
  IsCorrected d r s =
      (r ≡ see_other (disc_target id))
      × (find_disc id s.conn.saved.discs ≡ some (corrected status c.now d))
      × (find_disc j s.conn.saved.discs ≡ find_disc j c.saved.discs)

  abbrev pub Settles : Option Disc → Response → Server → Type 0
  Settles none r s = (r ≡ not_found) × (s.conn.saved ≡ c.saved)
  Settles (some d) r s = IsAlready d r s ⊎ IsInUse d r s ⊎ IsCorrected d r s

abbrev marked : Status → ℕ → Option Text → Query Done
marked out id detail = mark_out id EventKind.manual detail
marked stored id detail = mark_stored id EventKind.manual detail

module _ (id : ℕ) (j : ℕ) (other : (j == id) ≡ false) (c : Conn) where
  abbrev Changed : Status → Disc → Conn → Type 0
  Changed status d conn =
      (find_disc id conn.saved.discs ≡ some (corrected status c.now d))
      × (find_disc j conn.saved.discs ≡ find_disc j c.saved.discs)
