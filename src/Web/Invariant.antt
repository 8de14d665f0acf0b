-- ===== src/Web/Invariant.antt =====
-- app.py: what a property of the controller and the database needs so that every request keeps it.
use disc_stakka_web.Base.{ℕ, ◌&&◌, leb, Option, none, some, ◌≡◌, refl}
use disc_stakka_web.Effect.{Text, Outcome, ok, raised, running, ◌>>◌, pure}
use disc_stakka_web.Effect.Triple.{
  After, Triple, Keeps, bind_lem, pure_lem, gets_lem, modify_lem, if_lem,
}
use disc_stakka_web.Slots.{slot_min, slot_max}
use disc_stakka_web.Jobs.{Job, Kind}
use disc_stakka_web.Catalog.Db.{
  Disc, Conn, Query, EventKind, titled, find_disc, get_disc, get_by_slot, create_disc, mark_out,
  mark_stored, delete_disc,
}
use disc_stakka_web.Catalog.Edit.{Changes, update_disc}
use disc_stakka_web.Controller.Submit.{Controller, Runner, Submitted, busy, started, current_job}
use disc_stakka_web.Web.{
  Web, Server, Response, Flash, FormInt, not_int, negative, natural, flash, query, reopened,
  with_conn, or_404, if_used, job_of, job_using, make_job, submit_job, answer_submitted, start_job,
  form_slot,
}

-- No job that is under way uses this disc or slot.
abbrev pub IsUnused : Option ℕ → Option ℕ → Controller → Type 0
IsUnused disc_id slot c = none ≡ if_used disc_id slot (job_of c (current_job c))

abbrev pub On : (Controller → Conn → Type 0) → Server → Type 0
On J s = J s.controller s.conn

-- The row of a disc that no job uses.
abbrev pub Found : (Controller → Conn → Type 0) → ℕ → Disc → Server → Type 0
Found J id disc s =
    (J s.controller s.conn × (find_disc id s.conn.live.discs ≡ some disc))
    × IsUnused (some id) (some disc.slot) s.controller

-- Closing a connection, and opening another.
abbrev pub Reopens : (Controller → Conn → Type 0) → Type 0
Reopens J = (c : Controller) (conn : Conn) → J c conn → J c (record conn { live = conn.saved })

pub record IsInvariant (J : Controller → Conn → Type 0) : Type 0 where
  pub on_reopen : Reopens J
  pub on_clock :
      (c : Controller) (conn : Conn) (now : ℕ) → J c conn → J c (record conn { now = now })
  pub on_submit : (job : Job) (runner : Runner) → Keeps (On J) (submit_job job runner)
  pub on_edit : (id : ℕ) (x : Changes) → x.slot ≡ none → Keeps (On J) (query (update_disc id x))
  pub on_delete :
      (id : ℕ) (disc : Disc)
      → Triple (On J) (Found J id disc) (query (delete_disc id)) (λ _. On J) (λ _. On J)
  pub on_out :
      (id : ℕ) (disc : Disc) (detail : Option Text)
      → Triple
          (On J)
          (Found J id disc)
          (query (mark_out id EventKind.manual detail))
          (λ _. On J)
          (λ _. On J)
  pub on_stored :
      (id : ℕ) (disc : Disc) (detail : Option Text)
      → Triple
          (On J)
          (Found J id disc)
          (query (mark_stored id EventKind.manual detail))
          (λ _. On J)
          (λ _. On J)
  pub on_create :
      (slot : ℕ) (title : Text)
      → Triple
          (On J)
          (λ s. On J s × IsUnused none (some slot) s.controller)
          (query (create_disc slot (titled title) EventKind.manual))
          (λ _. On J)
          (λ _. On J)

-- The end of a call, seen after a change of the state.
After-then :
    {S A : Type 0} (I : S → Type 0) (f : S → S) (r : Outcome A) (s : S)
    → ((s : S) → I s → I (f s))
    → After I (λ _. I) (λ _. I) r s
    → After I (λ _. I) (λ _. I) r (f s)
After-then I f (ok a) s h p = h s p
After-then I f (raised e) s h p = h s p
After-then I f running s h p = h s p

After-conn :
    {A : Type 0} (J : Controller → Conn → Type 0) (s : Server) (r : Outcome A) (conn : Conn)
    → After (J s.controller) (λ _. J s.controller) (λ _. J s.controller) r conn
    → After (On J) (λ _. On J) (λ _. On J) r (record s { conn = conn })
After-conn J s (ok a) conn p = p
After-conn J s (raised e) conn p = p
After-conn J s running conn p = p

module _ (J : Controller → Conn → Type 0) where
  pub flash-Keeps : (message : Flash) → Keeps (On J) (flash message)
  unfolding flash
  flash-Keeps message = modify_lem _ (λ s p. p)

  -- A statement on the connection, by what it makes of the connection.
  pub query_lem :
      {A : Type 0} (P : Server → Type 0) (q : Query A)
      → ((s : Server)
          → P s
          → After
              (J s.controller)
              (λ _. J s.controller)
              (λ _. J s.controller)
              (q s.conn).0
              (q s.conn).1)
      → Triple (On J) P (query q) (λ _. On J) (λ _. On J)
  unfolding query
  query_lem P q h = record { holds = λ s p. After-conn J s (q s.conn).0 (q s.conn).1 (h s p) }

  pub get_disc_lem :
      (id : ℕ)
      → Triple
          (On J)
          (On J)
          (query (get_disc id))
          (λ row s. J s.controller s.conn × (find_disc id s.conn.live.discs ≡ row))
          (λ _. On J)
  unfolding query get_disc
  get_disc_lem id = record { holds = λ s p. (p, refl) }

  pub get_by_slot-Keeps : (slot : ℕ) → Keeps (On J) (query (get_by_slot slot))
  unfolding query get_by_slot
  get_by_slot-Keeps slot = record { holds = λ s p. p }

  pub or_404_lem :
      (id : ℕ) (row : Option Disc) (k : Disc → Web Response)
      → ((disc : Disc)
          → Triple
              (On J)
              (λ s. J s.controller s.conn × (find_disc id s.conn.live.discs ≡ some disc))
              (k disc)
              (λ _. On J)
              (λ _. On J))
      → Triple
          (On J)
          (λ s. J s.controller s.conn × (find_disc id s.conn.live.discs ≡ row))
          (or_404 row k)
          (λ _. On J)
          (λ _. On J)
  or_404_lem id none k h = pure_lem _ (λ s p. p.0)
  or_404_lem id (some disc) k h = h disc

  pub job_using_lem :
      (P : Server → Type 0) (disc_id slot : Option ℕ)
      → Triple
          (On J)
          P
          (job_using disc_id slot)
          (λ job s.
            P s × (job ≡ if_used disc_id slot (job_of s.controller (current_job s.controller))))
          (λ _. On J)
  unfolding job_using
  job_using_lem P disc_id slot = gets_lem _ (λ s p. (p, refl))

  pub make_job-Keeps :
      (kind : Kind) (title : Text) (disc_id slot : Option ℕ)
      → Keeps (On J) (make_job kind title disc_id slot)
  unfolding make_job
  make_job-Keeps kind title disc_id slot = record { holds = λ s p. p }

  -- A message and an answer.
  pub say-Keeps : {A : Type 0} (message : Flash) (a : A) → Keeps (On J) (flash message >> pure a)
  say-Keeps message a = bind_lem (flash-Keeps message) (λ _. pure_lem a (λ s p. p))

  pub form_slot-Keeps : (field : FormInt) → Keeps (On J) (form_slot field)
  unfolding form_slot
  form_slot-Keeps not_int = say-Keeps _ _
  form_slot-Keeps negative = say-Keeps _ _
  form_slot-Keeps (natural slot) =
      if_lem (leb slot_min slot && leb slot slot_max) (λ _. pure_lem _ (λ s p. p))
        (λ _. say-Keeps _ _)

  answer_submitted-Keeps : (job : Job) (r : Submitted) → Keeps (On J) (answer_submitted job r)
  unfolding flash
  answer_submitted-Keeps job (started ref) = pure_lem _ (λ s p. p)
  answer_submitted-Keeps job (busy ref) = record { holds = λ s p. p }

  pub with_conn-Keeps :
      {A : Type 0} {m : Web A} → Reopens J → Keeps (On J) m → Keeps (On J) (with_conn m)
  unfolding with_conn reopened
  with_conn-Keeps {m} reopen h = record {
    holds = λ s p.
        After-then (On J) reopened (m (reopened s)).0 (m (reopened s)).1
          (λ s p. reopen s.controller s.conn p)
          (h.holds (reopened s) (reopen s.controller s.conn p));
  }

  pub start_job-Keeps :
      (inv : IsInvariant J) (job : Job) (runner : Runner) → Keeps (On J) (start_job job runner)
  unfolding start_job
  start_job-Keeps inv job runner =
      bind_lem (inv.on_submit job runner) (λ r. answer_submitted-Keeps job r)
