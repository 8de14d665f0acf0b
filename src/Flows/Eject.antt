-- ===== src/Flows/Eject.antt =====
-- What an eject does to the catalogue: the flow `run_eject` of discstakka/flows.py.
use disc_stakka_web.Base.{
  ℕ, Bool, true, Option, none, some, List, [], ◌∷◌, ◌≡◌, refl, arith, ◌⊎◌, inl, inr, subst, sym,
}
use disc_stakka_web.Effect.{Exc, Done, is_device_error}
use disc_stakka_web.Effect.Triple.{
  Triple, After, Any, bind_lem, handle_lem, pure_lem, skip_lem, if_lem, weaken, known_lem,
}
use disc_stakka_web.Transport.{Transport}
use disc_stakka_web.Protocol.Handle.{DiscStakka, Call}
use disc_stakka_web.Jobs.{Phase}
use disc_stakka_web.Catalog.Db.{Disc, find_disc, get_disc, update_row, checked_out}
use disc_stakka_web.Flows.{
  Shared, job_note, eject_nothing, retract_failed, retracted, try_retract, not_taken, taken,
  present_disc, eject_disc, run_eject,
}
use disc_stakka_web.Flows.Holding.{
  Rows, IsQuiet, Holding, on_trace-Holds, set_phase-Holds, query_lem, log_event-Rows, commit-Rows,
  mark_out-Rows, Quiet-note,
}
use disc_stakka_web.Flows.Operations.{
  Ends, fail-Ends, succeed-Ends, disc_in_bay-Holds, move_to-Holds, park-Holds, wait_for_take-Holds,
  retract-Holds,
}

pub find_disc-id : (k : ℕ) (ds : List Disc) (d : Disc) → find_disc k ds ≡ some d → d.id ≡ k
find_disc-id k [] d e = ground arith
find_disc-id k (x ∷ ds) d e = ground (arith, find_disc-id k ds d)

-- The job failed and no row changed, or it is done and the row of the disc says that it is out.
abbrev pub Ejected : ℕ → List Disc → ℕ → Phase → List Disc → Type 0
Ejected n ds id phase rows =
    ((phase ≡ Phase.failed) × (rows ≡ ds))
    ⊎ ((phase ≡ Phase.done) × (rows ≡ update_row id (checked_out n) ds))

module _ {W : Type 0} (T : Transport W) (fuel : ℕ) (n : ℕ) (ds : List Disc) where
  abbrev Fails : Call W Shared Done → Type 0
  Fails m = Triple Any (Holding n ds) m (λ _. Ends n ds Phase.failed) (λ _. Holding n ds)

  abbrev EjectEnd : ℕ → DiscStakka W Shared → Type 0
  EjectEnd id s = Ends n ds Phase.failed s ⊎ Ends n (update_row id (checked_out n) ds) Phase.done s

  abbrev Ejects : ℕ → Call W Shared Done → Type 0
  Ejects id m = Triple Any (Holding n ds) m (λ _. EjectEnd id) (λ _. Holding n ds)

  Fails-Ejects : (id : ℕ) {m : Call W Shared Done} → Fails m → Ejects id m
  Fails-Ejects id h = weaken h (λ s p. p) (λ a s p. inl p) (λ e s p. p)

  eject_nothing-Fails : (disc : Disc) → Fails (eject_nothing T fuel disc)
  unfolding eject_nothing
  eject_nothing-Fails disc = bind_lem (set_phase-Holds T n ds _ _ _) λ _.
      bind_lem (on_trace-Holds n ds _) λ _. bind_lem (park-Holds T fuel n ds) λ _.
        bind_lem (query_lem (log_event-Rows n ds _ _ _ _))
          λ _. bind_lem (query_lem (commit-Rows n ds)) (λ _. fail-Ends n ds _ _)

  retract_failed-Fails : (disc : Disc) (e : Exc) → Fails (retract_failed T fuel disc e)
  unfolding retract_failed
  retract_failed-Fails disc e = bind_lem (on_trace-Holds n ds _) λ _.
      bind_lem (query_lem (log_event-Rows n ds _ _ _ _))
        λ _. bind_lem (query_lem (commit-Rows n ds)) (λ _. fail-Ends n ds _ _)

  retracted-Fails : (disc : Disc) (acked : Bool) → Fails (retracted T fuel disc acked)
  unfolding retracted
  retracted-Fails disc acked = bind_lem (on_trace-Holds n ds _) λ _.
      bind_lem (park-Holds T fuel n ds) λ _.
        bind_lem (query_lem (log_event-Rows n ds _ _ _ _))
          λ _. bind_lem (query_lem (commit-Rows n ds)) (λ _. fail-Ends n ds _ _)

  -- After the handler the job has failed already.
  abbrev Tried : Option Bool → DiscStakka W Shared → Type 0
  Tried acked s = elim acked [ none ↦ Ends n ds Phase.failed s | some _ ↦ Holding n ds s ]

  try_retract-Tried :
      (disc : Disc) → Triple Any (Holding n ds) (try_retract T fuel disc) Tried (λ _. Holding n ds)
  unfolding try_retract
  try_retract-Tried disc =
      handle_lem is_device_error _
        (bind_lem (retract-Holds T fuel n ds job_note Quiet-note) (λ acked. pure_lem _ (λ s p. p)))
        (λ e c. bind_lem (retract_failed-Fails disc e) (λ _. pure_lem _ (λ s p. p))) (λ e s c p. p)

  not_taken-Fails : (disc : Disc) → Fails (not_taken T fuel disc)
  unfolding not_taken
  not_taken-Fails disc = bind_lem (set_phase-Holds T n ds _ _ _) λ _.
      bind_lem (on_trace-Holds n ds _) λ _.
        bind_lem (try_retract-Tried disc)
          (elim [ none ↦ skip_lem (λ s p. p) | some a ↦ retracted-Fails disc a ])

  taken-Ejects : (disc : Disc) → Ejects disc.id (taken T fuel disc)
  unfolding taken
  taken-Ejects disc = bind_lem (set_phase-Holds T n ds _ _ _) λ _.
      bind_lem (on_trace-Holds n ds _) λ _. bind_lem (park-Holds T fuel n ds) λ _.
        bind_lem (query_lem (mark_out-Rows n ds disc.id _ _)) λ _.
          weaken (succeed-Ends n (update_row disc.id (checked_out n) ds) _ _) (λ s p. p)
            (λ a s p. inr p) (λ e s p. p)

  present_disc-Ejects : (disc : Disc) → Ejects disc.id (present_disc T fuel disc)
  unfolding present_disc
  present_disc-Ejects disc = bind_lem (set_phase-Holds T n ds _ _ _) λ _.
      bind_lem (on_trace-Holds n ds _) λ _. bind_lem (wait_for_take-Holds T fuel n ds) λ gone.
        if_lem gone (λ _. taken-Ejects disc) (λ _. Fails-Ejects disc.id (not_taken-Fails disc))

  eject_disc-Ejects : (disc : Disc) → Ejects disc.id (eject_disc T fuel disc)
  unfolding eject_disc
  eject_disc-Ejects disc = bind_lem (set_phase-Holds T n ds _ _ _) λ _.
      bind_lem (on_trace-Holds n ds _) λ _.
        bind_lem (move_to-Holds T fuel n ds disc.slot true job_note Quiet-note) λ _.
          bind_lem (disc_in_bay-Holds T fuel n ds) λ out.
            if_lem out (λ _. present_disc-Ejects disc)
              (λ _. Fails-Ejects disc.id (eject_nothing-Fails disc))

  found-Row :
      (id : ℕ)
      → Triple Any
          (Rows n ds)
          (get_disc id)
          (λ row c. (row ≡ find_disc id ds) × Rows n ds c)
          (λ _. Rows n ds)
  unfolding get_disc
  found-Row id = record {
    holds = λ c p. (subst (λ l. find_disc id c.live.discs ≡ find_disc id l) p.0 refl, p);
  }

  run_eject-Ejects : (id : ℕ) → Ejects id (run_eject T fuel id)
  unfolding run_eject
  run_eject-Ejects id = bind_lem (query_lem (found-Row id)) (elim [
    | none ↦ weaken (fail-Ends n ds _ _) (λ s p. (p.0.1, p.1)) (λ a s p. inl p) (λ e s p. p)
    | some disc ↦
        known_lem (some disc ≡ find_disc id ds) (λ s p. p.0.0)
          λ e.
            subst
              (λ k.
                Triple Any
                  (λ s. ((some disc ≡ find_disc id ds) × Rows n ds s.caller.conn) × IsQuiet s.trace)
                  (eject_disc T fuel disc) (λ _. EjectEnd k) (λ _. Holding n ds))
              (find_disc-id id ds disc (sym e))
              (weaken (eject_disc-Ejects disc) (λ s p. (p.0.1, p.1)) (λ a s p. p) (λ e s p. p))
  ])

  EjectEnd-Ejected :
      (id : ℕ) (s : DiscStakka W Shared)
      → EjectEnd id s
      → Ejected n ds id s.caller.job.phase s.caller.conn.live.discs
        × (s.caller.conn.saved.discs ≡ s.caller.conn.live.discs)
  EjectEnd-Ejected id s (inl (e, p)) = (inl (e, p.0.0), cc)
  EjectEnd-Ejected id s (inr (e, p)) = (inr (e, p.0.0), cc)

  -- An eject that begins with the rows `ds`, nothing uncommitted, and a trace that leaves the
  -- connection alone: if the flow returns, then either the job failed and the rows are as they were,
  -- or the job is done and exactly the row of the ejected disc has changed, to say that the disc is
  -- out, and this is committed. If the flow raises, the rows are as they were.
  pub eject_tracks_the_disc :
      (id : ℕ) (s : DiscStakka W Shared)
      → Rows n ds s.caller.conn
      → IsQuiet s.trace
      → After Any
          (λ _ s'.
            Ejected n ds id s'.caller.job.phase s'.caller.conn.live.discs
            × (s'.caller.conn.saved.discs ≡ s'.caller.conn.live.discs))
          (λ _ s'. Rows n ds s'.caller.conn)
          (run_eject T fuel id s).0
          (run_eject T fuel id s).1
  eject_tracks_the_disc id s p q =
      (weaken (run_eject-Ejects id) (λ s p. p) (λ a s p. EjectEnd-Ejected id s p)
          (λ e s p. p.0)).holds
        s (p, q)
