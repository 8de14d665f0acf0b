-- ===== src/Flows/Load.antt =====
-- What a load does to the catalogue: the flow `run_add` of discstakka/flows.py.
use disc_stakka_web.Base.{
  ℕ, zero, suc, ◌+◌, ltb, false, Option, none, some, List, ◌∷◌, ◌≡◌, ◌⊎◌, inl, inr,
}
use disc_stakka_web.Effect.{Exc, Done, ◌>>=◌, is_device_error, format, num, nil}
use disc_stakka_web.Effect.Triple.{
  Triple, After, Any, bind_lem, handle_lem, pure_lem, skip_lem, if_lem, fuel_lem, weaken,
}
use disc_stakka_web.Transport.{Transport}
use disc_stakka_web.Protocol.Handle.{DiscStakka, Call, now_ms}
use disc_stakka_web.Jobs.{Phase}
use disc_stakka_web.Catalog.Db.{Disc, update_row, put_back, new_disc, next_id, titled}
use disc_stakka_web.Flows.{Shared, job_note}
use disc_stakka_web.Flows.Add.{
  nothing_inserted, catalogue, watch, watch_unit, report_load, load, run_add,
}
use disc_stakka_web.Flows.Holding.{
  Rows, IsQuiet, Holding, Holds, on_trace-Holds, set_phase-Holds, query_lem, log_event-Rows,
  commit-Rows, get_disc-Rows, create_disc-Rows, mark_stored-Rows, Quiet-note,
}
use disc_stakka_web.Flows.Operations.{
  Ends, fail-Ends, succeed-Ends, move_to-Holds, park-Holds, wait_for_insert-Holds, ingest-Holds,
  status-Holds,
}

-- The rows after a load: a row for a new disc, or the row of the returned disc put back.
abbrev pub loaded : ℕ → ℕ → Option ℕ → List Disc → List Disc
loaded n slot none ds =
    new_disc (next_id ds) slot n (titled (format "Untitled disc (slot %d)" (num slot nil))) ∷ ds
loaded n slot (some id) ds = update_row id (put_back n) ds

-- The job failed and no row changed, or it is done and the disc is in the catalogue.
abbrev pub Added : ℕ → List Disc → ℕ → Option ℕ → Phase → List Disc → Type 0
Added n ds slot disc_id phase rows =
    ((phase ≡ Phase.failed) × (rows ≡ ds))
    ⊎ ((phase ≡ Phase.done) × (rows ≡ loaded n slot disc_id ds))

module _ {W : Type 0} (T : Transport W) (fuel : ℕ) (n : ℕ) where
  now_ms-Holds :
      {E : Exc → DiscStakka W Shared → Type 0} (ds : List Disc)
      → Triple Any (Holding n ds) (now_ms {J = Shared} T) (λ _. Holding n ds) E
  unfolding now_ms
  now_ms-Holds ds = record { holds = λ s p. p }

  watch-Holds : (ds : List Disc) (rounds deadline : ℕ) → Holds n ds (watch T fuel rounds deadline)
  unfolding watch
  watch-Holds ds zero deadline = fuel_lem (λ s p. tt)
  watch-Holds ds (suc rounds) deadline = bind_lem (now_ms-Holds ds) λ now.
      if_lem (ltb now deadline)
        (λ _.
          bind_lem (status-Holds T fuel n ds)
            λ st. bind_lem (on_trace-Holds n ds _) (λ _. watch-Holds ds rounds deadline))
        (λ _. skip_lem (λ s p. p))

  -- The watch may raise only what is no `DeviceError`.
  watch_unit-Holds :
      (ds : List Disc)
      → Triple Any
          (Holding n ds)
          (watch_unit T fuel)
          (λ _. Holding n ds)
          (λ e s. (is_device_error e ≡ false) × Holding n ds s)
  unfolding watch_unit
  watch_unit-Holds ds = bind_lem (on_trace-Holds n ds _) λ _. bind_lem (now_ms-Holds ds) λ now.
      handle_lem is_device_error _ (watch-Holds ds fuel (now + 10_000))
        (λ e c. on_trace-Holds n ds _) (λ e s c p. (c, p))

  report_load-Ends :
      (ds : List Disc) (slot : ℕ) (disc_id : Option ℕ) (id : ℕ)
      → Triple Any
          (Holding n ds)
          (report_load T fuel slot disc_id id)
          (λ _. Ends n ds Phase.done)
          (λ _ _. ⊥)
  unfolding report_load
  report_load-Ends ds slot none id = succeed-Ends n ds _ _
  report_load-Ends ds slot (some k) id =
      bind_lem (weaken (query_lem (get_disc-Rows n ds id)) (λ s p. p) (λ a s p. p) (λ e s p. p.0))
        (λ row. succeed-Ends n ds _ _)

  catalogue-Holds :
      (ds : List Disc) (slot : ℕ) (disc_id : Option ℕ)
      → Triple Any
          (Holding n ds)
          (catalogue T fuel slot disc_id)
          (λ _. Holding n (loaded n slot disc_id ds))
          (λ _. Holding n ds)
  unfolding catalogue
  catalogue-Holds ds slot none =
      weaken (query_lem (create_disc-Rows n ds slot _ _)) (λ s p. p) (λ a s p. (p.0.1, p.1))
        (λ e s p. p)
  catalogue-Holds ds slot (some id) =
      bind_lem (query_lem (mark_stored-Rows n ds id _ _)) (λ _. pure_lem _ (λ s p. p))

  module _ (ds : List Disc) (slot : ℕ) (disc_id : Option ℕ) where
    abbrev After_load : List Disc
    After_load = loaded n slot disc_id ds

    abbrev AddEnd : DiscStakka W Shared → Type 0
    AddEnd s = Ends n ds Phase.failed s ⊎ Ends n After_load Phase.done s

    -- A `DeviceError` comes only from before the disc was catalogued.
    abbrev AddRaised : Exc → DiscStakka W Shared → Type 0
    AddRaised e s = Holding n ds s ⊎ ((is_device_error e ≡ false) × Holding n After_load s)

    abbrev Adds : Call W Shared Done → Type 0
    Adds m = Triple Any (Holding n ds) m (λ _. AddEnd) AddRaised

    nothing_inserted-Adds : Adds (nothing_inserted T fuel slot disc_id)
    unfolding nothing_inserted
    nothing_inserted-Adds =
        weaken
          (bind_lem (set_phase-Holds T n ds _ _ _) λ _. bind_lem (park-Holds T fuel n ds) λ _.
            bind_lem (query_lem (log_event-Rows n ds _ _ _ _))
              λ _. bind_lem (query_lem (commit-Rows n ds)) (λ _. fail-Ends n ds _ _))
          (λ s p. p) (λ a s p. inl p) (λ e s p. inl p)

    before_the_row :
        {A : Type 0} {m : Call W Shared A} {f : A → Call W Shared Done}
        → Holds n ds m
        → ((a : A) → Adds (f a))
        → Adds (m >>= f)
    before_the_row h k = bind_lem (weaken h (λ s p. p) (λ a s p. p) (λ e s p. inl p)) k

    load-Adds : Adds (load T fuel slot disc_id)
    unfolding load
    load-Adds = before_the_row (set_phase-Holds T n ds _ _ _) λ _.
        before_the_row (on_trace-Holds n ds _) λ _.
          before_the_row (ingest-Holds T fuel n ds job_note Quiet-note) λ _.
            before_the_row (on_trace-Holds n ds _) λ _.
              before_the_row (set_phase-Holds T n ds _ _ _) λ _.
                before_the_row (park-Holds T fuel n ds) λ _.
                  bind_lem
                    (weaken (catalogue-Holds ds slot disc_id) (λ s p. p) (λ a s p. p)
                      (λ e s p. inl p))
                    λ id.
                      bind_lem
                        (weaken (watch_unit-Holds After_load) (λ s p. p) (λ a s p. p)
                          (λ e s p. inr p))
                        λ _.
                          weaken (report_load-Ends After_load slot disc_id id) (λ s p. p)
                            (λ a s p. inr p) (λ e s p. absurd p)

    run_add-Adds : Adds (run_add T fuel slot disc_id)
    unfolding run_add
    run_add-Adds = before_the_row (set_phase-Holds T n ds _ _ _) λ _.
        before_the_row (on_trace-Holds n ds _) λ _.
          before_the_row (move_to-Holds T fuel n ds slot false job_note Quiet-note) λ _.
            before_the_row (set_phase-Holds T n ds _ _ _) λ _.
              before_the_row (on_trace-Holds n ds _) λ _.
                before_the_row (wait_for_insert-Holds T fuel n ds)
                  λ seen. if_lem seen (λ _. load-Adds) (λ _. nothing_inserted-Adds)

    AddEnd-Added :
        (s : DiscStakka W Shared)
        → AddEnd s
        → Added n ds slot disc_id s.caller.job.phase s.caller.conn.live.discs
          × (s.caller.conn.saved.discs ≡ s.caller.conn.live.discs)
    AddEnd-Added s (inl (e, p)) = (inl (e, p.0.0), cc)
    AddEnd-Added s (inr (e, p)) = (inr (e, p.0.0), cc)

    AddRaised-Rows :
        (e : Exc) (s : DiscStakka W Shared)
        → AddRaised e s
        → (is_device_error e ≡ false) ⊎ Rows n ds s.caller.conn
    AddRaised-Rows e s (inl p) = inr p.0
    AddRaised-Rows e s (inr p) = inl p.0

    -- A load that begins with the rows `ds`, nothing uncommitted, and a trace that leaves the
    -- connection alone: if the flow returns, then either the job failed and the rows are as they
    -- were, or the job is done and the catalogue has the disc, by a new row in front of the others
    -- or by the row of the returned disc put back, and this is committed. If the flow raises a
    -- `DeviceError`, the rows are as they were: losing the unit after the disc was catalogued is no
    -- failure of the load.
    pub load_catalogues_the_disc :
        (s : DiscStakka W Shared)
        → Rows n ds s.caller.conn
        → IsQuiet s.trace
        → After Any
            (λ _ s'.
              Added n ds slot disc_id s'.caller.job.phase s'.caller.conn.live.discs
              × (s'.caller.conn.saved.discs ≡ s'.caller.conn.live.discs))
            (λ e s'. (is_device_error e ≡ false) ⊎ Rows n ds s'.caller.conn)
            (run_add T fuel slot disc_id s).0
            (run_add T fuel slot disc_id s).1
    load_catalogues_the_disc s p q =
        (weaken run_add-Adds (λ s p. p) (λ a s p. AddEnd-Added s p)
            (λ e s p. AddRaised-Rows e s p)).holds
          s (p, q)
