-- ===== src/Controller/Worker.antt =====
-- The worker of a job: it reports an end, whatever the unit and the runner do.
use disc_stakka_web.Base.{ℕ, suc, ◌≤◌, true, Option, none, ◌≡◌, refl, arith}
use disc_stakka_web.Effect.{Outcome, ok, raised, running, Done}
use disc_stakka_web.Effect.Triple.{Triple, After, Any, any_lem, weaken}
use disc_stakka_web.Transport.{Transport, IsTicking}
use disc_stakka_web.Protocol.Handle.{DiscStakka, Call}
use disc_stakka_web.Protocol.Halting.{Since, Never}
use disc_stakka_web.Protocol.Opening.{open_unit-Ends}
use disc_stakka_web.Jobs
use disc_stakka_web.Catalog.Db.{Query}
use disc_stakka_web.Flows.{Shared, run_reset, run_eject}
use disc_stakka_web.Flows.Add.{run_add}
use disc_stakka_web.Flows.Kept.{IsTotal, run_reset-Stays, run_eject-Stays, run_add-Stays}
use disc_stakka_web.Flows.Ending.{operations}
use disc_stakka_web.Controller.Run.{run_owned}
use disc_stakka_web.Controller.Finish.{run_owned-IsOver}

-- The outcome of a worker that is done.
abbrev pub IsFinished : {W : Type 0} → Outcome Done → DiscStakka W Shared → Type 0
IsFinished r s = (r ≡ ok tt) × (Jobs.finished s.caller.job ≡ true) × (s.trace ≡ none)

module _ {W : Type 0} (T : Transport W) (fuel : ℕ) (connect : Query Done)
    (total : IsTotal connect) where
  -- Whatever the runner and the transport do, and if the opening of the database gives a result, a
  -- value or an exception: a worker that does not run out of fuel raises nothing, and leaves the
  -- job finished and the trace of the unit off.
  pub worker_reports_an_end :
      (runner : Call W Shared Done) (s : DiscStakka W Shared)
      → After Any
          (λ _ s'. (Jobs.finished s'.caller.job ≡ true) × (s'.trace ≡ none))
          (λ _ _. ⊥)
          (run_owned T fuel connect runner s).0
          (run_owned T fuel connect runner s).1
  worker_reports_an_end runner s =
      (weaken
          (run_owned-IsOver Any Any (record { caller_keeps = λ s j p. p; trace_keeps = λ s t p. p })
            T fuel connect runner total any_lem any_lem)
          (λ s p. p) (λ a s p. (p.0, p.1)) (λ e s p. p)).holds
        s tt

module _ {W : Type 0} (T : Transport W) (tick : IsTicking T) (k : ℕ) (enough : 30_000 ≤ k)
    (connect : Query Done) (total : IsTotal connect) where
  After-IsFinished :
      (r : Outcome Done) (s : DiscStakka W Shared) (t : ℕ)
      → After
          (Never T tick)
          (λ _ s'. (Jobs.finished s'.caller.job ≡ true) × (s'.trace ≡ none) × Since T tick t s')
          (λ _ _. ⊥)
          r
          s
      → IsFinished r s
  After-IsFinished (ok d) s t p = (refl, p.0, p.1)
  After-IsFinished (raised e) s t p = absurd p
  After-IsFinished running s t p = absurd p

  flow-IsFinished :
      (runner : Call W Shared Done) (s : DiscStakka W Shared)
      → ((t : ℕ)
          → Triple
              (Never T tick)
              (Since T tick t)
              runner
              (λ _. Since T tick t)
              (λ _. Since T tick t))
      → IsFinished (run_owned T (suc k) connect runner s).0 (run_owned T (suc k) connect runner s).1
  flow-IsFinished runner s run =
      let t = T.now_ms s.io in
      After-IsFinished (run_owned T (suc k) connect runner s).0
        (run_owned T (suc k) connect runner s).1 t
        ((run_owned-IsOver (Never T tick) (Since T tick t)
            (record { caller_keeps = λ s j p. p; trace_keeps = λ s t p. p }) T (suc k) connect
            runner total (open_unit-Ends T tick k (omega arith) 3 t) (run t)).holds
          s (omega arith))

  -- With a clock that ticks, fuel for 30,000 milliseconds and an opening of the database that
  -- gives a result, a value or an exception: the worker of each flow returns, with the job
  -- finished and the trace off.
  pub hardware_jobs_finish :
      (slot : ℕ) (disc_id : Option ℕ) (id : ℕ) (s : DiscStakka W Shared)
      → IsFinished
          (run_owned T (suc k) connect (run_reset T (suc k)) s).0
          (run_owned T (suc k) connect (run_reset T (suc k)) s).1
        × IsFinished
            (run_owned T (suc k) connect (run_eject T (suc k) id) s).0
            (run_owned T (suc k) connect (run_eject T (suc k) id) s).1
        × IsFinished
            (run_owned T (suc k) connect (run_add T (suc k) slot disc_id) s).0
            (run_owned T (suc k) connect (run_add T (suc k) slot disc_id) s).1
  hardware_jobs_finish slot disc_id id s =
      let ops = operations T tick k enough in
      (
        flow-IsFinished _ s (λ t. run_reset-Stays (ops t)),
        flow-IsFinished _ s (λ t. run_eject-Stays (ops t) id),
        flow-IsFinished _ s (λ t. run_add-Stays (ops t) slot disc_id),
      )
