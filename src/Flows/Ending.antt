-- ===== src/Flows/Ending.antt =====
-- The flows end, if the clock ticks.
use disc_stakka_web.Base.{ℕ, zero, suc, ◌+◌, ◌≤◌, ltb, Option, none, some, ◌≢◌, refl, arith}
use disc_stakka_web.Effect.{running, is_device_error}
use disc_stakka_web.Effect.Triple.{
  Triple, bind_lem, handle_lem, pure_lem, skip_lem, if_lem, weaken, known_lem, ended_lem,
}
use disc_stakka_web.Transport.{Transport, IsTicking}
use disc_stakka_web.Protocol.Packet.{ack_ms}
use disc_stakka_web.Protocol.Handle.{DiscStakka, Call}
use disc_stakka_web.Protocol.Waiting.{status, require, require_from}
use disc_stakka_web.Protocol.Stable.{wait_idle-Kept, require_from-Kept, disc_in_bay-Kept}
use disc_stakka_web.Protocol.Stable.Moves.{
  move_to-Kept, reset-Kept, park-Kept, wait_for_insert-Kept, wait_for_take-Kept, ingest-Kept,
  retract-Kept,
}
use disc_stakka_web.Protocol.Termination.{Quiet-any}
use disc_stakka_web.Protocol.Halting.{Since, Never, now_ms-Ends, command-ticks, halting}
use disc_stakka_web.Protocol.Opening.{no_pass}
use disc_stakka_web.Trace.{Trace}
use disc_stakka_web.Flows.{Shared, job_note, on_trace, run_reset, run_eject}
use disc_stakka_web.Flows.Add.{watch, watch_unit, run_add}
use disc_stakka_web.Flows.Kept.{Operated, run_reset-Stays, run_eject-Stays, run_add-Stays}

module _ {W : Type 0} (T : Transport W) (tick : IsTicking T) (k : ℕ) (enough : 30_000 ≤ k) where
  abbrev Reached : ℕ → DiscStakka W Shared → Type 0
  Reached t = Since T tick t

  abbrev Ends : {A : Type 0} → ℕ → Call W Shared A → Type 0
  Ends t m = Triple (Never T tick) (Reached t) m (λ _. Reached t) (λ _. Reached t)

  -- A status that is read takes time.
  status-ticks :
      (t : ℕ)
      → Triple (Never T tick) (Reached t) (status T (suc k)) (λ _. Reached (t + 1)) (λ _. Reached t)
  unfolding status require require_from
  status-ticks t =
      let st = halting T tick k (t + 1) enough in
      bind_lem
        (bind_lem (command-ticks T tick k _ _ ack_ms t (omega arith) (omega arith)) (elim [
          | some p ↦ pure_lem p (λ s i. i)
          | none ↦
              weaken
                (bind_lem
                  (bind_lem (wait_idle-Kept st refl 2_000 (omega arith)) (λ _. skip_lem (λ s i. i)))
                  (λ _. require_from-Kept st refl 3 2 _ _ refl))
                (λ s p. p) (λ a s p. p) (λ e s p. omega arith)
        ]))
        (λ p. pure_lem _ (λ s i. i))

  on_trace-Reached : {t : ℕ} (f : Trace → Trace) → Ends t (on_trace f)
  unfolding on_trace
  on_trace-Reached f = record { holds = λ s p. p }

  watch-Ends :
      (rounds deadline t : ℕ)
      → deadline ≤ t + rounds
      → Ends t (watch T (suc k) (suc rounds) deadline)
  unfolding watch
  watch-Ends zero deadline t h = bind_lem (now_ms-Ends T tick t) λ now.
      if_lem (ltb now deadline)
        (λ early. known_lem ⊥ (λ s p. no_pass now deadline (omega arith) early) (λ no. absurd no))
        (λ late. skip_lem (λ s p. p.1))
  watch-Ends (suc rounds) deadline t h = bind_lem (now_ms-Ends T tick t) λ now.
      if_lem (ltb now deadline)
        (λ early.
          weaken
            (bind_lem (status-ticks t) λ st.
              weaken
                (bind_lem (on_trace-Reached {t = t + 1} _)
                  λ _. watch-Ends rounds deadline (t + 1) (omega arith))
                (λ s p. p) (λ a s p. omega arith) (λ e s p. omega arith))
            (λ s p. p.1) (λ a s p. p) (λ e s p. p))
        (λ late. skip_lem (λ s p. p.1))

  watch_unit-Ends : (t : ℕ) → Ends t (watch_unit T (suc k))
  unfolding watch_unit
  watch_unit-Ends t = bind_lem (on_trace-Reached _) λ _. bind_lem (now_ms-Ends T tick t) λ now.
      known_lem (t ≤ now) (λ s p. omega arith)
        λ later.
          handle_lem is_device_error _
            (weaken (watch-Ends k (now + 10_000) now (omega arith)) (λ s p. omega arith)
              (λ a s p. omega arith) (λ e s p. omega arith))
            (λ e c. on_trace-Reached _) (λ e s c p. p)

  pub operations : (t : ℕ) → Operated T (suc k) (Never T tick) (Reached t)
  operations t =
      let st = halting T tick k t enough in
      let quiet = Quiet-any job_note in
      record {
        caller_keeps = λ s j p. p;
        reset_keeps = reset-Kept st refl job_note quiet refl refl refl refl;
        move_keeps = λ slot eject. move_to-Kept st refl slot eject job_note quiet (λ _. refl);
        park_keeps = park-Kept st refl none tt (λ _. refl) (λ e s c p. p);
        insert_keeps = wait_for_insert-Kept st refl;
        take_keeps = wait_for_take-Kept st refl;
        bay_keeps = disc_in_bay-Kept st refl;
        ingest_keeps = ingest-Kept st refl job_note quiet refl;
        retract_keeps = retract-Kept st refl job_note quiet refl (λ e s c p. p);
        watch_keeps = watch_unit-Ends t;
      }

  -- With a clock that ticks and fuel for 30,000 milliseconds, every flow returns or raises, the watch
  -- of ten seconds at the end of a load included.
  pub flows_end :
      (slot : ℕ) (disc_id : Option ℕ) (id : ℕ) (s : DiscStakka W Shared)
      → ((run_reset T (suc k) s).0 ≢ running)
        × ((run_eject T (suc k) id s).0 ≢ running)
        × ((run_add T (suc k) slot disc_id s).0 ≢ running)
  flows_end slot disc_id id s =
      let ops = operations (T.now_ms s.io) in
      (
        ended_lem (run_reset-Stays ops) s (omega arith) (λ _ b. b),
        ended_lem (run_eject-Stays ops id) s (omega arith) (λ _ b. b),
        ended_lem (run_add-Stays ops slot disc_id) s (omega arith) (λ _ b. b),
      )
