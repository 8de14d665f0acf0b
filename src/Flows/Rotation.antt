-- ===== src/Flows/Rotation.antt =====
-- The flows turn the carousel only after they have seen an empty bay.
use disc_stakka_web.Base.{ℕ, zero, suc, ◌+◌, ltb, Option, none, refl}
use disc_stakka_web.Effect.{M, is_device_error}
use disc_stakka_web.Effect.Triple.{
  Keeps, bind_lem, handle_lem, skip_lem, if_lem, fuel_lem, final_lem,
}
use disc_stakka_web.Transport.{Transport}
use disc_stakka_web.Protocol.Handle.{DiscStakka, now_ms}
use disc_stakka_web.Protocol.Stable.{status-Kept, disc_in_bay-Kept}
use disc_stakka_web.Protocol.Stable.Moves.{
  wait_for_insert-Kept, wait_for_take-Kept, ingest-Kept, retract-Kept,
}
use disc_stakka_web.Protocol.Termination.{Quiet-any}
use disc_stakka_web.Protocol.EmptyBay.{IsGuarded}
use disc_stakka_web.Protocol.Rotation.{
  Guarded, before, move_to-Guarded, park-Guarded, reset-Guarded,
}
use disc_stakka_web.Trace.{Trace}
use disc_stakka_web.Flows.{Shared, job_note, on_trace, run_reset, run_eject}
use disc_stakka_web.Flows.Add.{watch, watch_unit, run_add}
use disc_stakka_web.Flows.Kept.{Operated, run_reset-Stays, run_eject-Stays, run_add-Stays}

module _ {W : Type 0} (T : Transport W) (fuel : ℕ) where
  abbrev Guards : {A : Type 0} → M (DiscStakka W Shared) A → Type 0
  Guards m = Keeps (Guarded T fuel) m

  now_ms-Guarded : Guards (now_ms T)
  unfolding now_ms
  now_ms-Guarded = record { holds = λ s p. p }

  on_trace-Guarded : (f : Trace → Trace) → Guards (on_trace f)
  unfolding on_trace
  on_trace-Guarded f = record { holds = λ s p. p }

  watch-Guarded : (rounds deadline : ℕ) → Guards (watch T fuel rounds deadline)
  unfolding watch
  watch-Guarded zero deadline = fuel_lem (λ s p. p)
  watch-Guarded (suc rounds) deadline = bind_lem now_ms-Guarded λ now.
      if_lem (ltb now deadline)
        (λ _.
          bind_lem (status-Kept (before T fuel) refl)
            λ st. bind_lem (on_trace-Guarded _) (λ _. watch-Guarded rounds deadline))
        (λ _. skip_lem (λ s p. p))

  watch_unit-Guarded : Guards (watch_unit T fuel)
  unfolding watch_unit
  watch_unit-Guarded = bind_lem (on_trace-Guarded _) λ _. bind_lem now_ms-Guarded λ now.
      handle_lem is_device_error _ (watch-Guarded fuel (now + 10_000)) (λ e c. on_trace-Guarded _)
        (λ e s c p. p)

  operations : Operated T fuel (Guarded T fuel) (Guarded T fuel)
  operations =
      let st = before T fuel in
      record {
        caller_keeps = λ s j p. p;
        reset_keeps = reset-Guarded T fuel job_note;
        move_keeps = λ slot eject. move_to-Guarded T fuel slot eject job_note;
        park_keeps = park-Guarded T fuel none;
        insert_keeps = wait_for_insert-Kept st refl;
        take_keeps = wait_for_take-Kept st refl;
        bay_keeps = disc_in_bay-Kept st refl;
        ingest_keeps = ingest-Kept st refl job_note (Quiet-any job_note) refl;
        retract_keeps = retract-Kept st refl job_note (Quiet-any job_note) refl (λ e s c p. p);
        watch_keeps = watch_unit-Guarded;
      }

  -- Every move that a reset, an eject or an add writes comes after a packet that answers a request
  -- of the state and shows an empty bay; and between the two nothing was written but requests of the
  -- state, the LED, moves that present no disc, and the same move. If that was so of the moves
  -- written before; however the flow ends, and also if the fuel runs out in the middle of it.
  pub flows_see_an_empty_bay :
      (slot : ℕ) (disc_id : Option ℕ) (id : ℕ) (s : DiscStakka W Shared)
      → IsGuarded s.events
      → IsGuarded (run_reset T fuel s).1.events
        × IsGuarded (run_eject T fuel id s).1.events
        × IsGuarded (run_add T fuel slot disc_id s).1.events
  flows_see_an_empty_bay slot disc_id id s h = (
    final_lem (run_reset-Stays operations) s h,
    final_lem (run_eject-Stays operations id) s h,
    final_lem (run_add-Stays operations slot disc_id) s h,
  )
