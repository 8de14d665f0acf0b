-- ===== src/Protocol/Rotation.antt =====
-- "Rotating with a disc in the bay is how it gets hurt" (a comment of discstakka/flows.py): when the
-- carousel may turn, for discstakka/protocol.py.
use disc_stakka_web.Base.{
  ℕ, Bool, true, false, ◌==◌, ◌&&◌, leb, if◌then◌else◌, none, refl, List, [],
}
use disc_stakka_web.Effect.{is_device_error}
use disc_stakka_web.Effect.Triple.{
  Triple, Keeps, bind_lem, handle_lem, weaken_all, raise_lem, if_lem, skip_lem, both_lem, final_lem,
}
use disc_stakka_web.Transport.{Transport}
use disc_stakka_web.Protocol.Packet.{cmd_set_pos}
use disc_stakka_web.Protocol.Handle.{DiscStakka, operands, Progress}
use disc_stakka_web.Protocol.Moves.{refuse_with_a_disc_out, move_in_range, move_to, reset, park}
use disc_stakka_web.Protocol.Stable.{
  Stable, report-Kept, require-Kept, settled-Kept, ensure_homed-Kept, disc_in_bay-Kept,
}
use disc_stakka_web.Protocol.Events.{AnyChange, on_events, events-Stable}
use disc_stakka_web.Protocol.Termination.{Quiet-any}
use disc_stakka_web.Protocol.Replies.{disc_in_bay-BayReported}
use disc_stakka_web.Protocol.EmptyBay.{
  IsGuarded, same_bytes_self, SawEmptyBay-any, BayReported-SawEmptyBay, told, no_moves, calms,
  requests_or, unguarded, Cleared, homing, moving,
}

module _ {W J : Type 0} (T : Transport W) (fuel : ℕ) where
  abbrev pub Guarded : DiscStakka W J → Type 0
  Guarded s = IsGuarded s.events

  pub before : Stable T fuel Guarded no_moves AnyChange Guarded (λ _. Guarded)
  before = events-Stable T fuel (λ l _ _. IsGuarded l) (on_events unguarded)

  abbrev GuardedClear : List ℕ → DiscStakka W J → Type 0
  GuardedClear m s = Cleared m s.events

  after : Stable T fuel (GuardedClear []) calms AnyChange (GuardedClear []) (λ _. GuardedClear [])
  after = events-Stable T fuel (λ l _ _. Cleared [] l) (on_events homing)

  at_move :
      (m : List ℕ)
      → Stable T fuel
          (GuardedClear m)
          (requests_or m)
          AnyChange
          (GuardedClear m)
          (λ _. GuardedClear m)
  at_move m = events-Stable T fuel (λ l _ _. Cleared m l) (on_events (moving m))

  refuse-Cleared :
      Triple Guarded Guarded (refuse_with_a_disc_out T fuel) (λ _. GuardedClear []) (λ _. Guarded)
  unfolding refuse_with_a_disc_out
  refuse-Cleared =
      bind_lem
        (weaken_all (both_lem (disc_in_bay-Kept before refl) (disc_in_bay-BayReported T fuel))
          (λ s p. (p, tt)) (λ s p. p.0) (λ a s p. p) (λ e s p. p.0))
        (elim [
          | true ↦ raise_lem _ (λ s p. p.0)
          | false ↦ skip_lem (λ s p. (p.0, BayReported-SawEmptyBay s.events p.1))
        ])

  move_in_range-Guarded :
      (slot : ℕ) (eject : Bool) (progress : Progress J)
      → Keeps Guarded (move_in_range T fuel slot eject progress)
  unfolding move_in_range
  move_in_range-Guarded slot eject progress =
      let m = told cmd_set_pos (operands slot (if eject then 1 else 0)) in
      let st = at_move m in
      bind_lem (settled-Kept before refl _) λ _. bind_lem refuse-Cleared λ _.
        bind_lem
          (weaken_all
            (if_lem (slot == 0) (λ _. skip_lem (λ s p. p))
              (λ _. ensure_homed-Kept after refl progress (Quiet-any progress) refl))
            (λ s p. p) (λ s p. p.0) (λ a s p. p) (λ e s p. p.0))
          λ _.
            weaken_all
              (bind_lem (require-Kept st refl _ _ (same_bytes_self m))
                (λ _. settled-Kept st refl _))
              (λ s p. (p.0, SawEmptyBay-any m s.events p.1)) (λ s p. p.0) (λ a s p. p.0)
              (λ e s p. p.0)

  pub move_to-Guarded :
      (slot : ℕ) (eject : Bool) (progress : Progress J)
      → Keeps Guarded (move_to T fuel slot eject progress)
  unfolding move_to
  move_to-Guarded slot eject progress =
      if_lem (leb 0 slot && leb slot 100) (λ _. move_in_range-Guarded slot eject progress)
        (λ _. raise_lem _ (λ s p. p))

  pub park-Guarded : (progress : Progress J) → Keeps Guarded (park T fuel progress)
  unfolding park
  park-Guarded progress = bind_lem (report-Kept before refl progress _ (Quiet-any progress)) λ _.
      handle_lem is_device_error _ (move_to-Guarded 0 false none) (λ e c. skip_lem (λ s p. p))
        (λ e s _ p. p)

  pub reset-Guarded : (progress : Progress J) → Keeps Guarded (reset T fuel progress)
  unfolding reset
  reset-Guarded progress = bind_lem (report-Kept before refl progress _ (Quiet-any progress)) λ _.
      bind_lem (before.command_keeps _ _ refl) λ _. bind_lem (before.command_keeps _ _ refl) λ _.
        bind_lem (before.command_keeps _ _ refl) λ _. bind_lem (settled-Kept before refl _) λ _.
          bind_lem refuse-Cleared λ _.
            weaken_all
              (bind_lem (after.command_keeps _ _ refl) λ _.
                bind_lem (report-Kept after refl progress _ (Quiet-any progress))
                  λ _. bind_lem (require-Kept after refl _ _ refl) λ _. settled-Kept after refl _)
              (λ s p. p) (λ s p. p.0) (λ a s p. p.0) (λ e s p. p.0)

  -- Every move that `move_to`, `reset` or `park` writes comes after a packet that answers a request
  -- of the state and shows an empty bay; and between the two nothing was written but requests of the
  -- state, the LED, moves that present no disc, and the same move. If that was so of the moves
  -- written before; however the call ends, and also if the fuel runs out in the middle of it.
  pub moves_see_an_empty_bay :
      (slot : ℕ) (eject : Bool) (progress : Progress J) (s : DiscStakka W J)
      → IsGuarded s.events
      → IsGuarded (move_to T fuel slot eject progress s).1.events
        × IsGuarded (reset T fuel progress s).1.events
        × IsGuarded (park T fuel progress s).1.events
  moves_see_an_empty_bay slot eject progress s h = (
    final_lem (move_to-Guarded slot eject progress) s h,
    final_lem (reset-Guarded progress) s h,
    final_lem (park-Guarded progress) s h,
  )
