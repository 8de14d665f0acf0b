-- ===== src/Protocol/Results.antt =====
-- What an operation that returned has seen on the wire.
use disc_stakka_web.Base.{
  ℕ, Bool, true, false, ◌==◌, ◌&&◌, leb, if◌then◌else◌, some, ◌≡◌, refl, subst,
}
use disc_stakka_web.Effect.{Text, ok, format, nil, skip, ◌>>=◌}
use disc_stakka_web.Effect.Triple.{
  Triple, Any, then_lem, bind_lem, if_lem, skip_lem, raise_lem, pure_lem, returned_lem, weaken,
}
use disc_stakka_web.Transport.{Transport}
use disc_stakka_web.Protocol.Packet.{
  Packet, is_set, st_homed, st_busy, settle_ms, settled_now_ms, cmd_set_pos,
}
use disc_stakka_web.Protocol.Handle.{DiscStakka, Operands, operands, Progress, report, command}
use disc_stakka_web.Protocol.Waiting.{wait_state, wait_idle, or_raise, require, ensure_homed}
use disc_stakka_web.Protocol.Moves.{
  move_in_range, move_to, retract, require_retract, refuse_with_a_disc_out,
}
use disc_stakka_web.Protocol.Replies.{
  Reply, Satisfied, FlagReported, BayReported, Reported-Flag, status-Reported, command-Answered,
  wait_state-Satisfied, disc_in_bay-BayReported,
}

module _ {W J : Type 0} (T : Transport W) (fuel : ℕ) where
  settled-Idle :
      (message : Text)
      → Triple {S = DiscStakka W J} Any Any
          (wait_idle T fuel settle_ms >>= or_raise T fuel message)
          (λ _ s. Satisfied st_busy 0 s.events)
          (λ _. Any)
  unfolding wait_idle
  settled-Idle message =
      bind_lem (wait_state-Satisfied T fuel st_busy 0 settle_ms)
        λ found. if_lem found (λ e. skip_lem (λ s p. p e)) (λ _. raise_lem _ (λ s p. tt))

  move_to-Idle :
      (slot : ℕ) (eject : Bool) (progress : Progress J)
      → Triple {S = DiscStakka W J} Any Any
          (move_to T fuel slot eject progress)
          (λ _ s. Satisfied st_busy 0 s.events)
          (λ _. Any)
  unfolding move_to move_in_range
  move_to-Idle slot eject progress =
      if_lem (leb 0 slot && leb slot 100)
        (λ _.
          then_lem (wait_idle T fuel settle_ms >>= or_raise T fuel (format "unit is busy" nil)) λ _.
            then_lem (refuse_with_a_disc_out T fuel) λ _.
              then_lem (if slot == 0 then skip else ensure_homed T fuel progress) λ _.
                then_lem (require T fuel cmd_set_pos (operands slot (if eject then 1 else 0)))
                  λ _. settled-Idle _)
        (λ _. raise_lem _ (λ s p. tt))

  ensure_homed-Homed :
      (progress : Progress J)
      → Triple {S = DiscStakka W J} Any Any
          (ensure_homed T fuel progress)
          (λ _ s. FlagReported st_homed true s.events)
          (λ _. Any)
  unfolding ensure_homed
  ensure_homed-Homed progress = bind_lem (status-Reported T fuel) λ first.
      if_lem (is_set first st_homed)
        (λ e. skip_lem (λ s p.
          subst (λ b. FlagReported st_homed b s.events) e
            (Reported-Flag st_homed first s.events p)))
        (λ _.
          then_lem
            (wait_idle T fuel settle_ms
              >>= or_raise T fuel (format "unit is busy; cannot home it" nil))
            λ _. then_lem (report progress (format "Homing carousel..." nil)) λ _.
              then_lem (require T fuel cmd_set_pos (operands 0 0)) λ _.
                then_lem
                  (wait_idle T fuel settle_ms
                    >>= or_raise T fuel (format "timed out homing the carousel" nil))
                  λ _.
                    bind_lem (weaken (status-Reported T fuel) (λ s p. tt) (λ a s p. p) (λ e s p. p))
                      λ last.
                        if_lem (is_set last st_homed)
                          (λ e. skip_lem (λ s p.
                            subst (λ b. FlagReported st_homed b s.events) e
                              (Reported-Flag st_homed last s.events p)))
                          (λ _. raise_lem _ (λ s p. tt)))

  retract-Empty :
      (progress : Progress J)
      → Triple {S = DiscStakka W J} Any Any
          (retract T fuel progress)
          (λ _ s. BayReported false s.events)
          (λ _. Any)
  unfolding retract
  retract-Empty progress = then_lem (report progress (format "Retracting disc..." nil)) λ _.
      then_lem (wait_idle T fuel settled_now_ms) λ _. then_lem (require_retract T fuel) λ acked.
        then_lem
          (wait_idle T fuel settle_ms
            >>= or_raise T fuel (format "timed out taking the disc back" nil))
          λ _.
            bind_lem (weaken (disc_in_bay-BayReported T fuel) (λ s p. tt) (λ a s p. p) (λ e s p. p))
              (elim [ true ↦ raise_lem _ (λ s p. tt) | false ↦ pure_lem _ (λ s p. p) ])

  -- A reply that `command` returns is the packet heard last, and its message number is that of a
  -- frame with this command that was written before.
  pub command_pairs_reply :
      (cmd : ℕ) (x : Operands) (timeout : ℕ) (s : DiscStakka W J) (p : Packet)
      → (command T fuel cmd x timeout s).0 ≡ ok (some p)
      → Reply cmd p (command T fuel cmd x timeout s).1.events
  command_pairs_reply cmd x timeout s p e =
      returned_lem (command-Answered T fuel cmd x timeout) s tt (some p) e

  -- `wait_state` returns `True` only if the packet heard last answers a request of the state, is one
  -- of the replies that carry status flags, and has the flags under the mask as wanted.
  pub wait_state_saw_status :
      (mask want timeout : ℕ) (s : DiscStakka W J)
      → (wait_state T fuel mask want timeout s).0 ≡ ok true
      → Satisfied mask want (wait_state T fuel mask want timeout s).1.events
  wait_state_saw_status mask want timeout s e =
      returned_lem (wait_state-Satisfied T fuel mask want timeout) s tt true e refl

  -- A `move_to` that returns has just heard a status reply with both busy flags clear.
  pub move_to_ends_idle :
      (slot : ℕ) (eject : Bool) (progress : Progress J) (s : DiscStakka W J)
      → (move_to T fuel slot eject progress s).0 ≡ ok tt
      → Satisfied st_busy 0 (move_to T fuel slot eject progress s).1.events
  move_to_ends_idle slot eject progress s e =
      returned_lem (move_to-Idle slot eject progress) s tt tt e

  -- An `ensure_homed` that returns has just heard a reply to a request of the state with the homed
  -- flag set.
  pub ensure_homed_saw_homed :
      (progress : Progress J) (s : DiscStakka W J)
      → (ensure_homed T fuel progress s).0 ≡ ok tt
      → FlagReported st_homed true (ensure_homed T fuel progress s).1.events
  ensure_homed_saw_homed progress s e = returned_lem (ensure_homed-Homed progress) s tt tt e

  -- A `retract` that returns, acknowledged or not, has just heard a reply to a request of the state
  -- that shows an empty bay.
  pub retract_saw_empty_bay :
      (progress : Progress J) (s : DiscStakka W J) (acked : Bool)
      → (retract T fuel progress s).0 ≡ ok acked
      → BayReported false (retract T fuel progress s).1.events
  retract_saw_empty_bay progress s acked e = returned_lem (retract-Empty progress) s tt acked e
