-- ===== src/Controller/Claiming.antt =====
-- A claim gives the unit back, and a probe does not clear an error that is latched.
use disc_stakka_web.Base.{ℕ, suc, ◌≤◌, Bool, true, false, not, Option, none, some, ◌≡◌, refl, arith}
use disc_stakka_web.Effect.{Exc, Outcome, ok, raised, running, ◌>>=◌, pure}
use disc_stakka_web.Effect.Triple.{
  Triple, After, Any, bind_lem, pure_lem, raise_lem, gets_lem, weaken_all,
}
use disc_stakka_web.Transport.{Transport, IsTicking}
use disc_stakka_web.Protocol.Handle.{DiscStakka, Call}
use disc_stakka_web.Protocol.Packet.{is_set, st_ack_timeout, describe_status}
use disc_stakka_web.Protocol.Halting.{Since, Never, halting}
use disc_stakka_web.Protocol.Stable.{status-Kept, position-Kept}
use disc_stakka_web.Protocol.Connection
use disc_stakka_web.Protocol.Opening.{open_unit-Ends, reconnect-Ends}
use disc_stakka_web.Catalog.Db.{is_some}
use disc_stakka_web.Controller.Claims.{
  Desk, Claimed, busy_with, granted, Probe, hold, release_after, claim_with, claim_unless, claimed,
  reconnect, serial_number, position_unless, read_unit, probe,
}

abbrev pub IsGranted : {A : Type 0} → (A → Type 0) → Claimed A → Type 0
IsGranted P (busy_with ref) = ⊥
IsGranted P (granted a) = P a

-- What a claim promises, by the job in the way and by whether it got the lock. A job is named and the
-- unit untouched. Without the lock nothing is touched. With it the call ends and gives the lock back,
-- and `P` is true of what it returns.
abbrev pub Settles :
    {W A : Type 0}
    → (A → Type 0)
    → Option ℕ
    → Bool
    → DiscStakka W Desk
    → Outcome (Claimed A) × DiscStakka W Desk
    → Type 0
Settles P (some ref) got s r = r ≡ (ok (busy_with ref), s)
Settles P none false s r = (r.1 ≡ s) × After (λ _. ⊥) (λ _. Any) (λ _. Any) r.0 r.1
Settles P none true s r =
    (r.1.caller.held ≡ false) × After (λ _. ⊥) (λ c _. IsGranted P c) (λ _. Any) r.0 r.1

-- What does not speak of the state stays true in another.
After-elsewhere :
    {S A : Type 0} (P : A → Type 0) (r : Outcome A) (s t : S)
    → After (λ _. ⊥) (λ a _. P a) (λ _. Any) r s
    → After (λ _. ⊥) (λ a _. P a) (λ _. Any) r t
After-elsewhere P (ok a) s t h = h
After-elsewhere P (raised e) s t h = tt
After-elsewhere P running s t h = h

module _ {W A : Type 0} (P : A → Type 0) (m : Call W Desk A)
    (body : Triple (λ _. ⊥) Any m (λ a _. P a) (λ _. Any)) where
  release_after-Settles :
      (s : DiscStakka W Desk)
      → ((release_after m s).1.caller.held ≡ false)
        × After
            (λ _. ⊥)
            (λ c _. IsGranted P c)
            (λ _. Any)
            (release_after m s).0
            (release_after m s).1
  unfolding release_after hold
  release_after-Settles s =
      let full : Triple (λ _. ⊥) Any (m >>= λ a. pure (granted a)) (λ c _. IsGranted P c)
          (λ _. Any) =
        bind_lem body (λ a. pure_lem (granted a) (λ s p. p)) in
      (refl, After-elsewhere (IsGranted P) _ _ _ (full.holds s tt))

  claim_with-Settles :
      (got : Bool) (later : Option ℕ) (last : Option Exc) (s : DiscStakka W Desk)
      → Settles P none got s (claim_with got later last m s)
  unfolding hold
  claim_with-Settles true later last s = release_after-Settles (hold true s).1
  claim_with-Settles false (some ref) last s = (refl, tt)
  claim_with-Settles false none none s = (refl, tt)
  claim_with-Settles false none (some e) s = (refl, tt)

  claim_unless-Settles :
      (current : Option ℕ) (got : Bool) (later : Option ℕ) (last : Option Exc)
      (s : DiscStakka W Desk)
      → Settles P current got s (claim_unless current got later last m s)
  claim_unless-Settles (some ref) got later last s = refl
  claim_unless-Settles none got later last s = claim_with-Settles got later last s

  claimed-Settles :
      (s : DiscStakka W Desk) → Settles P s.caller.current_before s.caller.acquired s (claimed m s)
  unfolding claimed
  claimed-Settles s =
      claim_unless-Settles s.caller.current_before s.caller.acquired s.caller.current_after
        s.caller.open_error s

-- The position is given exactly if the status word shows no latched error.
abbrev pub SparesError : Probe → Type 0
SparesError p = is_some p.position ≡ not (is_set p.status.0 st_ack_timeout)

module _ {W : Type 0} (T : Transport W) (tick : IsTicking T) (k : ℕ) (enough : 30_000 ≤ k) where
  abbrev Ends : {A : Type 0} → (A → Type 0) → Call W Desk A → Type 0
  Ends P m =
      Triple (Never T tick) (Since T tick 0) m (λ a s. Since T tick 0 s × P a) (λ _. Since T tick 0)

  position_unless-Ends :
      (latched : Bool)
      → Ends (λ slot. is_some slot ≡ not latched) (position_unless T (suc k) latched)
  position_unless-Ends true = pure_lem none (λ s p. (p, refl))
  position_unless-Ends false =
      bind_lem (position-Kept (halting T tick k 0 enough) refl refl)
        (λ n. pure_lem (some n) (λ s p. (p, refl)))

  serial_number-Ends : (known : Option ℕ) → Ends (λ _. Unit) (serial_number T (suc k) known)
  serial_number-Ends none = raise_lem _ (λ s p. p)
  serial_number-Ends (some n) = pure_lem n (λ s p. (p, tt))

  read_unit-Ends : Ends SparesError (read_unit T (suc k))
  unfolding read_unit describe_status
  read_unit-Ends = bind_lem (open_unit-Ends T tick k (omega (arith, enough)) 3 0) λ _.
      bind_lem (status-Kept (halting T tick k 0 enough) refl) λ word.
        bind_lem (gets_lem {Q = λ _. Since T tick 0} (λ s. s.serial) (λ s p. p)) λ known.
          bind_lem (serial_number-Ends known) λ number.
            bind_lem (gets_lem {Q = λ _. Since T tick 0} (λ s. s.firmware) (λ s p. p.0)) λ version.
              bind_lem (position_unless-Ends (is_set word st_ack_timeout))
                (λ slot. pure_lem _ (λ s p. p))

  probing : Triple (λ _. ⊥) Any (read_unit T (suc k)) (λ p _. SparesError p) (λ _. Any)
  probing = weaken_all read_unit-Ends (λ s p. omega arith) (λ s b. b) (λ a s q. q.1) (λ e s q. tt)

  reconnecting :
      Triple
        (λ _. ⊥)
        Any
        (Connection.reconnect T (suc k))
        (λ _ (_ : DiscStakka W Desk). Unit)
        (λ _. Any)
  reconnecting =
      weaken_all (reconnect-Ends T tick k (omega (arith, enough)) 0) (λ s p. omega arith) (λ s b. b)
        (λ a s q. tt) (λ e s q. tt)

  -- With a clock that ticks, fuel for 30 seconds, and whatever the unit does: if a job is in the way,
  -- `probe` and `reconnect` name it and do not touch the unit. Without a job they end; if the wait for
  -- the lock was in vain they have not touched the unit either, and otherwise they give the lock back.
  -- A probe that returns gives the position exactly if the status word it read shows no latched error,
  -- which the request of the position would clear.
  pub claims_give_the_unit_back :
      (s : DiscStakka W Desk)
      → Settles SparesError s.caller.current_before s.caller.acquired s (probe T (suc k) s)
        × Settles (λ _. Unit) s.caller.current_before s.caller.acquired s (reconnect T (suc k) s)
  unfolding probe reconnect
  claims_give_the_unit_back s = (
    claimed-Settles SparesError (read_unit T (suc k)) probing s,
    claimed-Settles (λ _. Unit) (Connection.reconnect T (suc k)) reconnecting s,
  )
