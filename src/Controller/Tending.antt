-- ===== src/Controller/Tending.antt =====
-- A pass of the keeper never raises, gives the unit back, and ends.
use disc_stakka_web.Base.{
  ℕ, suc, ◌≤◌, Bool, true, false, if◌then◌else◌, Option, none, some, ◌≡◌, refl, arith,
}
use disc_stakka_web.Effect.{
  Exc, Outcome, ok, raised, running, Done, skip, is_device_error, is_not_connected, any_exception,
}
use disc_stakka_web.Effect.Triple.{Triple, After, bind_lem, handle_lem, pure_lem, skip_lem, if_lem}
use disc_stakka_web.Transport.{Transport, IsTicking}
use disc_stakka_web.Protocol.Handle.{DiscStakka, Call, read}
use disc_stakka_web.Protocol.Halting.{Since, Never}
use disc_stakka_web.Protocol.Opening.{open_unit-Ends}
use disc_stakka_web.Protocol.Connection.{is_connected, alive, present}
use disc_stakka_web.Controller.Keep.{
  Keeper, set_held, set_open_error, is_up, reopen, attempt, tend_free, tend,
}

module _ {W : Type 0} (T : Transport W) (fuel : ℕ) (B I : DiscStakka W Keeper → Type 0)
    (caller_keeps : (s : DiscStakka W Keeper) (j : Keeper) → I s → I (record s { caller = j }))
    (reopening : Triple B I (reopen T fuel) (λ _. I) (λ _. I)) where
  set_open_error-Keeps :
      {E : Exc → DiscStakka W Keeper → Type 0} (e : Option Exc)
      → Triple B I (set_open_error e) (λ _. I) E
  unfolding set_open_error
  set_open_error-Keeps e = record { holds = λ s p. caller_keeps s _ p }

  attempt-Keeps : Triple B I (attempt T fuel) (λ _. I) (λ _ _. ⊥)
  unfolding attempt
  attempt-Keeps =
      handle_lem any_exception _
        (handle_lem is_device_error _ (bind_lem reopening (λ _. set_open_error-Keeps none))
          (λ e c. set_open_error-Keeps (some e)) (λ e s c p. p))
        (λ e c. skip_lem (λ s p. p)) (λ e s c p. ground arith)

  -- The unit is free, and `I`.
  abbrev IsFree : DiscStakka W Keeper → Type 0
  IsFree s = (s.caller.held ≡ false) × I s

  take-Keeps : Triple B I (set_held true) (λ _. I) (λ _ _. ⊥)
  unfolding set_held
  take-Keeps = record { holds = λ s p. caller_keeps s _ p }

  release-IsFree : Triple B I (set_held false) (λ _. IsFree) (λ _ _. ⊥)
  unfolding set_held
  release-IsFree = record { holds = λ s p. (refl, caller_keeps s _ p) }

  tend_free-IsFree : Triple B I (tend_free T fuel) (λ _. IsFree) (λ _ _. ⊥)
  unfolding tend_free
  tend_free-IsFree = bind_lem take-Keeps λ _. bind_lem attempt-Keeps (λ _. release-IsFree)

  passes :
      (busy held : Bool) (s : DiscStakka W Keeper)
      → s.caller.held ≡ held
      → I s
      → After B
          (λ _ s'. (s'.caller.held ≡ held) × I s')
          (λ _ _. ⊥)
          ((if busy then skip else (if held then skip else tend_free T fuel)) s).0
          ((if busy then skip else (if held then skip else tend_free T fuel)) s).1
  passes true held s e p = (e, p)
  passes false true s e p = (e, p)
  passes false false s e p = tend_free-IsFree.holds s p

  tend-Keeps :
      (s : DiscStakka W Keeper)
      → I s
      → After B
          (λ _ s'. (s'.caller.held ≡ s.caller.held) × I s')
          (λ _ _. ⊥)
          (tend T fuel s).0
          (tend T fuel s).1
  unfolding tend
  tend-Keeps s p = passes s.caller.busy s.caller.held s refl p

module _ {W : Type 0} (T : Transport W) (tick : IsTicking T) (k : ℕ) (enough : 5_000 ≤ k) where
  abbrev Ends : {A : Type 0} → Call W Keeper A → Type 0
  Ends m = Triple (Never T tick) (Since T tick 0) m (λ _. Since T tick 0) (λ _. Since T tick 0)

  read-Ends : (n : ℕ) → Ends (read T n)
  unfolding read
  read-Ends n = record { holds = λ s p. ground arith }

  alive-Ends : Ends (alive T (suc k))
  unfolding alive
  alive-Ends =
      handle_lem is_not_connected _ (bind_lem (read-Ends 0) (λ _. pure_lem _ (λ s p. p)))
        (λ e c. pure_lem _ (λ s p. p)) (λ e s c p. p)

  is_connected-Ends : Ends (is_connected T (suc k))
  unfolding is_connected
  is_connected-Ends = record { holds = λ s p. p }

  present-Ends : Ends (present T (suc k))
  unfolding present
  present-Ends = record { holds = λ s p. omega arith }

  is_up-Ends : Ends (is_up T (suc k))
  unfolding is_up
  is_up-Ends =
      bind_lem is_connected-Ends
        λ connected. if_lem connected (λ _. alive-Ends) (λ _. pure_lem _ (λ s p. p))

  reopen-Ends : Ends (reopen T (suc k))
  unfolding reopen
  reopen-Ends = bind_lem is_up-Ends λ up.
      bind_lem (if_lem up (λ _. pure_lem _ (λ s p. p)) (λ _. present-Ends))
        λ here. if_lem here (λ _. open_unit-Ends T tick k enough 3 0) (λ _. skip_lem (λ s p. p))

  returned :
      (held : Bool) (r : Outcome Done) (s : DiscStakka W Keeper)
      → After (Never T tick) (λ _ s'. (s'.caller.held ≡ held) × Since T tick 0 s') (λ _ _. ⊥) r s
      → (r ≡ ok tt) × (s.caller.held ≡ held)
  returned held (ok d) s p = (refl, p.0)
  returned held (raised e) s p = absurd p
  returned held running s p = absurd p

  -- With a clock that ticks, and whatever the unit does, a pass of the keeper returns, raises
  -- nothing, and leaves the lock on the unit as it found it.
  pub tend_gives_the_unit_back :
      (s : DiscStakka W Keeper)
      → ((tend T (suc k) s).0 ≡ ok tt) × ((tend T (suc k) s).1.caller.held ≡ s.caller.held)
  tend_gives_the_unit_back s = returned s.caller.held (tend T (suc k) s).0 (tend T (suc k) s).1 (
      tend-Keeps T (suc k) (Never T tick) (Since T tick 0) (λ s j p. p) reopen-Ends s (omega arith))
