-- ===== src/Controller/Keep.antt =====
-- `tend` of discstakka/device.py: one pass of the thread that holds the unit open between jobs. What
-- it shares with the others is whether there is a job that is not done, whether somebody holds the
-- unit, and the error of its last attempt.
use disc_stakka_web.Base.{ℕ, Bool, true, false, if◌then◌else◌, Option, none, some}
use disc_stakka_web.Effect.{
  Exc, Done, ◌>>=◌, ◌>>◌, pure, skip, modify, handle, is_device_error, any_exception,
}
use disc_stakka_web.Transport.{Transport}
use disc_stakka_web.Protocol.Handle.{Call}
use disc_stakka_web.Protocol.Connection.{open_unit, is_connected, alive, present}

pub record Keeper : Type 0 where
  pub busy : Bool
  pub held : Bool
  pub open_error : Option Exc

module _ {W : Type 0} where
  -- `self._device.acquire(blocking=False)` that succeeded, and `release`.
  unfoldable pub set_held : Bool → Call W Keeper Done
  set_held b = modify λ s. record s { caller = record (s.caller) { held = b } }

  unfoldable pub set_open_error : Option Exc → Call W Keeper Done
  set_open_error e = modify λ s. record s { caller = record (s.caller) { open_error = e } }

module _ {W : Type 0} (T : Transport W) (fuel : ℕ) where
  -- `self._ds.connected and self._ds.alive()`
  unfoldable pub is_up : Call W Keeper Bool
  is_up = do connected ← is_connected T fuel; if connected then alive T fuel else pure false

  -- `if not (…) and self._ds.present(): self._ds.open()`
  unfoldable pub reopen : Call W Keeper Done
  reopen = do
    up ← is_up
    here ← (if up then pure false else present T fuel)
    if here then open_unit T fuel 3 else skip

  -- The `try` with its clauses.
  unfoldable pub attempt : Call W Keeper Done
  attempt =
      handle any_exception
        (handle is_device_error (reopen >> set_open_error none) (λ e. set_open_error (some e)))
        (λ _. skip)

  -- The part of `tend` behind its two early returns.
  unfoldable pub tend_free : Call W Keeper Done
  tend_free = do set_held true; attempt; set_held false

  unfoldable pub tend : Call W Keeper Done
  tend s = (if s.caller.busy then skip else (if s.caller.held then skip else tend_free)) s
