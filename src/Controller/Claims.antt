-- ===== src/Controller/Claims.antt =====
-- `_claimed`, `reconnect` and `probe` of discstakka/device.py (lines 82 to 131). What a claim shares with
-- the other threads is the job that is not done, as it is before and after the wait for the unit; whether
-- the wait for the lock ended with the lock; who holds it; and the error that the keeper last had.
use disc_stakka_web.Base.{ℕ, Bool, true, false, Option, none, some, List}
use disc_stakka_web.Effect.{
  format, nil, error, Exc, device_error, other_error, Done, ◌>>=◌, ◌>>◌, pure, raise, gets, modify,
}
use disc_stakka_web.Transport.{Transport}
use disc_stakka_web.Protocol.Handle.{Call}
use disc_stakka_web.Protocol.Packet.{StatusName, describe_status, is_set, st_ack_timeout}
use disc_stakka_web.Protocol.Waiting.{status, position}
use disc_stakka_web.Protocol.Connection
use disc_stakka_web.Protocol.Connection.{open_unit}

pub record Desk : Type 0 where
  pub current_before : Option ℕ
  pub acquired : Bool
  pub current_after : Option ℕ
  pub open_error : Option Exc
  pub held : Bool

-- What the body of a claim returns, or the job of the exception `Busy`.
pub data Claimed (A : Type 0) : Type 0 where
  busy_with : ℕ → Claimed A
  granted : A → Claimed A

pub record Probe : Type 0 where
  pub serial : ℕ
  pub firmware : Option (List ℕ)
  pub position : Option ℕ
  pub status : ℕ × List StatusName

module _ {W : Type 0} where
  unfoldable pub hold : Bool → Call W Desk Done
  hold b = modify λ s. record s { caller = record (s.caller) { held = b } }

  -- `try: yield` and `finally: release()`
  unfoldable pub release_after : {A : Type 0} → Call W Desk A → Call W Desk (Claimed A)
  release_after m s = let r = (m >>= λ a. pure (granted a)) s in (r.0, (hold false r.1).1)

  abbrev pub not_answering : {A : Type 0} → Option Exc → Call W Desk A
  not_answering none = raise (device_error (format "the unit is in use; try again in a moment" nil))
  not_answering (some e) = raise (
      device_error
        (format "The unit is not answering (%s). Still trying to reach it." (error e nil)))

  -- The wait for the lock has ended.
  abbrev pub claim_with :
      Bool → Option ℕ → Option Exc → {A : Type 0} → Call W Desk A → Call W Desk (Claimed A)
  claim_with true later last m = hold true >> release_after m
  claim_with false (some ref) last m = pure (busy_with ref)
  claim_with false none last m = not_answering last

  abbrev pub claim_unless :
      Option ℕ
      → Bool
      → Option ℕ
      → Option Exc
      → {A : Type 0} → Call W Desk A
      → Call W Desk (Claimed A)
  claim_unless (some ref) got later last m = pure (busy_with ref)
  claim_unless none got later last m = claim_with got later last m

  -- `with self._claimed()`
  unfoldable pub claimed : {A : Type 0} → Call W Desk A → Call W Desk (Claimed A)
  claimed m s =
      claim_unless s.caller.current_before s.caller.acquired s.caller.current_after
        s.caller.open_error m s

module _ {W : Type 0} (T : Transport W) (fuel : ℕ) where
  unfoldable pub reconnect : Call W Desk (Claimed Done)
  reconnect = claimed (Connection.reconnect T fuel)

  -- `"%08x" % serial`, which raises `TypeError` for `None`.
  abbrev pub serial_number : Option ℕ → Call W Desk ℕ
  serial_number none = raise other_error
  serial_number (some n) = pure n

  abbrev pub position_unless : Bool → Call W Desk (Option ℕ)
  position_unless true = pure none
  position_unless false = position T fuel >>= λ n. pure (some n)

  unfoldable pub read_unit : Call W Desk Probe
  read_unit = do
    open_unit T fuel 3
    word ← status T fuel
    known ← gets (λ s. s.serial)
    number ← serial_number known
    version ← gets (λ s. s.firmware)
    slot ← position_unless (is_set word st_ack_timeout)
    pure (record {
      serial = number;
      firmware = version;
      position = slot;
      status = describe_status word;
    })

  unfoldable pub probe : Call W Desk (Claimed Probe)
  probe = claimed read_unit
