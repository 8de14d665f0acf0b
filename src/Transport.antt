-- ===== src/Transport.antt =====
-- The five methods that discstakka/transport.py describes as "the whole interface a simulated unit
-- has to implement", over a state `W` of the bus, and the clock. The implementation over hidapi
-- ends in a library that is not in the repository, so the protocol takes any value of this record.
use disc_stakka_web.Base.{ℕ, ◌≤◌, ◌<◌, Bool, true, false, List, ◌≡◌}
use disc_stakka_web.Effect.{Done}

abbrev pub vid : ℕ
vid = 0x0718

abbrev pub pid : ℕ
pid = 0xD000

-- How a call of the transport ends. `failed` is an `OSError`, `broken` any other exception.
pub data Io (A : Type 0) : Type 0 where
  finished : A → Io A
  failed : Io A
  broken : Io A

-- What `write` returns: hidapi has a negative number for an error.
pub data Written : Type 0 where
  bytes_written : ℕ → Written
  negative : Written

pub record Transport (W : Type 0) : Type 0 where
  pub open_handle : W → Io Done × W
  pub close_handle : W → W
  pub read : ℕ → ℕ → W → Io (List ℕ) × W
  pub write : List ℕ → W → Io Written × W
  pub present : W → Bool × W
  pub now_ms : W → ℕ
  pub sleep_ms : ℕ → W → W

abbrev pub is_finished : {A : Type 0} → Io A → Bool
is_finished (finished a) = true
is_finished failed = false
is_finished broken = false

-- A clock that does not go back, and moves on by at least a millisecond in a read that waits for a
-- report and returns.
pub record IsTicking {W : Type 0} (T : Transport W) : Type 0 where
  pub open_later : (w : W) → T.now_ms w ≤ T.now_ms (T.open_handle w).1
  pub close_later : (w : W) → T.now_ms w ≤ T.now_ms (T.close_handle w)
  pub read_later : (size timeout : ℕ) (w : W) → T.now_ms w ≤ T.now_ms (T.read size timeout w).1
  pub read_waits :
      (size timeout : ℕ) (w : W)
      → 0 < timeout
      → is_finished (T.read size timeout w).0 ≡ true
      → T.now_ms w < T.now_ms (T.read size timeout w).1
  pub write_later : (buf : List ℕ) (w : W) → T.now_ms w ≤ T.now_ms (T.write buf w).1
  pub sleep_later : (ms : ℕ) (w : W) → T.now_ms w ≤ T.now_ms (T.sleep_ms ms w)
