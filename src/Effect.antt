-- ===== src/Effect.antt =====
-- A call of the program: it changes a state, and returns, raises or is still running when the fuel
-- of a loop is used up. The texts that the program formats are kept as format and arguments.
pub mod Triple
use disc_stakka_web.Base.{ℕ, String, Bool, if◌then◌else◌, Option, none, some, List}

mutual
  -- A `%` format with its arguments, and a text from outside by its code points.
  pub data Text : Type 0 where
    format : String → Args → Text
    chars : List ℕ → Text

  pub data Args : Type 0 where
    nil : Args
    num : ℕ → Args → Args
    str : String → Args → Args
    text : Text → Args → Args
    error : Exc → Args → Args

  -- `NotConnected` is a `DeviceError`. The others are no `DeviceError`: Python's `ValueError`, the
  -- transport's `OSError`, `sqlite3.Error`, the `ArtError` of the covers, and all else.
  pub data Exc : Type 0 where
    not_connected : Text → Exc
    device_error : Text → Exc
    value_error : Text → Exc
    os_error : Exc
    sqlite_error : Exc
    art_error : Text → Exc
    other_error : Exc

pub data Outcome (A : Type 0) : Type 0 where
  ok : A → Outcome A
  raised : Exc → Outcome A
  running : Outcome A

abbrev pub M : Type 0 → Type 0 → Type 0
M S A = S → Outcome A × S

abbrev pub Done : Type 0
Done = Unit

abbrev pub bind_outcome : {S A B : Type 0} → (A → M S B) → Outcome A → S → Outcome B × S
bind_outcome f (ok a) s = f a s
bind_outcome f (raised e) s = (raised e, s)
bind_outcome f running s = (running, s)

infixl 5 ◌>>=◌ ◌>>◌
abbrev pub ◌>>=◌ : {S A B : Type 0} → M S A → (A → M S B) → M S B
◌>>=◌ m f s = bind_outcome f (m s).0 (m s).1

abbrev pub ◌>>◌ : {S A B : Type 0} → M S A → M S B → M S B
m >> k = m >>= λ _. k

-- `except` for the exceptions of a class, which `caught` tells.
abbrev pub handle_outcome :
    {S A : Type 0} → (Exc → Bool) → (Exc → M S A) → Outcome A → S → Outcome A × S
handle_outcome caught h (ok a) s = (ok a, s)
handle_outcome caught h (raised e) s = (if caught e then h e else λ s'. (raised e, s')) s
handle_outcome caught h running s = (running, s)

abbrev pub handle : {S A : Type 0} → (Exc → Bool) → M S A → (Exc → M S A) → M S A
handle caught m h s = handle_outcome caught h (m s).0 (m s).1

module _ {S : Type 0} where
  abbrev pub pure : {A : Type 0} → A → M S A
  pure a s = (ok a, s)

  abbrev pub raise : {A : Type 0} → Exc → M S A
  raise e s = (raised e, s)

  abbrev pub out_of_fuel : {A : Type 0} → M S A
  out_of_fuel s = (running, s)

  abbrev pub skip : M S Done
  skip s = (ok tt, s)

  abbrev pub gets : {A : Type 0} → (S → A) → M S A
  gets f s = (ok (f s), s)

  abbrev pub modify : (S → S) → M S Done
  modify f s = (ok tt, f s)

abbrev pub is_device_error : Exc → Bool
is_device_error (not_connected m) = Bool.true
is_device_error (device_error m) = Bool.true
is_device_error _ = Bool.false

abbrev pub is_not_connected : Exc → Bool
is_not_connected (not_connected m) = Bool.true
is_not_connected _ = Bool.false

abbrev pub is_os_error : Exc → Bool
is_os_error os_error = Bool.true
is_os_error _ = Bool.false

abbrev pub any_exception : Exc → Bool
any_exception e = Bool.true
