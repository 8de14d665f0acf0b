-- ===== src/Trace.antt =====
-- discstakka/trace.py: the record of what the unit reported during a job. `recording` is false for a
-- `NullTrace`; the time stamps of the lines are left out. A line that the file does not take is
-- dropped without an exception, so the lines here are those that were offered to it.
use disc_stakka_web.Base.{
  ℕ, Bool, ◌==◌, if◌then◌else◌, Option, none, some, List, [], ◌∷◌, true, false,
}
use disc_stakka_web.Effect.{Text}
use disc_stakka_web.Protocol.Packet.{StatusName, describe_status}

pub data Line : Type 0 where
  title : Text → Option ℕ → Line
  status_line : ℕ → List StatusName → Line
  mark_line : Text → Line

pub record Trace : Type 0 where
  pub recording : Bool
  pub last : Option ℕ
  pub lines : List Line

unfoldable pub new_trace : Text → Option ℕ → Trace
new_trace heading slot = record { recording = true; last = none; lines = title heading slot ∷ [] }

unfoldable pub null_trace : Trace
null_trace = record { recording = false; last = none; lines = [] }

abbrev pub is_last : ℕ → Option ℕ → Bool
is_last st none = false
is_last st (some l) = l == st

abbrev line_of : ℕ × List StatusName → Line
line_of (st, names) = status_line st names

-- `status`: a word is recorded if it differs from the last one.
unfoldable pub record_status : ℕ → Trace → Trace
record_status st t =
    if t.recording
    then (if is_last st t.last
        then t
        else record t { last = some st; lines = line_of (describe_status st) ∷ t.lines })
    else t

unfoldable pub mark : Text → Trace → Trace
mark label t = if t.recording then record t { lines = mark_line label ∷ t.lines } else t
