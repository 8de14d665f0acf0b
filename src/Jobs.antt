-- ===== src/Jobs.antt =====
-- discstakka/jobs.py: one hardware operation in flight, and the registry of recent ones. Times are
-- milliseconds of the monotonic clock; the lock makes each method one step.
pub mod Registry
use disc_stakka_web.Base.{
  ℕ, suc, ◌+◌, ◌*◌, ◌-◌, ◌/◌, ◌%◌, Bool, true, false, ◌==◌, ltb, if◌then◌else◌, ◌&&◌, ◌||◌, Option,
  none, some,
}
use disc_stakka_web.Effect.{Text}

pub data Phase : Type 0 where
  moving awaiting_insert ingesting presented parking retracting done failed : Phase

-- `phase in TERMINAL` and `phase in PROMPTING`
abbrev pub is_terminal : Phase → Bool
is_terminal done = true
is_terminal failed = true
is_terminal _ = false

abbrev pub is_prompting : Phase → Bool
is_prompting awaiting_insert = true
is_prompting presented = true
is_prompting _ = false

abbrev pub is_done : Phase → Bool
is_done done = true
is_done _ = false

pub data Kind : Type 0 where
  add eject reset return : Kind

-- The two keys that the flows put into the dictionary `result`.
pub record JobResult : Type 0 where
  pub disc_id : Option ℕ
  pub needs_details : Bool

-- The text `"%d-%d" % (second, number)`.
pub record JobId : Type 0 where
  pub second : ℕ
  pub number : ℕ

pub record Job : Type 0 where
  pub id : JobId
  pub kind : Kind
  pub title : Text
  pub disc_id : Option ℕ
  pub slot : Option ℕ
  pub phase : Phase
  pub message : Text
  pub deadline : Option ℕ
  pub failure : Option Text
  pub result : JobResult
  pub created_at : ℕ

-- `Job.__init__`, given what `time.time()` and the counter give.
unfoldable pub new_job : JobId → Kind → Text → Option ℕ → Option ℕ → Text → Job
new_job id kind title disc_id slot starting = record {
  id = id;
  kind = kind;
  title = title;
  disc_id = disc_id;
  slot = slot;
  phase = moving;
  message = starting;
  deadline = none;
  failure = none;
  result = record { disc_id = none; needs_details = false };
  created_at = id.second;
}

-- `set_phase`, at a time: a window of no length counts as none.
unfoldable pub set_phase : ℕ → Phase → Text → ℕ → Job → Job
set_phase now phase message window_ms job = record job {
  phase = phase;
  message = message;
  deadline = if ltb 0 window_ms then some (now + window_ms) else none;
}

unfoldable pub note : Text → Job → Job
note message job = record job { message = message }

abbrev or_else : Option ℕ → Option ℕ → Option ℕ
or_else none old = old
or_else (some n) old = some n

-- `dict.update`
unfoldable pub update : JobResult → JobResult → JobResult
update old new = record {
  disc_id = or_else new.disc_id old.disc_id;
  needs_details = new.needs_details || old.needs_details;
}

unfoldable pub succeed : Text → JobResult → Job → Job
unfolding update
succeed message result job = record job {
  phase = done;
  message = message;
  deadline = none;
  result = update job.result result;
}

unfoldable pub fail : Text → JobResult → Job → Job
unfolding update
fail error result job = record job {
  phase = failed;
  message = error;
  failure = some error;
  deadline = none;
  result = update job.result result;
}

-- What the web side reads.
pub record Snapshot : Type 0 where
  pub id : JobId
  pub kind : Kind
  pub title : Text
  pub disc_id : Option ℕ
  pub slot : Option ℕ
  pub phase : Phase
  pub message : Text
  pub remaining : Option ℕ
  pub error : Option Text
  pub result : JobResult
  pub done : Bool
  pub ok : Bool
  pub prompting : Bool

-- `int(round(x))` of milliseconds as seconds: to the nearest, and from the middle to the even one.
abbrev rounded_seconds : ℕ → ℕ
rounded_seconds ms =
    let whole = ms / 1000 in
    let rest = ms % 1000 in
    if ltb rest 500 then whole else (if ltb 500 rest then whole + 1 else whole + whole % 2)

-- `max(0, …)`: after the deadline the difference on ℕ is 0.
abbrev pub remaining_at : ℕ → Option ℕ → Option ℕ
remaining_at now none = none
remaining_at now (some deadline) = some (rounded_seconds (deadline - now))

unfoldable pub snapshot : ℕ → Job → Snapshot
snapshot now job = record {
  id = job.id;
  kind = job.kind;
  title = job.title;
  disc_id = job.disc_id;
  slot = job.slot;
  phase = job.phase;
  message = job.message;
  remaining = remaining_at now job.deadline;
  error = job.failure;
  result = job.result;
  done = is_terminal job.phase;
  ok = is_done job.phase;
  prompting = is_prompting job.phase;
}

-- The property `done`.
unfoldable pub finished : Job → Bool
finished job = is_terminal job.phase
