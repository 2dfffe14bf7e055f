-- ===== src/Scheduler.antt =====
-- One run of a scheduled job (sd-agent/sd_agent/scheduler/service.py) and the catalog of jobs
-- (sd-agent/sd_agent/scheduler/catalog.py). A handler, a repository and the clock act on a state
-- `S`. A `SchedulerError` has a code and no status of HTTP, which is 0 here.
use sd_platform.Common.{
  ℕ, ℤ, pos, negsuc, String, Bool, true, false, ◌&&◌, ◌||◌, List, [], ◌∷◌, Option, none, some, ltb,
  leb, ◌==◌, str_eq, if◌then◌else◌, Exn, app_error, Result, ok, err, or_raise, Instant, Datetime,
  Tz, Offset, text_length, is_empty,
}
use sd_platform.Common.{require as check}
use sd_platform.Common.Actions.{Exec, pure, lift, raise, ◌>>=◌, ◌>>◌}
use sd_platform.Db.{Uuid, RunState, is_text}
use Prim.Native.Char.{code}

abbrev pub scheduler_error : String → Exn
scheduler_error code = app_error "SchedulerError" code 0 false

abbrev pub Counts : Type 0
Counts = List (String × ℕ)

pub record JobExecution : Type 0 where
  pub job_run_id : Option Uuid
  pub job : String
  pub state : String
  pub idempotent : Bool

-- What a handler counted; Python's numbers may be negative.
abbrev pub JobHandler : Type 0 → Type 0
JobHandler S = Datetime → Exec S (List (String × ℤ))

pub record JobRunRepository (S : Type 0) : Type 0 where
  pub claim_run :
      (job : String) (scheduled_for : Instant) (config_hash : String) (started_at : Instant)
      → Exec S (Option Uuid)
  pub finish_run :
      Uuid
      → RunState
      → Counts
      → (error_code : Option String) (finished_at : Instant) → Exec S (Unit {0})

abbrev key_in : Option Tz → Option String
key_in none = none
key_in (some tz) = tz.key

-- `_require_shanghai_time`
unfoldable pub require_shanghai_time : Datetime → Result Instant
require_shanghai_time value =
    if is_text (key_in value.tzinfo) "Asia/Shanghai"
    then ok value.instant
    else err (scheduler_error "SCHEDULE_TIME_INVALID")

-- The time of an instant in that zone, eight hours east.
abbrev pub shanghai : Instant → Datetime
shanghai t = record {
  instant = t;
  tzinfo = some (record { key = some "Asia/Shanghai"; offset = Offset.east 480 });
}

-- [0-9a-f]*
abbrev is_hex : String → Bool
is_hex String.[] = true
is_hex (String.◌∷◌ c s) =
    let n = code c in ((leb b'0' n && leb n b'9') || (leb b'a' n && leb n b'f')) && is_hex s

abbrev pub is_config_hash : String → Bool
is_config_hash hash = text_length hash == 64 && is_hex hash

abbrev counted : String → ℕ → Result Counts → Result Counts
counted key n (ok counts) = ok ((key, n) ∷ counts)
counted key n (err e) = err e

-- `_validated_counts`
unfoldable pub validated_counts : List (String × ℤ) → Result Counts
validated_counts [] = ok []
validated_counts ((key, pos n) ∷ values) =
    if is_empty key || ltb 64 (text_length key)
    then err (scheduler_error "JOB_COUNTS_INVALID")
    else counted key n (validated_counts values)
validated_counts ((key, negsuc n) ∷ values) = err (scheduler_error "JOB_COUNTS_INVALID")

abbrev pub duplicate : String → JobExecution
duplicate job = record { job_run_id = none; job = job; state = "duplicate"; idempotent = true }

abbrev pub succeeded : Uuid → String → JobExecution
succeeded id job = record {
  job_run_id = some id;
  job = job;
  state = "succeeded";
  idempotent = false;
}

module _ {S : Type 0} where
  -- try: the handler's counts, validated
  unfoldable pub attempted : JobHandler S → Datetime → Exec S Counts
  attempted handler scheduled_for =
      handler scheduled_for >>= λ counts. lift (validated_counts counts)

module _ {S : Type 0} (repository : JobRunRepository S) (clock : Exec S Datetime) where
  -- What `run` does after the handler: the run ends as failed or as succeeded.
  unfoldable pub ended : Uuid → String → Result Counts → Exec S JobExecution
  ended id job (ok counts) = do
    read ← clock
    finished_at ← lift (require_shanghai_time read)
    repository.finish_run id RunState.succeeded counts none finished_at
    pure (succeeded id job)
  ended id job (err e) = do
    read ← clock
    finished_at ← lift (require_shanghai_time read)
    repository.finish_run id RunState.failed [] (some "JOB_EXECUTION_FAILED") finished_at
    raise (scheduler_error "JOB_EXECUTION_FAILED")

  -- except Exception as exc
  abbrev pub ending : Uuid → String → Result Counts × S → Result JobExecution × S
  ending id job (r, s) = ended id job r s

  -- `SchedulerService.run`
  unfoldable pub run :
      (handlers : String → Option (JobHandler S)) (config_hash job : String)
      (scheduled_for now : Datetime)
      → Exec S JobExecution
  run handlers config_hash job scheduled_for now = do
    handler ← lift (or_raise (handlers job) (scheduler_error "JOB_NOT_REGISTERED"))
    slot ← lift (require_shanghai_time scheduled_for)
    started_at ← lift (require_shanghai_time now)
    lift (check (is_config_hash config_hash) (scheduler_error "CONFIG_HASH_INVALID"))
    claim ← repository.claim_run job slot config_hash started_at
    elim claim [
      | none ↦ pure (duplicate job)
      | some id ↦ λ s. ending id job (attempted handler scheduled_for s)
    ]

-- `JobSpec` and `JOB_SPECS`; the cron fields that a spec names, in the order of the source.
pub data CronValue : Type 0 where
  num : ℕ → CronValue
  word : String → CronValue

pub record JobSpec : Type 0 where
  pub name : String
  pub cron : List (String × CronValue)
  pub timezone : String
  pub coalesce : Bool
  pub max_instances : ℕ
  pub misfire_grace_seconds : ℕ

abbrev spec : String → List (String × CronValue) → JobSpec
spec name cron = record {
  name = name;
  cron = cron;
  timezone = "Asia/Shanghai";
  coalesce = true;
  max_instances = 1;
  misfire_grace_seconds = 900;
}

abbrev pub job_specs : List JobSpec
job_specs =
    spec "urge_scan" (("hour", num 9) ∷ ("minute", num 0) ∷ [])
    ∷ spec "report_reminder"
        (("day_of_week", word "fri") ∷ ("hour", num 12) ∷ ("minute", num 0) ∷ [])
    ∷ spec "ai_review" (("day_of_week", word "fri") ∷ ("hour", num 12) ∷ ("minute", num 30) ∷ [])
    ∷ spec "weekly_report" (("day_of_week", word "fri") ∷ ("hour", num 14) ∷ ("minute", num 0) ∷ [])
    ∷ spec "monthly_report" (("day", word "last") ∷ ("hour", num 18) ∷ ("minute", num 0) ∷ [])
    ∷ spec "reconciliation" (("minute", num 5) ∷ [])
    ∷ spec "weekly_snapshot"
        (("day_of_week", word "fri") ∷ ("hour", num 14) ∷ ("minute", num 0) ∷ [])
    ∷ []

abbrev pub is_job : String → List JobSpec → Bool
is_job name [] = false
is_job name (s ∷ specs) = str_eq s.name name || is_job name specs

abbrev pub spec_of : String → List JobSpec → Option JobSpec
spec_of name [] = none
spec_of name (s ∷ specs) =
    let rest = spec_of name specs in if str_eq s.name name then some s else rest
