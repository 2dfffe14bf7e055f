-- ===== src/Triggers.antt =====
-- The service that administers scheduled jobs and the handler of its commands
-- (`SchedulerAdminService` and `SchedulerTriggerOutboxHandler` of
-- sd-agent/sd_agent/scheduler/admin.py).
pub mod Again
mod Delivery
mod Tests
use sd_platform.Common.{
  ℕ, String, Bool, true, false, not, ◌&&◌, ◌||◌, List, [], ◌∷◌, Option, none, some, ltb, leb,
  str_eq, if◌then◌else◌, Exn, value_error, runtime_error, app_error, other, Result, ok, err,
  or_raise, ◌>>=◌, ◌>>◌, Instant, Datetime, require_utc, text_length, is_empty,
}
use sd_platform.Common.{require as check}
use sd_platform.Common.Actions.{Exec}
use sd_platform.Db.{Uuid, Scalar, Json, Db}
use sd_platform.Outbox.{OutboxItem, OutboxHandler, DispatchResult}
use sd_platform.Scheduler.{JobExecution, shanghai, job_specs, is_job}
use sd_platform.SchedulerAdmin.{
  SchedulerAdminActor, JobRunPage, TriggerResult, scheduler_admin_error, require_role,
}
use sd_platform.TriggerStore
use sd_platform.TriggerStore.{retry_scalar}

-- `SchedulerAdminService.list_runs`
unfoldable pub list_runs : SchedulerAdminActor → Option Uuid → (limit : ℕ) → Db → Result JobRunPage
list_runs actor cursor limit db = do
  require_role actor
  check (leb 1 limit && leb limit 100) (scheduler_admin_error "JOB_RUN_LIMIT_INVALID" 422)
  (items, next_cursor) ← TriggerStore.list_runs cursor limit db
  ok (record { items = items; next_cursor = next_cursor })

-- `_trigger_payload_hash`, over `json.dumps` with its sorted keys and over the hash of hashlib
unfoldable pub trigger_payload_hash :
    (dumps : Json → String) (sha256 : String → String) (job : String) → Option Uuid → String
trigger_payload_hash dumps sha256 job retry =
    sha256 (dumps (("job", Scalar.text job) ∷ ("retry_of_job_run_id", retry_scalar retry) ∷ []))

-- `SchedulerAdminService.trigger`
unfoldable pub trigger :
    (dumps : Json → String) (sha256 : String → String) (trigger_id outbox_id event_id : Uuid)
    (job : String)
    → Option Uuid
    → (key : Uuid) → SchedulerAdminActor
    → (now : Datetime) → Db
    → Result (TriggerResult × Db)
trigger dumps sha256 trigger_id outbox_id event_id job retry key actor now db = do
  require_role actor
  check (is_job job job_specs) (scheduler_admin_error "JOB_NOT_FOUND" 404)
  current_time ← require_utc now
  TriggerStore.enqueue_trigger trigger_id outbox_id event_id job retry key
      (trigger_payload_hash dumps sha256 job retry) actor current_time db

-- `payload.get(key)`
abbrev pub value_at : String → Json → Option Scalar
value_at key [] = none
value_at key ((k, v) ∷ payload) =
    let rest = value_at key payload in if str_eq k key then some v else rest

-- How Python writes a UUID and a time as a text, and how it reads a time.
pub record Texts : Type 0 where
  pub str_uuid : Uuid → String
  pub isoformat : Datetime → String
  pub fromisoformat : String → Result Datetime

module _ (texts : Texts) where
  -- the value, if it is a text
  abbrev pub text_in : Scalar → Option String
  text_in Scalar.null = none
  text_in (Scalar.num n) = none
  text_in (Scalar.text t) = some t
  text_in (Scalar.uuid id) = some (texts.str_uuid id)
  text_in (Scalar.iso t) = some (texts.isoformat t)

  -- `_required_string`
  unfoldable pub required_string : Json → String → ℕ → Result String
  required_string payload key max_length = do
    found ← or_raise (value_at key payload) (value_error "invalid")
    value ← or_raise (text_in found) (value_error "invalid")
    check (not (is_empty value || ltb max_length (text_length value))) (value_error "invalid")
    ok value

  -- The job and the time that a command names.
  unfoldable pub command_of : Json → Result (String × Instant)
  command_of payload = do
    job ← required_string payload "job" 64
    scheduled_for_text ← required_string payload "scheduled_for" 64
    parsed ← texts.fromisoformat scheduled_for_text
    or_raise parsed.tzinfo (value_error "scheduled_for must be timezone-aware") >>= λ _.
        ok (job, parsed.instant)

abbrev pub delivered : ℕ → DispatchResult
delivered status_code = record {
  success = true;
  status_code = some status_code;
  error_code = none;
  redacted_error = none;
  retryable = true;
}

abbrev pub refused : String → DispatchResult
refused code = record {
  success = false;
  status_code = none;
  error_code = some code;
  redacted_error = none;
  retryable = false;
}

module _ {S : Type 0} where
  -- How the handler ends: the return after the call, and its two `except` clauses.
  unfoldable pub answered : Result JobExecution × S → Result DispatchResult × S
  answered (ok execution, s) =
      (ok (delivered (if str_eq execution.state "succeeded" then 200 else 208)), s)
  answered (err (app_error class_name code status retryable), s) =
      if str_eq class_name "SchedulerError"
      then (ok (if str_eq code "JOB_EXECUTION_FAILED" then delivered 202 else refused code), s)
      else (err (app_error class_name code status retryable), s)
  answered (err (value_error m), s) = (ok (refused "JOB_TRIGGER_INVALID"), s)
  answered (err (other c), s) =
      if str_eq c "TypeError" then (ok (refused "JOB_TRIGGER_INVALID"), s) else (err (other c), s)
  answered (err (runtime_error m), s) = (err (runtime_error m), s)

  -- `SchedulerTriggerOutboxHandler.__call__`, over `SchedulerService.run`
  unfoldable pub handle_trigger :
      Texts
      → (run : (job : String) (scheduled_for now : Datetime) → Exec S JobExecution)
      → OutboxHandler S
  handle_trigger texts run item s = elim (command_of texts item.payload) [
    | ok (job, slot) ↦ answered (run job (shanghai slot) (shanghai item.started_at) s)
    | err e ↦ answered (err e, s)
  ]
