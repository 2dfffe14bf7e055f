-- ===== src/TriggerStore.antt =====
-- Requests to run a job at once, in PostgreSQL (sd-agent/sd_agent/persistence/scheduler_admin.py).
-- Each function is one transaction over the tables; the UUIDs that the code draws are arguments.
use sd_platform.Common.{
  role_text, ℕ, ◌+◌, String, Bool, true, false, not, ◌&&◌, ◌||◌, List, [], ◌∷◌, ◌++◌, map, Option,
  none, some, ltb, leb, ◌==◌, str_eq, if◌then◌else◌, length, take, other, Result, ok, err, or_raise,
  ◌>>=◌, ◌>>◌, Instant, select_where, first_where, exists_where, order_by,
}
use sd_platform.Common.{require as check}
use sd_platform.Db.{
  Uuid, Scalar, Db, OutboxMessage, AuditEvent, JobRun, JobTriggerRequest, MessageState, DedupKey,
  Who, is_failed, is_value,
}
use sd_platform.Scheduler.{shanghai}
use sd_platform.SchedulerAdmin.{
  SchedulerAdminActor, JobRunSummary, TriggerResult, scheduler_admin_error,
}

-- `_summary`
unfoldable pub summary_of : JobRun → JobRunSummary
summary_of row = record {
  job_run_id = row.job_run_id;
  job = row.job;
  scheduled_for = row.scheduled_for;
  state = row.state;
  counts = row.counts;
  error_code = row.error_code;
  started_at = row.started_at;
  finished_at = row.finished_at;
}

-- order by started_at desc, job_run_id desc; a null comes first in that order
abbrev newer : Option Instant → Option Instant → Bool
newer none none = false
newer none (some t) = true
newer (some t) none = false
newer (some t) (some u) = ltb u t

abbrev same_time : Option Instant → Option Instant → Bool
same_time none none = true
same_time (some t) (some u) = t == u
same_time _ _ = false

abbrev pub run_before : JobRun → JobRun → Bool
run_before a b =
    newer a.started_at b.started_at
    || (same_time a.started_at b.started_at && leb b.job_run_id a.job_run_id)

-- The rows below the anchor of a page.
abbrev pub below_anchor : Instant → Uuid → JobRun → Bool
below_anchor started_at job_run_id row = elim row.started_at [
  | none ↦ false
  | some t ↦ ltb t started_at || (t == started_at && ltb row.job_run_id job_run_id)
]

-- The condition that the cursor adds. SQLAlchemy refuses to compare with `<` and a `None`.
unfoldable pub under_cursor : Option Uuid → List JobRun → Result (JobRun → Bool)
under_cursor none rows = ok λ row. true
under_cursor (some cursor) rows = do
  anchor ←
      or_raise (first_where (λ row. row.job_run_id == cursor) rows)
        (scheduler_admin_error "JOB_RUN_CURSOR_INVALID" 422)
  started_at ← or_raise anchor.started_at (other "ArgumentError")
  ok (below_anchor started_at anchor.job_run_id)

abbrev pub last_run : List JobRun → Option Uuid
last_run [] = none
last_run (r ∷ []) = some r.job_run_id
last_run (r ∷ s ∷ rs) = last_run (s ∷ rs)

-- `SqlSchedulerAdminRepository.list_runs`
unfoldable pub list_runs :
    Option Uuid → (limit : ℕ) → Db → Result (List JobRunSummary × Option Uuid)
list_runs cursor limit db = do
  test ← under_cursor cursor db.job_run
  let rows = take (limit + 1) (order_by run_before (select_where test db.job_run))
  let visible = take limit rows
  ok (map summary_of visible, if ltb limit (length rows) then last_run visible else none)

-- `_trigger_result`
unfoldable pub trigger_result : JobTriggerRequest → Bool → TriggerResult
trigger_result row idempotent = record {
  trigger_id = row.trigger_id;
  outbox_id = row.outbox_id;
  job = row.job;
  scheduled_for = row.scheduled_for;
  retry_of_job_run_id = row.retry_of_job_run_id;
  idempotent = idempotent;
}

-- a UUID or a null inside a JSON object
abbrev pub retry_scalar : Option Uuid → Scalar
retry_scalar none = Scalar.null
retry_scalar (some id) = Scalar.uuid id

-- `_audit`
unfoldable pub trigger_audit : Uuid → SchedulerAdminActor → JobTriggerRequest → Instant → AuditEvent
trigger_audit event_id actor row now = record {
  event_id = event_id;
  request_id = actor.request_id;
  who = Who.person actor.person_id;
  role = role_text actor.roles;
  what = "scheduler.job.trigger";
  target_type = "job_trigger_request";
  target_id = Scalar.uuid row.trigger_id;
  result = "queued";
  ip = actor.ip;
  user_agent = actor.user_agent;
  details =
      ("job", Scalar.text row.job)
      ∷ ("retry_of_job_run_id", retry_scalar row.retry_of_job_run_id)
      ∷ [];
  created_at = now;
}

abbrev pub with_key : Uuid → JobTriggerRequest → Bool
with_key key row = row.idempotency_key == key

abbrev pub retries : Uuid → JobTriggerRequest → Bool
retries id row = is_value row.retry_of_job_run_id id

-- Only a failed run of the job is run again, and only once.
unfoldable pub retry_allowed : (job : String) → Option Uuid → Db → Result (Unit {0})
retry_allowed job none db = ok tt
retry_allowed job (some id) db = do
  failed_run ←
      or_raise (first_where (λ row. row.job_run_id == id) db.job_run)
        (scheduler_admin_error "JOB_RUN_NOT_FOUND" 404)
  check (str_eq failed_run.job job && is_failed failed_run.state)
      (scheduler_admin_error "JOB_RUN_NOT_RETRYABLE" 409)
  check (not (exists_where (retries id) db.job_trigger_request))
      (scheduler_admin_error "JOB_RUN_ALREADY_RETRIED" 409)

-- What a new request writes: its row, the command for the worker, and the audit event.
module _ (trigger_id outbox_id event_id : Uuid) (job : String) (retry : Option Uuid) (key : Uuid)
    (payload_hash : String) (actor : SchedulerAdminActor) (now : Instant) where
  abbrev pub request_row : JobTriggerRequest
  request_row = record {
    trigger_id = trigger_id;
    idempotency_key = key;
    payload_hash = payload_hash;
    job = job;
    scheduled_for = now;
    retry_of_job_run_id = retry;
    requested_by = actor.person_id;
    outbox_id = outbox_id;
    created_at = now;
  }

  abbrev pub run_command : OutboxMessage
  run_command = record {
    outbox_id = outbox_id;
    kind = "scheduler.run_job";
    dedup_key = DedupKey.scheduler_trigger trigger_id;
    payload =
        ("trigger_id", Scalar.uuid trigger_id)
        ∷ ("job", Scalar.text job)
        ∷ ("scheduled_for", Scalar.iso (shanghai now))
        ∷ ("retry_of_job_run_id", retry_scalar retry)
        ∷ [];
    state = MessageState.pending;
    available_at = now;
    lease_until = none;
    attempt_count = 0;
    last_error_code = none;
    created_at = now;
    updated_at = now;
  }

  abbrev pub requested : Db → Db
  requested db = record db {
    job_trigger_request = db.job_trigger_request ++ request_row ∷ [];
    outbox_message = db.outbox_message ++ run_command ∷ [];
    audit_event = db.audit_event ++ trigger_audit event_id actor request_row now ∷ [];
  }

  -- `SqlSchedulerAdminRepository.enqueue_trigger`
  unfoldable pub enqueue_trigger : Db → Result (TriggerResult × Db)
  enqueue_trigger db = elim (first_where (with_key key) db.job_trigger_request) [
    | some existing ↦
        if not (str_eq existing.payload_hash payload_hash)
        then err (scheduler_admin_error "IDEMPOTENCY_CONFLICT" 409)
        else ok (trigger_result existing true, db)
    | none ↦ retry_allowed job retry db >> ok (trigger_result request_row false, requested db)
  ]
