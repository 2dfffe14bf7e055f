-- ===== src/SchedulerAdmin.antt =====
-- The people who administer scheduled jobs and what they are shown
-- (sd-agent/sd_agent/scheduler/admin.py).
use sd_platform.Common.{
  ℕ, String, Bool, false, List, [], ◌∷◌, Option, Exn, app_error, Result, Instant, meets,
}
use sd_platform.Common.{require as check}
use sd_platform.Db.{Uuid, RunState}

pub record SchedulerAdminActor : Type 0 where
  pub person_id : ℕ
  pub roles : List String
  pub request_id : String
  pub ip : Option String
  pub user_agent : Option String

pub record JobRunSummary : Type 0 where
  pub job_run_id : Uuid
  pub job : String
  pub scheduled_for : Instant
  pub state : RunState
  pub counts : List (String × ℕ)
  pub error_code : Option String
  pub started_at : Option Instant
  pub finished_at : Option Instant

pub record JobRunPage : Type 0 where
  pub items : List JobRunSummary
  pub next_cursor : Option Uuid

-- `state` is always "queued".
pub record TriggerResult : Type 0 where
  pub trigger_id : Uuid
  pub outbox_id : Uuid
  pub job : String
  pub scheduled_for : Instant
  pub retry_of_job_run_id : Option Uuid
  pub idempotent : Bool

abbrev pub scheduler_admin_error : String → ℕ → Exn
scheduler_admin_error code status = app_error "SchedulerAdminError" code status false

-- `_require_role`
unfoldable pub require_role : SchedulerAdminActor → Result (Unit {0})
require_role actor =
    check (meets actor.roles ("supervision_admin" ∷ "ops_admin" ∷ []))
      (scheduler_admin_error "JOB_RUN_FORBIDDEN" 403)
