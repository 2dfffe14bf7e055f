-- ===== src/Db/Runs.antt =====
-- The rows of scheduled job runs and of the requests that trigger one.
use sd_platform.Common.{ℕ, String, Bool, true, false, List, Option, Instant}
use sd_platform.Db.Keys.{Uuid}

pub data RunState : Type 0 where
  running succeeded failed : RunState

abbrev pub is_running : RunState → Bool
is_running running = true
is_running _ = false

abbrev pub is_failed : RunState → Bool
is_failed failed = true
is_failed _ = false

pub record JobRun : Type 0 where
  pub job_run_id : Uuid
  pub job : String
  pub scheduled_for : Instant
  pub state : RunState
  pub config_hash : String
  pub counts : List (String × ℕ)
  pub error_code : Option String
  pub started_at : Option Instant
  pub finished_at : Option Instant

pub record JobTriggerRequest : Type 0 where
  pub trigger_id : Uuid
  pub idempotency_key : Uuid
  pub payload_hash : String
  pub job : String
  pub scheduled_for : Instant
  pub retry_of_job_run_id : Option Uuid
  pub requested_by : ℕ
  pub outbox_id : Uuid
  pub created_at : Instant
