-- ===== src/Db/Accounts.antt =====
-- The rows of submissions, uploaded files, sessions and pending logins.
use sd_platform.Common.{ℕ, String, Bool, true, false, Option, Instant}
use sd_platform.Db.Keys.{Uuid}

-- `CommandState` of submission/service.py.
pub data CommandState : Type 0 where
  pending teable_written committed rejected : CommandState

abbrev pub is_pending : CommandState → Bool
is_pending pending = true
is_pending _ = false

abbrev pub is_committed : CommandState → Bool
is_committed committed = true
is_committed _ = false

abbrev pub is_rejected : CommandState → Bool
is_rejected rejected = true
is_rejected _ = false

-- `SubmissionResult`: its state is always "committed".
pub record SubmissionResult : Type 0 where
  pub submission_id : Uuid
  pub log_id : ℕ

pub record SubmissionCommand : Type 0 where
  pub command_id : Uuid
  pub idempotency_key : Uuid
  pub person_id : ℕ
  pub task_id : ℕ
  pub payload_hash : String
  pub state : CommandState
  pub teable_record_id : Option String
  pub result : Option SubmissionResult
  pub last_error_code : Option String
  pub created_at : Instant
  pub updated_at : Instant

pub data FileState : Type 0 where
  clean quarantined : FileState

abbrev pub is_clean : FileState → Bool
is_clean clean = true
is_clean quarantined = false

pub record FileObject : Type 0 where
  pub file_id : String
  pub owner_person_id : ℕ
  pub task_id : Option ℕ
  pub storage_key : String
  pub original_name : String
  pub media_type : String
  pub size_bytes : ℕ
  pub sha256 : String
  pub state : FileState
  pub created_at : Instant
  pub scanned_at : Option Instant
  pub bound_at : Option Instant

pub record AuthSession : Type 0 where
  pub sid : String
  pub person_id : ℕ
  pub kid : String
  pub csrf_hash : String
  pub expires_at : Instant
  pub revoked_at : Option Instant
  pub last_seen_at : Instant
  pub created_at : Instant

pub record SsoLoginAttempt : Type 0 where
  pub attempt_id : Uuid
  pub state_hash : String
  pub nonce_hash : String
  pub redirect_path : String
  pub ticket_hash : Option String
  pub created_at : Instant
  pub expires_at : Instant
  pub consumed_at : Option Instant
