-- ===== src/Db/Messages.antt =====
-- The rows of the outbox, of the approvals to replay it, and of the audit trail.
use sd_platform.Common.{ℕ, String, Bool, true, false, Option, Instant}
use sd_platform.Db.Keys.{Uuid, Scalar, Json, DedupKey}

pub data MessageState : Type 0 where
  pending processing retry sent dead_letter : MessageState

abbrev pub is_processing : MessageState → Bool
is_processing processing = true
is_processing _ = false

abbrev pub is_dead_letter : MessageState → Bool
is_dead_letter dead_letter = true
is_dead_letter _ = false

pub record OutboxMessage : Type 0 where
  pub outbox_id : Uuid
  pub kind : String
  pub dedup_key : DedupKey
  pub payload : Json
  pub state : MessageState
  pub available_at : Instant
  pub lease_until : Option Instant
  pub attempt_count : ℕ
  pub last_error_code : Option String
  pub created_at : Instant
  pub updated_at : Instant

pub record OutboxAttempt : Type 0 where
  pub attempt_id : Uuid
  pub outbox_id : Uuid
  pub started_at : Instant
  pub finished_at : Option Instant
  pub result : MessageState
  pub status_code : Option ℕ
  pub redacted_error : Option String

pub record OutboxReplayApproval : Type 0 where
  pub approval_id : Uuid
  pub outbox_id : Uuid
  pub approval_idempotency_key : Uuid
  pub reason : String
  pub reason_hash : String
  pub approved_by : ℕ
  pub approved_at : Instant
  pub consumed_by : Option ℕ
  pub consumed_at : Option Instant
  pub execution_idempotency_key : Option Uuid

-- Who acted: str(person_id), or a fixed word.
pub data Who : Type 0 where
  person : ℕ → Who
  anonymous scheduler : Who

pub record AuditEvent : Type 0 where
  pub event_id : Uuid
  pub request_id : String
  pub who : Who
  pub role : Option String
  pub what : String
  pub target_type : String
  pub target_id : Scalar
  pub result : String
  pub ip : Option String
  pub user_agent : Option String
  pub details : Json
  pub created_at : Instant
