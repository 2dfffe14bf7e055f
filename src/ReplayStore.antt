-- ===== src/ReplayStore.antt =====
-- Dead letters and the approvals to replay them in PostgreSQL
-- (sd-agent/sd_agent/persistence/outbox_admin.py). Each function is one transaction over the
-- tables. `sha256` is the hash of hashlib; the UUIDs that the code draws are arguments.
pub mod Approve
pub mod Execute
mod Again
mod Approved
pub mod Samples
mod Tests
use sd_platform.Common.{
  role_text, ℕ, ◌+◌, String, Bool, true, false, not, ◌&&◌, ◌||◌, List, [], ◌∷◌, ◌++◌, map, Option,
  none, some, ltb, leb, ◌==◌, str_eq, if◌then◌else◌, is_none, length, take, Result, ok, err,
  or_raise, ◌>>=◌, ◌>>◌, Instant, select_where, first_where, update_where, exists_where, order_by,
}
use sd_platform.Common.{require as check}
use sd_platform.Db.{
  Uuid, Scalar, Json, Db, OutboxMessage, OutboxReplayApproval, AuditEvent, MessageState, Who,
  is_dead_letter, is_value,
}
use sd_platform.OutboxStore.{message_of}
use sd_platform.Admin.{AdminActor, DeadLetterSummary, ReplayApproval, ReplayResult, admin_error}

summary_of : OutboxMessage → DeadLetterSummary
summary_of m = record {
  outbox_id = m.outbox_id;
  kind = m.kind;
  state = m.state;
  attempt_count = m.attempt_count;
  last_error_code = m.last_error_code;
  created_at = m.created_at;
  updated_at = m.updated_at;
}

abbrev after_cursor : Option Uuid → Uuid → Bool
after_cursor none k = true
after_cursor (some c) k = ltb c k

abbrev pub last_id : List OutboxMessage → Option Uuid
last_id [] = none
last_id (m ∷ []) = some m.outbox_id
last_id (m ∷ n ∷ ms) = last_id (n ∷ ms)

-- `SqlOutboxAdminRepository.list_dead_letters`
pub list_dead_letters : Option Uuid → ℕ → Db → List DeadLetterSummary × Option Uuid
unfolding summary_of
list_dead_letters cursor limit db =
    let rows = take (limit + 1) (
      order_by (λ a b. leb a.outbox_id b.outbox_id)
        (select_where (λ m. is_dead_letter m.state && after_cursor cursor m.outbox_id)
          db.outbox_message)) in
    let visible = take limit rows in
    (map summary_of visible, if ltb limit (length rows) then last_id visible else none)

pub approval_of : OutboxReplayApproval → ReplayApproval
approval_of row = record {
  approval_id = row.approval_id;
  outbox_id = row.outbox_id;
  approved_by = row.approved_by;
  approved_at = row.approved_at;
  consumed = not (is_none row.consumed_at);
}

pub audit :
    Uuid
    → AdminActor
    → (what : String) (target_id : Uuid) (result : String) → Json
    → Instant
    → AuditEvent
audit event_id actor what target_id result details now = record {
  event_id = event_id;
  request_id = actor.request_id;
  who = Who.person actor.person_id;
  role = role_text actor.roles;
  what = what;
  target_type = "outbox_message";
  target_id = Scalar.uuid target_id;
  result = result;
  ip = actor.ip;
  user_agent = actor.user_agent;
  details = details;
  created_at = now;
}

abbrev with_approval_key : Uuid → OutboxReplayApproval → Bool
with_approval_key key row = row.approval_idempotency_key == key

abbrev with_execution_key : Uuid → OutboxReplayApproval → Bool
with_execution_key key row = is_value row.execution_idempotency_key key

-- The approval that waits for a message.
abbrev pub is_active : Uuid → OutboxReplayApproval → Bool
is_active outbox_id row = row.outbox_id == outbox_id && is_none row.consumed_at

module _ (sha256 : String → String) where
  abbrev new_approval : Uuid → Uuid → String → Uuid → AdminActor → Instant → OutboxReplayApproval
  new_approval approval_id outbox_id reason key actor now = record {
    approval_id = approval_id;
    outbox_id = outbox_id;
    approval_idempotency_key = key;
    reason = reason;
    reason_hash = sha256 reason;
    approved_by = actor.person_id;
    approved_at = now;
    consumed_by = none;
    consumed_at = none;
    execution_idempotency_key = none;
  }

  -- `SqlOutboxAdminRepository.approve_replay`, for a key that is new
  pub approve_new :
      (approval_id event_id outbox_id : Uuid) (reason : String) (key : Uuid)
      → AdminActor
      → Instant
      → Db
      → Result (ReplayApproval × Db)
  unfolding approval_of audit
  approve_new approval_id event_id outbox_id reason key actor now db = do
    message ← or_raise (message_of outbox_id db.outbox_message) (admin_error "OUTBOX_NOT_FOUND" 404)
    check (is_dead_letter message.state) (admin_error "OUTBOX_NOT_DEAD" 409)
    check (not (exists_where (is_active outbox_id) db.outbox_replay_approval))
        (admin_error "OUTBOX_ALREADY_APPROVED" 409)
    let row = new_approval approval_id outbox_id reason key actor now
    let event =
        audit event_id actor "outbox.replay.approve" outbox_id "approved"
          (("approval_id", Scalar.uuid approval_id)
            ∷ ("reason_hash", Scalar.text (sha256 reason))
            ∷ [])
          now
    ok (
      approval_of row,
      record db {
        outbox_replay_approval = db.outbox_replay_approval ++ row ∷ [];
        audit_event = db.audit_event ++ event ∷ [];
      },
    )

  -- `SqlOutboxAdminRepository.approve_replay`
  unfoldable pub approve_replay :
      (approval_id event_id outbox_id : Uuid) (reason : String) (key : Uuid)
      → AdminActor
      → Instant
      → Db
      → Result (ReplayApproval × Db)
  approve_replay approval_id event_id outbox_id reason key actor now db =
      elim (first_where (with_approval_key key) db.outbox_replay_approval) [
        | some existing ↦
            if not (existing.outbox_id == outbox_id)
              || not (str_eq existing.reason_hash (sha256 reason))
            then err (admin_error "IDEMPOTENCY_CONFLICT" 409)
            else ok (approval_of existing, db)
        | none ↦ approve_new approval_id event_id outbox_id reason key actor now db
      ]

pub consumed : AdminActor → Uuid → Instant → OutboxReplayApproval → OutboxReplayApproval
consumed actor key now row = record row {
  consumed_by = some actor.person_id;
  consumed_at = some now;
  execution_idempotency_key = some key;
}

unfoldable pub requeued : Instant → OutboxMessage → OutboxMessage
requeued now m = record m {
  state = MessageState.retry;
  available_at = now;
  lease_until = none;
  attempt_count = 0;
  last_error_code = none;
  updated_at = now;
}

-- `SqlOutboxAdminRepository.replay`, for a key that is new
unfoldable pub replay_new :
    (event_id outbox_id approval_id key : Uuid)
    → AdminActor
    → Instant
    → Db
    → Result (ReplayResult × Db)
unfolding consumed requeued audit
replay_new event_id outbox_id approval_id key actor now db = do
  approval ←
      or_raise (first_where (λ a. a.approval_id == approval_id) db.outbox_replay_approval)
        (admin_error "OUTBOX_APPROVAL_NOT_FOUND" 404)
  check (approval.outbox_id == outbox_id) (admin_error "OUTBOX_APPROVAL_NOT_FOUND" 404)
  check (is_none approval.consumed_at) (admin_error "OUTBOX_APPROVAL_CONSUMED" 409)
  check (not (approval.approved_by == actor.person_id))
      (admin_error "OUTBOX_TWO_PERSON_REQUIRED" 403)
  message ← or_raise (message_of outbox_id db.outbox_message) (admin_error "OUTBOX_NOT_FOUND" 404)
  check (is_dead_letter message.state) (admin_error "OUTBOX_NOT_DEAD" 409)
  let event =
      audit event_id actor "outbox.replay.execute" outbox_id "queued"
        (("approval_id", Scalar.uuid approval_id) ∷ []) now
  ok (
    record { outbox_id = outbox_id; approval_id = approval_id; idempotent = false },
    record db {
      outbox_message =
          update_where (λ m. m.outbox_id == outbox_id) (requeued now) db.outbox_message;
      outbox_replay_approval =
          update_where (λ a. a.approval_id == approval_id) (consumed actor key now)
            db.outbox_replay_approval;
      audit_event = db.audit_event ++ event ∷ [];
    },
  )

-- `SqlOutboxAdminRepository.replay`
unfoldable pub replay :
    (event_id outbox_id approval_id key : Uuid)
    → AdminActor
    → Instant
    → Db
    → Result (ReplayResult × Db)
replay event_id outbox_id approval_id key actor now db =
    elim (first_where (with_execution_key key) db.outbox_replay_approval) [
      | some previous ↦
          if not (previous.outbox_id == outbox_id) || not (previous.approval_id == approval_id)
          then err (admin_error "IDEMPOTENCY_CONFLICT" 409)
          else ok
              (record { outbox_id = outbox_id; approval_id = approval_id; idempotent = true }, db)
      | none ↦ replay_new event_id outbox_id approval_id key actor now db
    ]
