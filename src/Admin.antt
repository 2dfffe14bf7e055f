-- ===== src/Admin.antt =====
-- The people who administer dead letters, what they are shown, and the check of their roles
-- (sd-agent/sd_agent/outbox/admin.py).
use sd_platform.Common.{
  ℕ, String, Bool, false, List, Option, Exn, app_error, Result, Instant, meets,
}
use sd_platform.Common.{require as check}
use sd_platform.Db.{Uuid, MessageState}

pub record AdminActor : Type 0 where
  pub person_id : ℕ
  pub roles : List String
  pub request_id : String
  pub ip : Option String
  pub user_agent : Option String

pub record DeadLetterSummary : Type 0 where
  pub outbox_id : Uuid
  pub kind : String
  pub state : MessageState
  pub attempt_count : ℕ
  pub last_error_code : Option String
  pub created_at : Instant
  pub updated_at : Instant

pub record ReplayApproval : Type 0 where
  pub approval_id : Uuid
  pub outbox_id : Uuid
  pub approved_by : ℕ
  pub approved_at : Instant
  pub consumed : Bool

-- `state` is always "retry".
pub record ReplayResult : Type 0 where
  pub outbox_id : Uuid
  pub approval_id : Uuid
  pub idempotent : Bool

abbrev pub admin_error : String → ℕ → Exn
admin_error code status = app_error "OutboxAdminError" code status false

-- `_require_role`
unfoldable pub require_role : AdminActor → List String → Result (Unit {0})
require_role actor allowed = check (meets actor.roles allowed) (admin_error "OUTBOX_FORBIDDEN" 403)
