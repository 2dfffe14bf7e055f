-- ===== src/Replay.antt =====
-- The service that administers dead letters (`OutboxAdminService` of
-- sd-agent/sd_agent/outbox/admin.py), over the repository in PostgreSQL.
mod Roles
mod Tests
use sd_platform.Common.{
  ℕ, String, ◌&&◌, List, [], ◌∷◌, Option, leb, Result, ok, ◌>>=◌, ◌>>◌, Datetime, require_utc,
  text_length, strip,
}
use sd_platform.Common.{require as check}
use sd_platform.Db.{Uuid, Db}
use sd_platform.Admin.{
  AdminActor, DeadLetterSummary, ReplayApproval, ReplayResult, admin_error, require_role,
}
use sd_platform.ReplayStore

-- `OutboxAdminService.approve_replay`
pub approve_replay :
    (sha256 : String → String) (approval_id event_id outbox_id : Uuid) (reason : String)
    (key : Uuid)
    → AdminActor
    → Datetime
    → Db
    → Result (ReplayApproval × Db)
approve_replay sha256 approval_id event_id outbox_id reason key actor now db = do
  require_role actor ("supervision_admin" ∷ [])
  let normalized = strip reason
  check (leb 10 (text_length normalized) && leb (text_length normalized) 500)
      (admin_error "OUTBOX_REASON_INVALID" 422)
  current_time ← require_utc now
  ReplayStore.approve_replay sha256 approval_id event_id outbox_id normalized key actor current_time
      db

-- `OutboxAdminService.replay`
pub replay :
    (event_id outbox_id approval_id key : Uuid)
    → AdminActor
    → Datetime
    → Db
    → Result (ReplayResult × Db)
replay event_id outbox_id approval_id key actor now db = do
  require_role actor ("ops_admin" ∷ [])
  current_time ← require_utc now
  ReplayStore.replay event_id outbox_id approval_id key actor current_time db

-- `OutboxAdminService.list_dead_letters`
pub list_dead_letters :
    AdminActor → Option Uuid → ℕ → Db → Result (List DeadLetterSummary × Option Uuid)
list_dead_letters actor cursor limit db = do
  require_role actor ("supervision_admin" ∷ "ops_admin" ∷ [])
  check (leb 1 limit && leb limit 100) (admin_error "OUTBOX_LIMIT_INVALID" 422)
  ok (ReplayStore.list_dead_letters cursor limit db)
