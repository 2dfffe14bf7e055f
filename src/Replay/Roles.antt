-- ===== src/Replay/Roles.antt =====
-- Who may approve and who may execute a replay (`OutboxAdminService`).
use sd_platform.Common.{
  ◌==◌, ◌≡◌, ◌≤◌, String, true, List, [], ◌∷◌, none, arith, ok, Datetime, require_utc, first_where,
  text_length, strip, mem_text, meets, eq_iff,
}
use sd_platform.Db.{Uuid, Db, is_value}
use sd_platform.Admin.{AdminActor, ReplayApproval, ReplayResult, require_role}
use sd_platform.ReplayStore
use sd_platform.ReplayStore.Approve.{IsOpened, approve_opens}
use sd_platform.ReplayStore.Execute.{IsAllowed, IsReplayed, replay_two_people}
use sd_platform.Replay.{approve_replay, replay}

-- The actor has a role of that name.
abbrev pub HasRole : AdminActor → String → Type 0
HasRole actor role = mem_text role actor.roles ≡ true

meets_one :
    (role : String) (roles : List String)
    → meets roles (role ∷ []) ≡ true
    → mem_text role roles ≡ true
meets_one role [] h = h
meets_one role (x ∷ roles) h = ground (arith, eq_iff role x, eq_iff x role, meets_one role roles)

module _ (actor : AdminActor) (now : Datetime) (db : Db) where
  -- An approval under a new key is given only to a supervision admin, for a reason that has 10 to
  -- 500 characters when it is trimmed, and then it is an approval of a dead letter in that
  -- person's name as the repository writes it.
  pub service_approves :
      (sha256 : String → String) (approval_id event_id outbox_id : Uuid) (reason : String)
      (key : Uuid) (approval : ReplayApproval) (db' : Db)
      → first_where (λ a. a.approval_idempotency_key == key) db.outbox_replay_approval ≡ none
      → approve_replay sha256 approval_id event_id outbox_id reason key actor now db
        ≡ ok (approval, db')
      → HasRole actor "supervision_admin"
        × (10 ≤ text_length (strip reason))
        × (text_length (strip reason) ≤ 500)
        × IsOpened sha256 approval_id event_id outbox_id
            (strip reason)
            key
            actor
            now.instant
            db
            approval
            db'
  unfolding approve_replay require_role require_utc
  service_approves sha256 approval_id event_id outbox_id reason key approval db' new e =
      let (role, low, high, inner) = guards in
      (
        meets_one "supervision_admin" actor.roles role,
        low,
        high,
        approve_opens sha256 approval_id event_id outbox_id (strip reason) key actor now.instant db
            approval db' new inner,
      )
    where
      guards :
          (meets actor.roles ("supervision_admin" ∷ []) ≡ true)
          × (10 ≤ text_length (strip reason))
          × (text_length (strip reason) ≤ 500)
          × (ReplayStore.approve_replay sha256 approval_id event_id outbox_id
                (strip reason)
                key
                actor
                now.instant
                db
              ≡ ok (approval, db'))
      guards = (ground arith, ground arith, ground arith, ground arith)

  -- A replay under a new key is executed only by an ops admin other than the one who approved it,
  -- on an unspent approval of a message that is dead, and does what the repository does.
  pub service_replays :
      (event_id outbox_id approval_id key : Uuid) (result : ReplayResult) (db' : Db)
      → first_where (λ a. is_value a.execution_idempotency_key key) db.outbox_replay_approval ≡ none
      → replay event_id outbox_id approval_id key actor now db ≡ ok (result, db')
      → HasRole actor "ops_admin"
        × IsAllowed event_id outbox_id approval_id key actor now.instant db
        × IsReplayed event_id outbox_id approval_id key actor now.instant db db'
  unfolding replay require_role require_utc
  service_replays event_id outbox_id approval_id key result db' new e =
      let (role, inner) = guards in
      let (allowed, done) =
        replay_two_people event_id outbox_id approval_id key actor now.instant db result db' new
          inner in
      (meets_one "ops_admin" actor.roles role, allowed, done)
    where
      guards :
          (meets actor.roles ("ops_admin" ∷ []) ≡ true)
          × (ReplayStore.replay event_id outbox_id approval_id key actor now.instant db
              ≡ ok (result, db'))
      guards = (ground arith, ground arith)
