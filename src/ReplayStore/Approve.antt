-- ===== src/ReplayStore/Approve.antt =====
-- What an approval of a replay checks and writes (`SqlOutboxAdminRepository.approve_replay`).
use sd_platform.Common.{
  ◌≡◌, refl, String, false, [], ◌∷◌, ◌++◌, none, some, arith, ok, Instant, first_where,
  first_where-append, ◌==◌, eq→==, Option-cases, inl, inr,
}
use sd_platform.Db.{Uuid, Scalar, Db, OutboxMessage, OutboxReplayApproval, AuditEvent, MessageState}
use sd_platform.OutboxStore.{message_of}
use sd_platform.Admin.{AdminActor, ReplayApproval}
use sd_platform.ReplayStore.{
  is_active, with_approval_key, approval_of, audit, new_approval, approve_new, approve_replay,
}

module _ (sha256 : String → String) (approval_id event_id outbox_id : Uuid) (reason : String)
    (key : Uuid) (actor : AdminActor) (now : Instant) (db : Db) where
  abbrev pub row_of_request : OutboxReplayApproval
  row_of_request = new_approval sha256 approval_id outbox_id reason key actor now

  abbrev event_of_request : AuditEvent
  event_of_request =
      audit event_id actor "outbox.replay.approve" outbox_id "approved"
        (("approval_id", Scalar.uuid approval_id)
          ∷ ("reason_hash", Scalar.text (sha256 reason))
          ∷ [])
        now

  abbrev pub opened : Db
  opened = record db {
    outbox_replay_approval = db.outbox_replay_approval ++ row_of_request ∷ [];
    audit_event = db.audit_event ++ event_of_request ∷ [];
  }

  pub approve_new-inverse :
      (r : ReplayApproval × Db)
      → approve_new sha256 approval_id event_id outbox_id reason key actor now db ≡ ok r
      → (message : OutboxMessage) × (message_of outbox_id db.outbox_message ≡ some message)
        × (message.state ≡ MessageState.dead_letter)
        × (first_where (is_active outbox_id) db.outbox_replay_approval ≡ none)
        × (r ≡ (approval_of row_of_request, opened))
  unfolding approve_new
  approve_new-inverse r e = elim (Option-cases (message_of outbox_id db.outbox_message)) [
    | inl absent ↦ cc (rw (absent, approve_new) at e)
    | inr (m, found) ↦ (m, found, ground arith, ground arith, ground arith)
  ]

  -- What a new approval rests on and writes.
  pub record IsOpened (approval : ReplayApproval) (db' : Db) : Type 0 where
    pub message : OutboxMessage
    pub found : message_of outbox_id db.outbox_message ≡ some message
    pub dead : message.state ≡ MessageState.dead_letter
    pub alone : first_where (is_active outbox_id) db.outbox_replay_approval ≡ none
    pub row : OutboxReplayApproval
    pub added : db'.outbox_replay_approval ≡ db.outbox_replay_approval ++ row ∷ []
    pub who : (row.approved_by ≡ actor.person_id) × (row.outbox_id ≡ outbox_id)
    pub waits :
        (row.consumed_at ≡ none) × (row.consumed_by ≡ none) × (row.execution_idempotency_key ≡ none)
    pub keyed : row.approval_idempotency_key ≡ key
    pub messages : db'.outbox_message ≡ db.outbox_message
    pub event : AuditEvent
    pub audited : db'.audit_event ≡ db.audit_event ++ event ∷ []
    pub shown :
        (approval.outbox_id ≡ outbox_id)
        × (approval.approved_by ≡ actor.person_id)
        × (approval.consumed ≡ false)

  -- An approval under a new key is given only for a dead letter that no approval waits for, and
  -- adds one waiting approval in the actor's name and one audit event; no message changes.
  pub approve_opens :
      (approval : ReplayApproval) (db' : Db)
      → first_where (λ a. a.approval_idempotency_key == key) db.outbox_replay_approval ≡ none
      → approve_replay sha256 approval_id event_id outbox_id reason key actor now db
        ≡ ok (approval, db')
      → IsOpened approval db'
  unfolding approve_replay approval_of
  approve_opens approval db' new e =
      let (m, found, dead, alone, result) =
        approve_new-inverse (approval, db') (rw (new, approve_replay) at e) in
      record {
        message = m;
        found = found;
        dead = dead;
        alone = alone;
        row = row_of_request;
        added = cc;
        who = (refl, refl);
        waits = (refl, refl, refl);
        keyed = refl;
        messages = cc;
        event = event_of_request;
        audited = cc;
        shown = (cc, cc, cc);
      }

  pub find_opened :
      first_where (with_approval_key key) db.outbox_replay_approval ≡ none
      → first_where (with_approval_key key) (db.outbox_replay_approval ++ row_of_request ∷ [])
        ≡ some row_of_request
  unfolding first_where
  find_opened new =
      rw
        (first_where-append (with_approval_key key) db.outbox_replay_approval (row_of_request ∷ []))
        (rw new (rw (eq→== key key refl)))
