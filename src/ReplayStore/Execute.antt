-- ===== src/ReplayStore/Execute.antt =====
-- What the execution of a replay checks and writes (`SqlOutboxAdminRepository.replay`).
use sd_platform.Common.{
  ◌≡◌, ◌≢◌, refl, sym, subst, false, List, [], ◌∷◌, ◌++◌, Option, none, some, arith, ok, Instant,
  first_where, first_where-update, update_where, Option-apply, ◌==◌, if◌then◌else◌, Option-cases,
  inl, inr, row_of-key,
}
use sd_platform.Db.{
  Uuid, Scalar, Db, OutboxMessage, OutboxReplayApproval, AuditEvent, MessageState, is_value,
}
use sd_platform.OutboxStore.{message_of}
use sd_platform.Admin.{AdminActor, ReplayResult}
use sd_platform.ReplayStore.{consumed, requeued, audit, replay_new, replay}

abbrev pub approval_of_id : Uuid → List OutboxReplayApproval → Option OutboxReplayApproval
approval_of_id k = first_where (λ a. a.approval_id == k)

module _ (event_id outbox_id approval_id key : Uuid) (actor : AdminActor) (now : Instant)
    (db : Db) where
  abbrev pub event_of_replay : AuditEvent
  event_of_replay =
      audit event_id actor "outbox.replay.execute" outbox_id "queued"
        (("approval_id", Scalar.uuid approval_id) ∷ []) now

  abbrev pub replayed : Db
  replayed = record db {
    outbox_message = update_where (λ m. m.outbox_id == outbox_id) (requeued now) db.outbox_message;
    outbox_replay_approval =
        update_where (λ a. a.approval_id == approval_id) (consumed actor key now)
          db.outbox_replay_approval;
    audit_event = db.audit_event ++ event_of_replay ∷ [];
  }

  -- What an execution rests on.
  pub record IsAllowed : Type 0 where
    pub approval : OutboxReplayApproval
    pub found : approval_of_id approval_id db.outbox_replay_approval ≡ some approval
    pub for_message : approval.outbox_id ≡ outbox_id
    pub waiting : approval.consumed_at ≡ none
    pub two_people : approval.approved_by ≢ actor.person_id
    pub message : OutboxMessage
    pub there : message_of outbox_id db.outbox_message ≡ some message
    pub dead : message.state ≡ MessageState.dead_letter

  pub replay_new-inverse :
      (r : ReplayResult × Db)
      → replay_new event_id outbox_id approval_id key actor now db ≡ ok r
      → IsAllowed × (r.1 ≡ replayed) × (r.0.idempotent ≡ false)
  unfolding replay_new
  replay_new-inverse r e =
      elim (Option-cases (approval_of_id approval_id db.outbox_replay_approval)) [
        | inl absent ↦ cc (rw (absent, replay_new) at e)
        | inr (a, found) ↦ elim (Option-cases (message_of outbox_id db.outbox_message)) [
          | inl missing ↦ absurd (ground arith)
          | inr (m, there) ↦ (
            record {
              approval = a;
              found = found;
              for_message = ground arith;
              waiting = ground arith;
              two_people = ground arith;
              message = m;
              there = there;
              dead = ground arith;
            },
            ground arith,
            ground arith,
          )
        ]
      ]

  -- What an execution leaves in the tables.
  pub record IsReplayed (db' : Db) : Type 0 where
    pub spent : OutboxReplayApproval
    pub stored : approval_of_id approval_id db'.outbox_replay_approval ≡ some spent
    pub by_actor : (spent.consumed_by ≡ some actor.person_id) × (spent.consumed_at ≡ some now)
    pub for_message : spent.outbox_id ≡ outbox_id
    pub not_by_approver : spent.approved_by ≢ actor.person_id
    pub row : OutboxMessage
    pub queued : message_of outbox_id db'.outbox_message ≡ some row
    pub fresh :
        (row.state ≡ MessageState.retry)
        × (row.attempt_count ≡ 0)
        × (row.available_at ≡ now)
        × (row.lease_until ≡ none)
    pub others :
        (k : Uuid)
        → k ≢ outbox_id
        → message_of k db'.outbox_message ≡ message_of k db.outbox_message
    pub history : db'.outbox_attempt ≡ db.outbox_attempt
    pub event : AuditEvent
    pub audited : db'.audit_event ≡ db.audit_event ++ event ∷ []

  pub read-replayed :
      (k : Uuid)
      → message_of k replayed.outbox_message
        ≡ Option-apply
            (λ m. if m.outbox_id == outbox_id then requeued now m else m)
            (message_of k db.outbox_message)
  unfolding requeued
  read-replayed k = first_where-update _ _ _ (λ m. refl) db.outbox_message

  read-spent :
      (k : Uuid)
      → approval_of_id k replayed.outbox_replay_approval
        ≡ Option-apply
            (λ a. if a.approval_id == approval_id then consumed actor key now a else a)
            (approval_of_id k db.outbox_replay_approval)
  unfolding consumed
  read-spent k = first_where-update _ _ _ (λ a. refl) db.outbox_replay_approval

  others-replayed :
      (k : Uuid)
      → k ≢ outbox_id
      → message_of k replayed.outbox_message ≡ message_of k db.outbox_message
  others-replayed k other = elim (Option-cases (message_of k db.outbox_message)) [
    | inl e ↦ rw (read-replayed k) (rw e)
    | inr (m, e) ↦
        ground (arith, read-replayed k, row_of-key (λ r. r.outbox_id) k db.outbox_message m e)
  ]

  spent-replayed :
      (a : IsAllowed)
      → approval_of_id approval_id replayed.outbox_replay_approval
        ≡ some (consumed actor key now a.approval)
  spent-replayed a = ground (
    arith,
    read-spent approval_id,
    row_of-key (λ r. r.approval_id) approval_id db.outbox_replay_approval a.approval a.found,
  )

  queued-replayed :
      (a : IsAllowed) → message_of outbox_id replayed.outbox_message ≡ some (requeued now a.message)
  queued-replayed a = ground (
    arith,
    read-replayed outbox_id,
    row_of-key (λ r. r.outbox_id) outbox_id db.outbox_message a.message a.there,
  )

  replayed-IsReplayed : IsAllowed → IsReplayed replayed
  unfolding consumed requeued
  replayed-IsReplayed a = record {
    spent = consumed actor key now a.approval;
    stored = spent-replayed a;
    by_actor = (refl, refl);
    for_message = a.for_message;
    not_by_approver = a.two_people;
    row = requeued now a.message;
    queued = queued-replayed a;
    fresh = (refl, refl, refl, refl);
    others = others-replayed;
    history = refl;
    event = event_of_replay;
    audited = refl;
  }

  -- An execution under a new key is allowed only on an unspent approval for the message, to a
  -- person other than the approver, while the message is dead. It spends the approval in the
  -- actor's name, queues the message with no attempts, and changes no other message and no recorded
  -- attempt.
  pub replay_two_people :
      (result : ReplayResult) (db' : Db)
      → first_where (λ a. is_value a.execution_idempotency_key key) db.outbox_replay_approval ≡ none
      → replay event_id outbox_id approval_id key actor now db ≡ ok (result, db')
      → IsAllowed × IsReplayed db'
  unfolding replay
  replay_two_people result db' new e =
      let (allowed, after, fresh) = replay_new-inverse (result, db') (rw (new, replay) at e) in
      (allowed, subst IsReplayed (sym after) (replayed-IsReplayed allowed))
