-- ===== src/ReplayStore/Again.antt =====
-- An execution that is asked for again (`SqlOutboxAdminRepository.replay`): with the same key it is
-- reported as done, and with another key its approval is spent.
use sd_platform.Common.{
  ◌≡◌, refl, sym, subst, true, none, some, arith, ok, err, Instant, first_where,
  first_where-update_new, ◌==◌, eq→==, Option-cases, inl, inr, row_of-key,
}
use sd_platform.Db.{Uuid, Db, OutboxReplayApproval, is_value}
use sd_platform.Admin.{AdminActor, ReplayResult, admin_error}
use sd_platform.ReplayStore.{with_execution_key, consumed, replay_new, replay}
use sd_platform.ReplayStore.Execute.{
  IsAllowed, approval_of_id, replayed, replay_new-inverse, replay_two_people,
}

-- A spent approval is refused.
consumed_refused :
    (event_id outbox_id approval_id key : Uuid) (actor : AdminActor) (now then_at : Instant)
    (db : Db) (row : OutboxReplayApproval)
    → first_where (with_execution_key key) db.outbox_replay_approval ≡ none
    → approval_of_id approval_id db.outbox_replay_approval ≡ some row
    → row.outbox_id ≡ outbox_id
    → row.consumed_at ≡ some then_at
    → replay event_id outbox_id approval_id key actor now db
      ≡ err (admin_error "OUTBOX_APPROVAL_CONSUMED" 409)
unfolding replay replay_new
consumed_refused event_id outbox_id approval_id key actor now then_at db row new found same spent =
    rw (new, replay) (rw (found, replay_new) (ground arith))

module _ (event_id outbox_id approval_id key : Uuid) (actor : AdminActor) (now : Instant)
    (db : Db) where
  abbrev after_it : Db
  after_it = replayed event_id outbox_id approval_id key actor now db

  abbrev Allowed : Type 0
  Allowed = IsAllowed event_id outbox_id approval_id key actor now db

  executed_replayed :
      Allowed
      → first_where (with_execution_key key) db.outbox_replay_approval ≡ none
      → (a : OutboxReplayApproval) × (first_where
            (with_execution_key key)
            after_it.outbox_replay_approval
          ≡ some a)
        × (a.outbox_id ≡ outbox_id)
        × (a.approval_id ≡ approval_id)
  unfolding consumed
  executed_replayed a new = (
    consumed actor key now a.approval,
    first_where-update_new (with_execution_key key) (λ r. r.approval_id == approval_id)
        (consumed actor key now) a.approval (eq→== key key refl) db.outbox_replay_approval new
        a.found,
    a.for_message,
    row_of-key (λ r. r.approval_id) approval_id db.outbox_replay_approval a.approval a.found,
  )

  again_replayed :
      (event_id' : Uuid) (actor' : AdminActor) (now' : Instant)
      → Allowed
      → first_where (with_execution_key key) db.outbox_replay_approval ≡ none
      → replay event_id' outbox_id approval_id key actor' now' after_it
        ≡ ok (
          record { outbox_id = outbox_id; approval_id = approval_id; idempotent = true },
          after_it,
        )
  unfolding replay
  again_replayed event_id' actor' now' allowed new =
      let (a, found, same, id) = executed_replayed allowed new in
      rw (found, replay) (rw (eq→== a.outbox_id outbox_id same, eq→== a.approval_id approval_id id))

  -- An execution that is repeated with its key, by anyone at any time, reports that it was done and
  -- changes nothing.
  pub replay_again :
      (result : ReplayResult) (db' : Db) (event_id' : Uuid) (actor' : AdminActor) (now' : Instant)
      → replay event_id outbox_id approval_id key actor now db ≡ ok (result, db')
      → replay event_id' outbox_id approval_id key actor' now' db'
        ≡ ok (record { outbox_id = outbox_id; approval_id = approval_id; idempotent = true }, db')
  unfolding replay
  replay_again result db' event_id' actor' now' e =
      elim (Option-cases (first_where (with_execution_key key) db.outbox_replay_approval)) [
        | inl new ↦
            let (allowed, after, fresh) =
              replay_new-inverse event_id outbox_id approval_id key actor now db (result, db')
                (rw (new, replay) at e) in
            subst
              (λ (d : Db).
                replay event_id' outbox_id approval_id key actor' now' d
                ≡ ok (
                  record { outbox_id = outbox_id; approval_id = approval_id; idempotent = true },
                  d,
                ))
              (sym after) (again_replayed event_id' actor' now' allowed new)
        | inr (previous, old) ↦ ground arith
      ]

  -- A spent approval cannot be spent again: under a key that executed nothing, any later execution
  -- with it is refused.
  pub replay_spent :
      (result : ReplayResult) (db' : Db) (event_id' key' : Uuid) (actor' : AdminActor)
      (now' : Instant)
      → first_where (λ a. is_value a.execution_idempotency_key key) db.outbox_replay_approval ≡ none
      → replay event_id outbox_id approval_id key actor now db ≡ ok (result, db')
      → first_where (λ a. is_value a.execution_idempotency_key key') db'.outbox_replay_approval
        ≡ none
      → replay event_id' outbox_id approval_id key' actor' now' db'
        ≡ err (admin_error "OUTBOX_APPROVAL_CONSUMED" 409)
  replay_spent result db' event_id' key' actor' now' new e new' =
      let (allowed, after) =
        replay_two_people event_id outbox_id approval_id key actor now db result db' new e in
      consumed_refused event_id' outbox_id approval_id key' actor' now' now db' after.spent new'
        after.stored after.for_message after.by_actor.1
