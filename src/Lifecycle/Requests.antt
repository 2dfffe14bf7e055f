-- ===== src/Lifecycle/Requests.antt =====
-- What approvals, replays and requests to run a job make of the messages.
use sd_platform.Common.{
  ◌≡◌, refl, ap, sym, subst, ◌∙◌, String, true, false, Option, some, arith, inl, inr, ok,
  if◌then◌else◌, ◌==◌, ==→eq, eq→==, Option-cases, Bool-cases, Instant, Option-apply, first_where,
  update_where-IsKeyed, row_of-key,
}
use sd_platform.Db.{is_value, Uuid, Db, OutboxMessage}
use sd_platform.OutboxStore.{message_of}
use sd_platform.Admin.{AdminActor, ReplayApproval, ReplayResult}
use sd_platform.ReplayStore
use sd_platform.ReplayStore.{requeued, replay_new}
use sd_platform.ReplayStore.Approve.{approve_opens}
use sd_platform.ReplayStore.Execute.{IsAllowed, replayed, read-replayed, replay_new-inverse}
use sd_platform.SchedulerAdmin.{SchedulerAdminActor, TriggerResult}
use sd_platform.TriggerStore.{trigger_result, enqueue_trigger, run_command}
use sd_platform.Triggers.Again.{enqueue_new}
use sd_platform.Lifecycle.{reopening, queued_by, reopened_by}
use sd_platform.Lifecycle.Steps.{Keyed, IsNew}
use sd_platform.Lifecycle.Rows.{Refines, same_rows, one_row}

module _ (db db' : Db) (keyed : Keyed db) where
  pub approved_step :
      (sha256 : String → String) (approval_id event_id outbox_id : Uuid) (reason : String)
      (key : Uuid) (actor : AdminActor) (now : Instant) (approval : ReplayApproval)
      → ReplayStore.approve_replay sha256 approval_id event_id outbox_id reason key actor now db
        ≡ ok (approval, db')
      → db'.outbox_message ≡ db.outbox_message
  unfolding ReplayStore.approve_replay
  approved_step sha256 approval_id event_id outbox_id reason key actor now approval e =
      elim (Option-cases
        (first_where (λ a. a.approval_idempotency_key == key) db.outbox_replay_approval)) [
          | inl new ↦
              (approve_opens sha256 approval_id event_id outbox_id reason key actor now db approval
                db' new e).messages
          | inr (existing, found) ↦ ground (arith, rw (found, ReplayStore.approve_replay) at e)
        ]

  reopened_step :
      (event_id outbox_id approval_id key : Uuid) (actor : AdminActor) (now : Instant)
      → IsAllowed event_id outbox_id approval_id key actor now db
      → Refines (reopening outbox_id) db (replayed event_id outbox_id approval_id key actor now db)
  unfolding requeued
  reopened_step event_id outbox_id approval_id key actor now allowed = (
    λ k. elim (Bool-cases (k == outbox_id)) [
      | inl hit ↦
          let same = ==→eq k outbox_id hit in
          let there : message_of k db.outbox_message ≡ some allowed.message =
            ap (λ i. message_of i db.outbox_message) same ∙ allowed.there in
          let at_id =
            row_of-key (λ (r : OutboxMessage). r.outbox_id) outbox_id db.outbox_message
              allowed.message allowed.there in
          inr (
            same,
            rw there (ap some allowed.dead),
            rw (read k) (rw there (rw (eq→== allowed.message.outbox_id outbox_id at_id) refl)),
          )
      | inr miss ↦ inl (
        λ same. cc (eq→== k outbox_id same, miss),
        elim (Option-cases (message_of k db.outbox_message)) [
          | inl absent ↦ rw (read k) (rw absent refl)
          | inr (m, found) ↦
              let at_k =
                row_of-key (λ (r : OutboxMessage). r.outbox_id) k db.outbox_message m found in
              rw (read k) (rw found (rw (ap (λ i. i == outbox_id) at_k ∙ miss) refl))
        ],
      )
    ],
    update_where-IsKeyed (λ m. m.outbox_id) _ _ (λ m. refl) db.outbox_message keyed,
  )
    where
      read :
          (k : Uuid)
          → message_of k (replayed event_id outbox_id approval_id key actor now db).outbox_message
            ≡ Option-apply
                (λ m. if m.outbox_id == outbox_id then requeued now m else m)
                (message_of k db.outbox_message)
      read = read-replayed event_id outbox_id approval_id key actor now db

  pub replayed_step :
      (event_id outbox_id approval_id key : Uuid) (actor : AdminActor) (now : Instant)
      (result : ReplayResult)
      → ReplayStore.replay event_id outbox_id approval_id key actor now db ≡ ok (result, db')
      → Refines (reopened_by result.idempotent outbox_id) db db'
  unfolding ReplayStore.replay requeued
  replayed_step event_id outbox_id approval_id key actor now result e =
      elim (Option-cases
        (first_where (λ a. is_value a.execution_idempotency_key key) db.outbox_replay_approval)) [
          | inl new ↦
              let (allowed, after, fresh) =
                replay_new-inverse event_id outbox_id approval_id key actor now db (result, db')
                  (rw (new, ReplayStore.replay) at e) in
              subst (λ b. Refines (reopened_by b outbox_id) db db') {x = false} (sym fresh)
                (subst (Refines (reopening outbox_id) db) (sym after)
                  (reopened_step event_id outbox_id approval_id key actor now allowed))
          | inr (previous, old) ↦
              subst (λ b. Refines (reopened_by b outbox_id) db db') {x = true}
                (ground (arith, rw (old, ReplayStore.replay) at e))
                (same_rows db db' keyed (ground (arith, rw (old, ReplayStore.replay) at e)))
        ]

  pub requested_step :
      (trigger_id outbox_id event_id : Uuid) (job : String) (retry : Option Uuid) (key : Uuid)
      (hash : String) (actor : SchedulerAdminActor) (now : Instant) (result : TriggerResult)
      → IsNew outbox_id db
      → enqueue_trigger trigger_id outbox_id event_id job retry key hash actor now db
        ≡ ok (result, db')
      → Refines (queued_by result.idempotent outbox_id) db db'
  unfolding enqueue_trigger trigger_result
  requested_step trigger_id outbox_id event_id job retry key hash actor now result fresh e =
      elim (Option-cases (first_where (λ r. r.idempotency_key == key) db.job_trigger_request)) [
        | inl new ↦
            let (allowed, same, after) =
              enqueue_new trigger_id outbox_id event_id job retry key hash actor now db result db'
                new e in
            subst (λ (r : TriggerResult). Refines (queued_by r.idempotent outbox_id) db db')
              (sym same)
              (one_row db db'
                (run_command trigger_id outbox_id event_id job retry key hash actor now) keyed fresh
                refl (ap (λ (d : Db). d.outbox_message) after))
        | inr (existing, found) ↦
            subst (λ b. Refines (queued_by b outbox_id) db db') {x = true}
              (ground (arith, rw (found, enqueue_trigger) at e))
              (same_rows db db' keyed (ground (arith, rw (found, enqueue_trigger) at e)))
      ]
