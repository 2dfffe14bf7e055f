-- ===== src/Lifecycle/Refinement.antt =====
-- The transactions implement the abstract view of a message.
use sd_platform.Common.{
  List, ◌∷◌, ◌++◌, [], ◌≡◌, refl, ap, sym, subst, ◌∙◌, String, Bool, Option, some, arith, ok,
  Instant, IsKeyed, update_where-IsKeyed,
}
use sd_platform.Db.{Uuid, Db, OutboxMessage, MessageState}
use sd_platform.OutboxStore.{finished}
use sd_platform.OutboxStore.Leases.{claim-IsKeyed}
use sd_platform.JobStore.{claim_run, finish_run}
use sd_platform.SubmissionStore.{reserve, mark_teable_written, reject, completion_message}
use sd_platform.SubmissionStore.Completion.{complete-inverse}
use sd_platform.Urge.Scan.{urge_message}
use sd_platform.Reconciliation.{ReconciliationCandidate, ProgressRecovery, recovery_message}
use sd_platform.Reconciliation.Job.{complete_claim}
use sd_platform.Lifecycle.{Kind, claiming, sent-Move, Move, Moves, status, still, then_move}
use sd_platform.OutboxStore.Finish.{finish-rows}
use sd_platform.Lifecycle.Claims.{claim-Move, finish-Move}
use sd_platform.Lifecycle.Steps.{
  kind_of, kinds_of, Keyed, Step, Reach, here, next, claims, finishes, approves, replays, triggers,
  completes, reserves, reconciles, urges, marks, rejects, claims_run, ends_run,
}
use sd_platform.Lifecycle.Rows.{Refines, same_rows, one_row}
use sd_platform.Lifecycle.Requests.{approved_step, replayed_step, requested_step}

complete_claim-messages :
    (request_id : Uuid → String) (event_id outbox_id : Uuid) (held : ReconciliationCandidate)
    (recovery : ProgressRecovery) (now : Instant) (db db' : Db)
    → complete_claim request_id event_id outbox_id held recovery now db ≡ ok (tt, db')
    → db'.outbox_message ≡ db.outbox_message ++ recovery_message outbox_id held recovery now ∷ []
unfolding complete_claim
complete_claim-messages request_id event_id outbox_id held recovery now db db' e = ground (arith, e)

run_claimed :
    (db : Db) (locked : Bool) (id : Uuid) (job : String) (slot : Instant) (config_hash : String)
    (started_at : Instant)
    → (claim_run locked id job slot config_hash started_at db).1.outbox_message ≡ db.outbox_message
unfolding claim_run
run_claimed db locked id job slot config_hash started_at = ground arith

-- One step makes of each message what the abstract view allows, and keeps the primary key.
Step-Refines : (db db' : Db) (step : Step db db') → Keyed db → Refines (kind_of db db' step) db db'
unfolding completion_message reserve mark_teable_written reject claim_run finish_run finished
Step-Refines db db' (claims locked now batch_size lease same) keyed =
    subst (Refines claiming db) (sym same) (
      claim-Move locked now batch_size lease db keyed,
      claim-IsKeyed locked now batch_size lease db keyed,
    )
Step-Refines db db' (finishes attempt_id item result outcome available_at now e) keyed = (
  finish-Move attempt_id item result outcome available_at now db db' e keyed,
  subst (IsKeyed (λ (m : OutboxMessage). m.outbox_id))
      (sym (finish-rows attempt_id item result outcome available_at now db db' e))
      (update_where-IsKeyed (λ m. m.outbox_id) _ _ (λ m. refl) db.outbox_message keyed),
)
Step-Refines db db' (approves sha256 approval_id event_id outbox_id reason key actor now approval e)
      keyed =
    same_rows db db' keyed (
      approved_step db db' keyed sha256 approval_id event_id outbox_id reason key actor now approval
        e)
Step-Refines db db' (replays event_id outbox_id approval_id key actor now result e) keyed =
    replayed_step db db' keyed event_id outbox_id approval_id key actor now result e
Step-Refines db db'
      (triggers trigger_id outbox_id event_id job retry key hash actor now result fresh e) keyed =
    requested_step db db' keyed trigger_id outbox_id event_id job retry key hash actor now result
      fresh e
Step-Refines db db' (completes event_id outbox_id command_id result audit now fresh e) keyed =
    one_row db db' (completion_message outbox_id command_id result audit now) keyed fresh refl
      (complete-inverse event_id outbox_id command_id result audit now db db' tt e).messages
Step-Refines db db' (reconciles request_id event_id outbox_id held recovery now fresh e) keyed =
    one_row db db' (recovery_message outbox_id held recovery now) keyed fresh refl
      (complete_claim-messages request_id event_id outbox_id held recovery now db db' e)
Step-Refines db db' (urges scan outbox_id event_id c fresh same) keyed =
    one_row db db' (urge_message (outbox_id db) c) keyed fresh refl
      (ap (λ (d : Db). d.outbox_message) same)
Step-Refines db db' (reserves command_id key person_id task_id hash now command e) keyed =
    same_rows db db' keyed (ground (arith, e))
Step-Refines db db' (marks command_id record_id now same) keyed =
    same_rows db db' keyed (ap (λ (d : Db). d.outbox_message) same)
Step-Refines db db' (rejects command_id code now same) keyed =
    same_rows db db' keyed (ap (λ (d : Db). d.outbox_message) same)
Step-Refines db db' (claims_run locked id job slot config_hash started_at same) keyed =
    same_rows db db' keyed (
      ap (λ (d : Db). d.outbox_message) same
      ∙ run_claimed db locked id job slot config_hash started_at)
Step-Refines db db' (ends_run id state counts error_code finished_at e) keyed =
    same_rows db db' keyed (ground (arith, e))

Reach-Refines :
    (db db' : Db) (reach : Reach db db')
    → Keyed db
    → ((k : Uuid)
        → Moves k
            (status k db.outbox_message)
            (kinds_of db db' reach)
            (status k db'.outbox_message))
      × Keyed db'
Reach-Refines db db' here keyed = (λ k. still, keyed)
Reach-Refines db db' (next {d} before step) keyed =
    let (moves, keyed') = Reach-Refines db d before keyed in
    let (move, keyed'') = Step-Refines d db' step keyed' in
    (λ k. then_move (moves k) (move k), keyed'')

-- Whatever transactions run, in any order, each of them moves each message of the outbox as the
-- abstract view of its kind says. A transaction that queues a message finds none under its id and
-- leaves it pending; a claim makes of a message that is neither sent nor dead one that is being
-- processed, or leaves it; a finish finds its message being processed and leaves it in the outcome's
-- state; a replay that is executed finds its message dead and leaves it to be tried again; no
-- transaction but a claim moves another message than its own, and no other kind moves any. The table
-- has its primary key at the start.
pub outbox_refines :
    (db db' : Db) (k : Uuid) (reach : Reach db db')
    → IsKeyed (λ m. m.outbox_id) db.outbox_message
    → Moves k (status k db.outbox_message) (kinds_of db db' reach) (status k db'.outbox_message)
outbox_refines db db' k reach keyed = (Reach-Refines db db' reach keyed).0 k

sent-Moves :
    (k : Uuid) (a b : Option MessageState) (kinds : List Kind)
    → Moves k a kinds b
    → a ≡ some MessageState.sent
    → b ≡ some MessageState.sent
sent-Moves k a b [] still e = e
sent-Moves k a c (kind ∷ kinds) (then_move {b} before move) e =
    sent-Move kind k c (subst (λ s. Move kind k s c) (sent-Moves k a b kinds before e) move)

-- A message that was sent stays sent, whatever transactions run afterwards and in any order.
pub sent_final :
    (db db' : Db) (k : Uuid)
    → Reach db db'
    → IsKeyed (λ m. m.outbox_id) db.outbox_message
    → status k db.outbox_message ≡ some MessageState.sent
    → status k db'.outbox_message ≡ some MessageState.sent
sent_final db db' k reach keyed sent =
    sent-Moves k _ _ (kinds_of db db' reach) (outbox_refines db db' k reach keyed) sent
