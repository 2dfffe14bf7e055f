-- ===== src/Lifecycle/Steps.antt =====
-- The transactions of the program as steps on the tables: the outbox (persistence/outbox.py), its
-- administration (persistence/outbox_admin.py), requests to run a job (persistence/scheduler_admin.py),
-- runs (persistence/scheduler.py), submissions (persistence/submissions.py), their reconciliation
-- (jobs/reconciliation.py) and urges (jobs/urge.py). Those of sessions and logins leave these tables
-- alone, but for the audit, and are no steps here.
use sd_platform.Common.{List, [], ◌∷◌, ◌≡◌, ℕ, String, Bool, Option, none, ok, Instant, IsKeyed}
use sd_platform.Db.{Uuid, Db, OutboxMessage, RunState, SubmissionCommand, SubmissionResult}
use sd_platform.Outbox.{OutboxItem, DispatchResult, DispatchOutcome}
use sd_platform.OutboxStore.{message_of, claim, finish}
use sd_platform.Admin.{AdminActor, ReplayApproval, ReplayResult}
use sd_platform.ReplayStore
use sd_platform.ReplayStore.{requeued, replay_new}
use sd_platform.Scheduler.{Counts}
use sd_platform.SchedulerAdmin.{SchedulerAdminActor, TriggerResult}
use sd_platform.TriggerStore.{enqueue_trigger}
use sd_platform.JobStore.{claim_run, finish_run}
use sd_platform.SubmissionStore.{AuditFacts, reserve, mark_teable_written, reject, complete}
use sd_platform.Urge.{UrgeScan, UrgeCommand}
use sd_platform.Urge.Scan.{queue_urge}
use sd_platform.Reconciliation.{ReconciliationCandidate, ProgressRecovery}
use sd_platform.Reconciliation.Job.{complete_claim}
use sd_platform.Lifecycle.{Kind, quiet, claiming, settling, queueing, queued_by, reopened_by}

abbrev pub Keyed : Db → Type 0
Keyed db = IsKeyed (λ (m : OutboxMessage). m.outbox_id) db.outbox_message

-- A message is added under an id that is new, by the table's primary key.
abbrev pub IsNew : Uuid → Db → Type 0
IsNew id db = message_of id db.outbox_message ≡ none

-- One committed transaction, by whoever runs it.
pub data Step (db db' : Db) : Type 0 where
  claims :
      (locked : Uuid → Bool) (now batch_size lease : ℕ)
      → db' ≡ (claim locked now batch_size lease db).1
      → Step db db'
  finishes :
      (attempt_id : Uuid) (item : OutboxItem) (result : DispatchResult) (outcome : DispatchOutcome)
      (available_at now : Instant)
      → finish attempt_id item result outcome available_at now db ≡ ok (tt, db')
      → Step db db'
  approves :
      (sha256 : String → String) (approval_id event_id outbox_id : Uuid) (reason : String)
      (key : Uuid) (actor : AdminActor) (now : Instant) (approval : ReplayApproval)
      → ReplayStore.approve_replay sha256 approval_id event_id outbox_id reason key actor now db
        ≡ ok (approval, db')
      → Step db db'
  replays :
      (event_id outbox_id approval_id key : Uuid) (actor : AdminActor) (now : Instant)
      (result : ReplayResult)
      → ReplayStore.replay event_id outbox_id approval_id key actor now db ≡ ok (result, db')
      → Step db db'
  triggers :
      (trigger_id outbox_id event_id : Uuid) (job : String) (retry : Option Uuid) (key : Uuid)
      (hash : String) (actor : SchedulerAdminActor) (now : Instant) (result : TriggerResult)
      → IsNew outbox_id db
      → enqueue_trigger trigger_id outbox_id event_id job retry key hash actor now db
        ≡ ok (result, db')
      → Step db db'
  completes :
      (event_id outbox_id command_id : Uuid) (result : SubmissionResult) (audit : AuditFacts)
      (now : Instant)
      → IsNew outbox_id db
      → complete event_id outbox_id command_id result audit now db ≡ ok (tt, db')
      → Step db db'
  reconciles :
      (request_id : Uuid → String) (event_id outbox_id : Uuid) (held : ReconciliationCandidate)
      (recovery : ProgressRecovery) (now : Instant)
      → IsNew outbox_id db
      → complete_claim request_id event_id outbox_id held recovery now db ≡ ok (tt, db')
      → Step db db'
  -- one insert of a scan, whose transaction makes as many as it has new urges
  urges :
      (scan : UrgeScan) (outbox_id event_id : Db → Uuid) (c : UrgeCommand)
      → IsNew (outbox_id db) db
      → db' ≡ queue_urge scan outbox_id event_id c db
      → Step db db'
  reserves :
      (command_id key : Uuid) (person_id task_id : ℕ) (hash : String) (now : Instant)
      (command : SubmissionCommand)
      → reserve command_id key person_id task_id hash now db ≡ ok (command, db')
      → Step db db'
  marks :
      (command_id : Uuid) (record_id : String) (now : Instant)
      → db' ≡ mark_teable_written command_id record_id now db
      → Step db db'
  rejects :
      (command_id : Uuid) (code : String) (now : Instant)
      → db' ≡ reject command_id code now db
      → Step db db'
  claims_run :
      (locked : Bool) (id : Uuid) (job : String) (slot : Instant) (config_hash : String)
      (started_at : Instant)
      → db' ≡ (claim_run locked id job slot config_hash started_at db).1
      → Step db db'
  ends_run :
      (id : Uuid) (state : RunState) (counts : Counts) (error_code : Option String)
      (finished_at : Instant)
      → finish_run id state counts error_code finished_at db ≡ ok (tt, db')
      → Step db db'

-- The tables that transactions reach, in any order.
pub data Reach (db : Db) : Db → Type 0 where
  here : Reach db db
  next : {d e : Db} → Reach db d → Step d e → Reach db e

-- What a step does, and the steps of a run, the last of them first.
abbrev pub kind_of : (db db' : Db) → Step db db' → Kind
kind_of db db' (claims locked now batch_size lease same) = claiming
kind_of db db' (finishes attempt_id item result outcome available_at now e) =
    settling item.outbox_id outcome
kind_of db db' (replays event_id outbox_id approval_id key actor now result e) =
    reopened_by result.idempotent outbox_id
kind_of db db'
      (triggers trigger_id outbox_id event_id job retry key hash actor now result fresh e) =
    queued_by result.idempotent outbox_id
kind_of db db' (completes event_id outbox_id command_id result audit now fresh e) =
    queueing outbox_id
kind_of db db' (reconciles request_id event_id outbox_id held recovery now fresh e) =
    queueing outbox_id
kind_of db db' (urges scan outbox_id event_id c fresh same) = queueing (outbox_id db)
kind_of db db' (approves sha256 approval_id event_id outbox_id reason key actor now approval e) =
    quiet
kind_of db db' (reserves command_id key person_id task_id hash now command e) = quiet
kind_of db db' (marks command_id record_id now same) = quiet
kind_of db db' (rejects command_id code now same) = quiet
kind_of db db' (claims_run locked id job slot config_hash started_at same) = quiet
kind_of db db' (ends_run id state counts error_code finished_at e) = quiet

abbrev pub kinds_of : (db db' : Db) → Reach db db' → List Kind
kinds_of db db' here = []
kinds_of db db' (next {d} before step) = kind_of d db' step ∷ kinds_of db d before
