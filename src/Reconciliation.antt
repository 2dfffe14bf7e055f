-- ===== src/Reconciliation.antt =====
-- The job that finishes reports which stopped between the task table and PostgreSQL
-- (sd-agent/sd_agent/jobs/reconciliation.py). A claim holds a transaction open from the choice of a
-- command to its end, with the calls of the task table between them; another transaction cannot
-- write the claimed row in that time. The repository is the one in PostgreSQL; the gateway acts on
-- a state `W` of its own. `locked` says whether the lock of a command was free, and the UUIDs that
-- the code draws are functions of the tables.
pub mod Job
mod Recovered
mod Tests
use sd_platform.Common.{
  ℕ, ◌+◌, ◌-◌, ℤ, pos, String, Bool, true, false, not, ◌&&◌, ◌||◌, List, [], ◌∷◌, ◌++◌, map, Option,
  none, some, ltb, leb, ◌==◌, if◌then◌else◌, length, take, other, runtime_error, value_error,
  Result, ok, err, or_raise, require, Instant, Datetime, minutes, select_where, first_where,
  update_where, exists_where, order_by,
}
use sd_platform.Common.Actions.{Exec, pure, lift, raise, ◌>>=◌, ◌>>◌}
use sd_platform.Db.{
  Uuid, Scalar, DedupKey, same_key, Db, SubmissionCommand, SubmissionResult, CommandState,
  FileObject, OutboxMessage, MessageState, AuditEvent, Who,
}
use sd_platform.World.{World, outside, on_tables}
use sd_platform.Report.{TaskSnapshot, is_nil}
use sd_platform.SubmissionStore.{is_bindable, bound, files_are_clean}

pub record ReconciliationCandidate : Type 0 where
  pub command_id : Uuid
  pub person_id : ℕ
  pub task_id : ℕ
  pub updated_at : Instant

pub record ProgressRecovery : Type 0 where
  pub record_id : String
  pub log_id : ℕ
  pub command_id : Uuid
  pub task_id : ℕ
  pub reporter_id : ℕ
  pub progress : ℕ
  pub file_ids : List String

-- `ReconciliationGateway`. The key of an update is f"reconcile:{command_id}", given by its id.
pub record ReconciliationGateway (W : Type 0) : Type 0 where
  pub find_recovery : Uuid → Exec W (Option ProgressRecovery)
  pub get_task : ℕ → Exec W (Option TaskSnapshot)
  pub update_task_progress :
      TaskSnapshot → (progress next_revision : ℕ) → (command_id : Uuid) → Exec W TaskSnapshot

-- `_candidate`
unfoldable pub candidate_of : SubmissionCommand → ReconciliationCandidate
candidate_of row = record {
  command_id = row.command_id;
  person_id = row.person_id;
  task_id = row.task_id;
  updated_at = row.updated_at;
}

-- state in (pending, teable_written)
abbrev pub is_unfinished : CommandState → Bool
is_unfinished CommandState.pending = true
is_unfinished CommandState.teable_written = true
is_unfinished _ = false

abbrev pub is_stale : Instant → SubmissionCommand → Bool
is_stale before c = is_unfinished c.state && leb c.updated_at before

-- order by updated_at, command_id
abbrev pub stale_first : SubmissionCommand → SubmissionCommand → Bool
stale_first a b =
    ltb a.updated_at b.updated_at || (a.updated_at == b.updated_at && leb a.command_id b.command_id)

-- `SqlReconciliationRepository.list_candidates`
unfoldable pub list_candidates : Instant → (limit : ℕ) → Db → List ReconciliationCandidate
list_candidates before limit db =
    map candidate_of
      (take limit (order_by stale_first (select_where (is_stale before) db.submission_command)))

-- `SqlReconciliationRepository.claim`: the row that the claim holds.
unfoldable pub claim_command :
    (locked : Bool) → ReconciliationCandidate → Instant → Db → Option SubmissionCommand
claim_command locked candidate before db =
    if not locked
    then none
    else first_where (λ c. c.command_id == candidate.command_id && is_stale before c)
        db.submission_command

-- `_validate_recovery`
unfoldable pub validate_recovery : ReconciliationCandidate → ProgressRecovery → Result (Unit {0})
validate_recovery candidate recovery =
    if not (recovery.command_id == candidate.command_id)
      || (not (recovery.task_id == candidate.task_id)
          || not (recovery.reporter_id == candidate.person_id))
    then err (runtime_error "RECONCILIATION_IDENTITY_MISMATCH")
    else ok tt

abbrev pub recovered_result : ReconciliationCandidate → ProgressRecovery → SubmissionResult
recovered_result candidate recovery = record {
  submission_id = candidate.command_id;
  log_id = recovery.log_id;
}

abbrev pub reconciled :
    ReconciliationCandidate → ProgressRecovery → Instant → SubmissionCommand → SubmissionCommand
reconciled candidate recovery now c = record c {
  state = CommandState.committed;
  teable_record_id = some recovery.record_id;
  result = some (recovered_result candidate recovery);
  last_error_code = none;
  updated_at = now;
}

module _ (request_id : Uuid → String) where
  -- `request_id` is f"reconcile:{command_id}"[:64]
  abbrev pub reconcile_event :
      Uuid → ReconciliationCandidate → ProgressRecovery → Instant → AuditEvent
  reconcile_event event_id candidate recovery now = record {
    event_id = event_id;
    request_id = request_id candidate.command_id;
    who = Who.person candidate.person_id;
    role = none;
    what = "report.reconcile";
    target_type = "task";
    target_id = Scalar.num candidate.task_id;
    result = "success";
    ip = none;
    user_agent = none;
    details =
        ("command_id", Scalar.uuid candidate.command_id)
        ∷ ("log_id", Scalar.num recovery.log_id)
        ∷ [];
    created_at = now;
  }

abbrev pub recovery_message :
    Uuid → ReconciliationCandidate → ProgressRecovery → Instant → OutboxMessage
recovery_message outbox_id candidate recovery now = record {
  outbox_id = outbox_id;
  kind = "oa.complete_pending";
  dedup_key = DedupKey.submission candidate.command_id;
  payload =
      ("command_id", Scalar.uuid candidate.command_id)
      ∷ ("task_id", Scalar.num candidate.task_id)
      ∷ ("person_id", Scalar.num candidate.person_id)
      ∷ ("log_id", Scalar.num recovery.log_id)
      ∷ [];
  state = MessageState.pending;
  available_at = now;
  lease_until = none;
  attempt_count = 0;
  last_error_code = none;
  created_at = now;
  updated_at = now;
}
