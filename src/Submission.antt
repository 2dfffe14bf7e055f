-- ===== src/Submission.antt =====
-- The saga that submits a progress report (`SubmissionService.submit` of
-- sd-agent/sd_agent/submission/service.py): the tables and the task table of Teable have no common
-- transaction, so each step is its own, and a repeated submission with its idempotency key goes on
-- from where the first stopped. The service runs under the lock of the task (`task_lock`), so a
-- submission is one sequence of steps. The gateway to Teable acts on a state `W` of its own and may
-- raise at any call; `payload_hash` is the hash of the report's canonical JSON.
mod Steps
mod Commit
pub mod Again
mod Effects
mod Refused
mod Whole
pub mod Samples
mod Tests
use sd_platform.Common.{
  ℕ, ◌+◌, String, Bool, true, false, not, ◌&&◌, ◌||◌, List, map, Option, none, some, ◌==◌, str_eq,
  if◌then◌else◌, is_none, or_default, app_error, Result, ok, err, Instant, Datetime, require_utc,
  sorted_set,
}
use sd_platform.Common.Actions.{Exec, pure, raise, lift, ◌>>=◌, ◌>>◌}
use sd_platform.Db.{
  Uuid, Db, SubmissionCommand, SubmissionResult, is_pending, is_committed, is_rejected,
}
use sd_platform.World.{World, outside}
use sd_platform.Report.{
  SubmissionInput, normalized, TaskSnapshot, ProgressWrite, RoleScope, User, submission_error,
  unconfirmed, validate_request,
}
use sd_platform.SubmissionStore.{
  AuditFacts, reserve, mark_teable_written, reject, complete, files_are_clean,
}

-- `SubmissionGateway`, without the check of files, which reads the tables.
pub record SubmissionGateway (W : Type 0) : Type 0 where
  pub get_task : ℕ → Exec W (Option TaskSnapshot)
  pub find_progress_by_command : Uuid → Exec W (Option ProgressWrite)
  pub append_progress : Uuid → SubmissionInput → (reporter_id : ℕ) → Instant → Exec W ProgressWrite
  pub update_task_progress :
      TaskSnapshot → (progress next_revision : ℕ) → (idempotency_key : Uuid) → Exec W TaskSnapshot

-- One HTTP request: what the service is called with beside the report.
pub record Call : Type 0 where
  pub user : User
  pub key : Uuid
  pub request_id : String
  pub ip : Option String
  pub user_agent : Option String
  pub now : Datetime
  -- the UUIDs that the call draws
  pub command_id : Uuid
  pub event_id : Uuid
  pub outbox_id : Uuid

module _ {W : Type 0} where
  abbrev pub stored : World W → Result (SubmissionCommand × Db) → Result SubmissionCommand × World W
  stored s (ok (a, db)) = (ok a, record s { db = db })
  stored s (err e) = (err e, s)

  abbrev pub done : World W → Result (Unit {0} × Db) → Result (Unit {0}) × World W
  done s (ok (a, db)) = (ok tt, record s { db = db })
  done s (err e) = (err e, s)

  abbrev pub writes : (Db → Db) → Exec (World W) (Unit {0})
  writes f s = (ok tt, record s { db = f s.db })

  abbrev pub unless : Bool → Exec (World W) (Unit {0}) → Exec (World W) (Unit {0})
  unless true m = pure tt
  unless false m = m

-- `_validate_command`
pub validate_command :
    SubmissionCommand
    → (person_id : ℕ) → SubmissionInput
    → (payload_hash : String) → Result (Unit {0})
validate_command command person_id request hash =
    if not (str_eq command.payload_hash hash)
      || (not (command.person_id == person_id) || not (command.task_id == request.task_id))
    then err (submission_error "IDEMPOTENCY_CONFLICT" 409)
    else ok tt

abbrev role_names : List RoleScope → List String
role_names rs = sorted_set (map (λ r. r.role) rs)

abbrev pub facts : Call → SubmissionInput → AuditFacts
facts call request = record {
  request_id = call.request_id;
  person_id = call.user.person_id;
  roles = role_names call.user.roles;
  task_id = request.task_id;
  file_ids = request.file_ids;
  ip = call.ip;
  user_agent = call.user_agent;
}

-- An earlier try of the report has updated the task already.
abbrev pub already_updated : SubmissionInput → TaskSnapshot → Bool
already_updated r t = t.revision == r.task_revision + 1 && t.progress == r.progress

module _ {W : Type 0} (gateway : SubmissionGateway W) where
  -- except SubmissionError: the command is rejected with the code, and the error raised again
  abbrev pub rejecting :
      SubmissionCommand → Instant → Result TaskSnapshot → Exec (World W) TaskSnapshot
  rejecting command now (ok task) s = (ok task, s)
  rejecting command now (err (app_error class_name code status retryable)) s = (
    err (app_error class_name code status retryable),
    record s { db = reject command.command_id code now s.db },
  )
  rejecting command now (err e) s = (err e, s)

  pub checked :
      SubmissionCommand
      → SubmissionInput
      → User
      → Instant
      → Option TaskSnapshot
      → Exec (World W) TaskSnapshot
  checked command request user now found s =
      rejecting command now
        (validate_request request user found (
          files_are_clean request.file_ids
            (elim found [ none ↦ request.task_id | some t ↦ t.task_id ]) user.person_id s.db))
        s

  pub progress_write :
      SubmissionCommand → SubmissionInput → User → Instant → Exec (World W) ProgressWrite
  progress_write command request user now = do
    found ← outside (gateway.find_progress_by_command command.command_id)
    elim found [
      | none ↦ outside (gateway.append_progress command.command_id request user.person_id now)
      | some write ↦ pure write
    ]

  pub confirmed : SubmissionInput → TaskSnapshot → TaskSnapshot → Exec (World W) (Unit {0})
  confirmed request task updated =
      if not (updated.revision == task.revision + 1) || not (updated.progress == request.progress)
      then raise unconfirmed
      else pure tt

  pub update_task : Uuid → SubmissionInput → TaskSnapshot → Exec (World W) (Unit {0})
  unfolding confirmed
  update_task key request task = unless (already_updated request task) do
    updated ← outside (gateway.update_task_progress task request.progress (task.revision + 1) key)
    confirmed request task updated

  -- The part of `submit` after the idempotency checks.
  pub proceed :
      Call → SubmissionCommand → SubmissionInput → Instant → Exec (World W) SubmissionResult
  proceed call command request now = do
    found ← outside (gateway.get_task request.task_id)
    task ← checked command request call.user now found
    write ← progress_write command request call.user now
    unless (not (is_pending command.state))
        (writes (mark_teable_written command.command_id write.record_id now))
    update_task call.key request task
    let result : SubmissionResult = record {
      submission_id = command.command_id;
      log_id = write.log_id;
    }
    (λ s. done s (
          complete call.event_id call.outbox_id command.command_id result (facts call request) now
            s.db))
        >> pure result

  -- A command that is settled answers for itself.
  pub resume :
      Call → SubmissionCommand → SubmissionInput → Instant → Exec (World W) SubmissionResult
  resume call command request now =
      if is_committed command.state && not (is_none command.result)
      then pure (or_default command.result (record { submission_id = 0; log_id = 0 }))
      else if is_rejected command.state
      then raise (submission_error (or_default command.last_error_code "SUBMISSION_REJECTED") 409)
      else proceed call command request now

  -- `SubmissionService.submit`
  pub submit :
      (payload_hash : SubmissionInput → String)
      → Call
      → SubmissionInput
      → Exec (World W) SubmissionResult
  submit payload_hash call request = do
    current_time ← lift (require_utc call.now)
    let normal = normalized request
    let hash = payload_hash normal
    command ← (λ s. stored s (
        reserve call.command_id call.key call.user.person_id normal.task_id hash current_time s.db))
    lift (validate_command command call.user.person_id normal hash)
    resume call command normal current_time
