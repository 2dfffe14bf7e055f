-- ===== src/Submission/Whole.antt =====
-- `SubmissionService.submit` keeps each committed command with a result, however it ends.
use sd_platform.Common.{
  ◌≡◌, refl, true, false, ok, err, app_error, value_error, runtime_error, other, Option, String,
  Result, Instant, Bool-cases, inl, inr, require_utc, not, ◌&&◌, is_none, Bool, ◌+◌, Option-cases,
  if◌then◌else◌,
}
use sd_platform.Common.Actions.{continue, Exec, ◌>>=◌, lift}
use sd_platform.Db.{Db, SubmissionCommand, SubmissionResult, is_pending, is_committed, is_rejected}
use sd_platform.Report.{SubmissionInput, normalized, TaskSnapshot, validate_request}
use sd_platform.SubmissionStore.{reserve, complete, mark_teable_written}
use sd_platform.SubmissionStore.Whole.{
  AllWhole, reserve-AllWhole, mark-AllWhole, reject-AllWhole, complete-AllWhole,
}
use sd_platform.World.{World, outside, world_of}
use sd_platform.Submission.{
  Call, SubmissionGateway, submit, resume, proceed, checked, progress_write, update_task, confirmed,
  facts, stored, done, writes, unless, validate_command, already_updated, rejecting,
}
use sd_platform.Submission.Steps.{files_ok}

module _ {W : Type 0} where
  -- An action that leaves the commands whole, whether it raises or not.
  abbrev Keeps : {A : Type 0} → Exec (World W) A → Type 0
  Keeps m = (s : World W) → AllWhole s.db → AllWhole (m s).1.db

  Keeps-after :
      {A B : Type 0} (f : A → Exec (World W) B)
      → ((a : A) → Keeps (f a))
      → (r : Result A × World W) → AllWhole r.1.db
      → AllWhole (continue f r).1.db
  Keeps-after f h (ok a, s) whole = h a s whole
  Keeps-after f h (err e, s) whole = whole

  Keeps-then :
      {A B : Type 0} (m : Exec (World W) A) (f : A → Exec (World W) B)
      → Keeps m
      → ((a : A) → Keeps (f a))
      → Keeps (m >>= f)
  Keeps-then m f h k s whole = Keeps-after f k (m s) (h s whole)

  Keeps-outside : {A : Type 0} (m : Exec W A) → Keeps (outside m)
  Keeps-outside {A = A} m s whole = go (m s.outside)
    where
      go : (r : Result A × W) → AllWhole (world_of s.db r).1.db
      go (ok a, w) = whole
      go (err e, w) = whole

  Keeps-stored :
      (t : Db → Result (SubmissionCommand × Db))
      → ((db db' : Db) (c : SubmissionCommand) → AllWhole db → t db ≡ ok (c, db') → AllWhole db')
      → Keeps (λ s. stored s (t s.db))
  Keeps-stored t h s whole = go (t s.db) refl
    where
      go : (r : Result (SubmissionCommand × Db)) → t s.db ≡ r → AllWhole (stored s r).1.db
      go (ok (c, db)) e = h s.db db c whole e
      go (err x) e = whole

  Keeps-done :
      (t : Db → Result (Unit {0} × Db))
      → ((db db' : Db) → AllWhole db → t db ≡ ok (tt, db') → AllWhole db')
      → Keeps (λ s. done s (t s.db))
  Keeps-done t h s whole = go (t s.db) refl
    where
      go : (r : Result (Unit {0} × Db)) → t s.db ≡ r → AllWhole (done s r).1.db
      go (ok (u, db)) e = h s.db db whole e
      go (err x) e = whole

  Keeps-unless : (b : Bool) (m : Exec (World W) (Unit {0})) → Keeps m → Keeps (unless b m)
  Keeps-unless true m h s whole = whole
  Keeps-unless false m h s whole = h s whole

  Keeps-if :
      {A : Type 0} (b : Bool) (m k : Exec (World W) A)
      → Keeps m
      → Keeps k
      → Keeps (if b then m else k)
  Keeps-if true m k h h' = h
  Keeps-if false m k h h' = h'

module _ {W : Type 0} (gateway : SubmissionGateway W) (call : Call) (command : SubmissionCommand)
    (request : SubmissionInput) (now : Instant) where
  Keeps-rejecting : (r : Result TaskSnapshot) → Keeps (rejecting gateway command now r)
  Keeps-rejecting (ok task) s whole = whole
  Keeps-rejecting (err (app_error class_name code status retryable)) s whole =
      reject-AllWhole command.command_id code now s.db whole
  Keeps-rejecting (err (value_error m)) s whole = whole
  Keeps-rejecting (err (runtime_error m)) s whole = whole
  Keeps-rejecting (err (other m)) s whole = whole

  Keeps-checked :
      (found : Option TaskSnapshot) → Keeps (checked gateway command request call.user now found)
  unfolding checked
  Keeps-checked found s whole =
      Keeps-rejecting
        (validate_request request call.user found (files_ok request call.user found s.db)) s whole

  Keeps-progress_write : Keeps (progress_write gateway command request call.user now)
  unfolding progress_write
  Keeps-progress_write =
      Keeps-then (outside (gateway.find_progress_by_command command.command_id)) _
        (Keeps-outside (gateway.find_progress_by_command command.command_id))
        (λ found s whole. elim (Option-cases found) [
          | inl absent ↦ rw absent (
              Keeps-outside
                (gateway.append_progress command.command_id request call.user.person_id now) s
                whole)
          | inr (write, present) ↦ rw present whole
        ])

  Keeps-confirmed : (task updated : TaskSnapshot) → Keeps (confirmed gateway request task updated)
  unfolding confirmed
  Keeps-confirmed task updated = Keeps-if _ _ _ (λ s whole. whole) (λ s whole. whole)

  Keeps-update_task : (task : TaskSnapshot) → Keeps (update_task gateway call.key request task)
  unfolding update_task
  Keeps-update_task task = Keeps-unless (already_updated request task) _ (
      Keeps-then
        (outside (gateway.update_task_progress task request.progress (task.revision + 1) call.key))
        _
        (Keeps-outside
          (gateway.update_task_progress task request.progress (task.revision + 1) call.key))
        (Keeps-confirmed task))

  Keeps-complete :
      (result : SubmissionResult)
      → Keeps {W = W} (λ s. done s (
          complete call.event_id call.outbox_id command.command_id result
            (facts call request)
            now
            s.db))
  Keeps-complete result =
      Keeps-done
        (complete call.event_id call.outbox_id command.command_id result (facts call request) now)
        (complete-AllWhole call.event_id call.outbox_id command.command_id result
          (facts call request) now)

  Keeps-mark :
      (record_id : String)
      → Keeps {W = W} (
          unless
            (not (is_pending command.state))
            (writes (mark_teable_written command.command_id record_id now)))
  Keeps-mark record_id =
      Keeps-unless (not (is_pending command.state))
        (writes (mark_teable_written command.command_id record_id now))
        (λ s whole. mark-AllWhole command.command_id record_id now s.db whole)

  Keeps-proceed : Keeps (proceed gateway call command request now)
  unfolding proceed
  Keeps-proceed =
      Keeps-then (outside (gateway.get_task request.task_id)) _
        (Keeps-outside (gateway.get_task request.task_id))
        λ found.
          Keeps-then (checked gateway command request call.user now found) _ (Keeps-checked found)
            λ task.
              Keeps-then (progress_write gateway command request call.user now) _
                Keeps-progress_write
                λ write.
                  Keeps-then
                    (unless (not (is_pending command.state))
                      (writes (mark_teable_written command.command_id write.record_id now)))
                    _ (Keeps-mark write.record_id)
                    λ u.
                      Keeps-then (update_task gateway call.key request task) _
                        (Keeps-update_task task)
                        λ v.
                          Keeps-then _ _
                            (Keeps-complete (record {
                              submission_id = command.command_id;
                              log_id = write.log_id;
                            }))
                            λ w s whole. whole

  Keeps-resume : Keeps (resume gateway call command request now)
  unfolding resume
  Keeps-resume s whole =
      elim (Bool-cases (is_committed command.state && not (is_none command.result))) [
        | inl old ↦ rw old whole
        | inr fresh ↦ elim (Bool-cases (is_rejected command.state)) [
          | inl gone ↦ rw fresh (rw gone whole)
          | inr alive ↦ rw fresh (rw alive (Keeps-proceed s whole))
        ]
      ]

-- Every submission, whether it succeeds or raises at any step, leaves tables in which each committed
-- command has a result, if it found such tables.
pub submit-AllWhole :
    {W : Type 0} (gateway : SubmissionGateway W) (payload_hash : SubmissionInput → String)
    (call : Call) (request : SubmissionInput) (s : World W)
    → AllWhole s.db
    → AllWhole (submit gateway payload_hash call request s).1.db
unfolding submit
submit-AllWhole gateway payload_hash call request =
    let normal = normalized request in
    Keeps-then (lift (require_utc call.now)) _ (λ s whole. whole)
      λ now.
        Keeps-then
          (λ s. stored s (
            reserve call.command_id call.key call.user.person_id normal.task_id
              (payload_hash normal) now s.db))
          _
          (Keeps-stored
            (reserve call.command_id call.key call.user.person_id normal.task_id
              (payload_hash normal) now)
            (reserve-AllWhole call.command_id call.key call.user.person_id normal.task_id
              (payload_hash normal) now))
          λ command.
            Keeps-then
              (lift (validate_command command call.user.person_id normal (payload_hash normal))) _
              (λ s whole. whole) λ u. Keeps-resume gateway call command normal now
