-- ===== src/Submission/Steps.antt =====
-- What each step of `SubmissionService.submit` leaves behind when it raises nothing.
use sd_platform.Common.{
  ◌≡◌, sym, ◌∙◌, ◌+◌, Option-cases, Bool-cases, inl, inr, ap, Bool, arith, Option, none, some,
  Result, ok, err, Instant, ℕ, String, eq_iff, app_error,
}
use sd_platform.Common.Actions.{Exec, bind_ok}
use sd_platform.Db.{Uuid, Db, SubmissionCommand}
use sd_platform.Report.{SubmissionInput, TaskSnapshot, ProgressWrite, User, validate_request}
use sd_platform.SubmissionStore.{files_are_clean, reject}
use sd_platform.World.{World, outside, outside_ok}
use sd_platform.Submission.{
  SubmissionGateway, done, checked, progress_write, update_task, confirmed, already_updated, stored,
  validate_command,
}

-- The key's command is for this report of this person.
pub valid_command :
    (c : SubmissionCommand) (person_id : ℕ) (request : SubmissionInput) (hash : String)
    → validate_command c person_id request hash ≡ ok tt
    → (c.payload_hash ≡ hash) × (c.person_id ≡ person_id) × (c.task_id ≡ request.task_id)
unfolding validate_command
valid_command c person_id request hash e =
    (ground (arith, eq_iff c.payload_hash hash), ground arith, ground arith)

pub command_valid :
    (c : SubmissionCommand) (person_id : ℕ) (request : SubmissionInput) (hash : String)
    → c.payload_hash ≡ hash
    → c.person_id ≡ person_id
    → c.task_id ≡ request.task_id
    → validate_command c person_id request hash ≡ ok tt
unfolding validate_command
command_valid c person_id request hash a b d = ground (arith, eq_iff c.payload_hash hash)

-- What the gateway says of the report's files.
abbrev pub files_ok : SubmissionInput → User → Option TaskSnapshot → Db → Bool
files_ok r user found db =
    files_are_clean r.file_ids (elim found [ none ↦ r.task_id | some t ↦ t.task_id ]) user.person_id
      db

module _ {W : Type 0} where
  -- A call of the gateway leaves the tables alone.
  pub outside_db :
      {A : Type 0} (m : Exec W A) (s : World W) (a : A) (t : World W)
      → outside m s ≡ (ok a, t)
      → t.db ≡ s.db
  outside_db m s a t e = (outside_ok m s a t e).1

  pub stored_ok :
      (s : World W) (r : Result (SubmissionCommand × Db)) (c : SubmissionCommand) (t : World W)
      → stored s r ≡ (ok c, t)
      → r ≡ ok (c, t.db)
  stored_ok s (ok (a, db)) c t e = cc
  stored_ok s (err x) c t e = cc

  pub done_ok :
      (s : World W) (r : Result (Unit {0} × Db)) (u : Unit {0}) (t : World W)
      → done s r ≡ (ok u, t)
      → r ≡ ok (tt, t.db)
  done_ok s (ok (a, db)) u t e = cc
  done_ok s (err x) u t e = cc

module _ {W : Type 0} (gateway : SubmissionGateway W) (command : SubmissionCommand)
    (request : SubmissionInput) (user : User) (now : Instant) where
  pub checked_ok :
      (found : Option TaskSnapshot) (s : World W) (task : TaskSnapshot) (t : World W)
      → checked gateway command request user now found s ≡ (ok task, t)
      → (validate_request request user found (files_ok request user found s.db) ≡ ok task) × (t ≡ s)
  unfolding checked
  checked_ok found s task t e = ground arith

  pub checked_refused :
      (found : Option TaskSnapshot) (s : World W) (class_name code : String) (status : ℕ)
      (retryable : Bool)
      → validate_request request user found (files_ok request user found s.db)
        ≡ err (app_error class_name code status retryable)
      → checked gateway command request user now found s ≡ (
        err (app_error class_name code status retryable),
        record s { db = reject command.command_id code now s.db },
      )
  unfolding checked
  checked_refused found s class_name code status retryable e = ground arith

  pub progress_write_db :
      (s : World W) (write : ProgressWrite) (t : World W)
      → progress_write gateway command request user now s ≡ (ok write, t)
      → t.db ≡ s.db
  unfolding progress_write
  progress_write_db s write t e =
      let (found, s1, e1, e2) =
        bind_ok (outside (gateway.find_progress_by_command command.command_id)) _ s write t e in
      let same = outside_db (gateway.find_progress_by_command command.command_id) s found s1 e1 in
      elim (Option-cases found) [
        | inl absent ↦
            outside_db (gateway.append_progress command.command_id request user.person_id now) s1
              write t (rw absent at e2)
            ∙ same
        | inr (w, present) ↦ ap (λ p. p.1.db) (sym (rw present at e2)) ∙ same
      ]

  confirmed_state :
      (task updated : TaskSnapshot) (s : World W) (u : Unit {0}) (t : World W)
      → confirmed gateway request task updated s ≡ (ok u, t)
      → t ≡ s
  unfolding confirmed
  confirmed_state task updated s u t e = ground arith

  pub update_task_db :
      (key : Uuid) (task : TaskSnapshot) (s : World W) (u : Unit {0}) (t : World W)
      → update_task gateway key request task s ≡ (ok u, t)
      → t.db ≡ s.db
  unfolding update_task
  update_task_db key task s u t e = elim (Bool-cases (already_updated request task)) [
    | inl same ↦ ap (λ p. p.1.db) (sym (rw same at e))
    | inr fresh ↦
        let (updated, s1, e1, e2) =
          bind_ok
            (outside (gateway.update_task_progress task request.progress (task.revision + 1) key)) _
            s u t (rw fresh at e) in
        ap (λ (w : World W). w.db) (confirmed_state task updated s1 u t e2)
        ∙ outside_db (gateway.update_task_progress task request.progress (task.revision + 1) key) s
            updated s1 e1
  ]
