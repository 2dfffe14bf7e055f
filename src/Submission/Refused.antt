-- ===== src/Submission/Refused.antt =====
-- Reports that are refused (`SubmissionService.submit`).
use sd_platform.Common.{
  ◌≡◌, refl, sym, ap, ◌∙◌, ok, err, none, some, Bool, Option, String, Instant, require_utc, ℕ,
  app_error, arith, eq_iff,
}
use sd_platform.Db.{SubmissionCommand, CommandState}
use sd_platform.Report.{
  SubmissionInput, normalized, TaskSnapshot, submission_error, validate_request,
}
use sd_platform.SubmissionStore.{command_of, reject}
use sd_platform.SubmissionStore.Reserve.{reserve_again, new_found}
use sd_platform.SubmissionStore.Commands.{rejected-command}
use sd_platform.World.{World}
use sd_platform.Submission.{Call, SubmissionGateway, submit, resume, proceed, validate_command}
use sd_platform.Submission.Steps.{files_ok, command_valid, checked_refused}
use sd_platform.Submission.Effects.{command, reserved, submit_new, files_ok-reserved}

conflicting :
    (c : SubmissionCommand) (person_id : ℕ) (request : SubmissionInput) (h : String)
    → ¬ ((c.payload_hash ≡ h) × (c.person_id ≡ person_id) × (c.task_id ≡ request.task_id))
    → validate_command c person_id request h ≡ err (submission_error "IDEMPOTENCY_CONFLICT" 409)
unfolding validate_command
conflicting c person_id request h differs = ground (arith, eq_iff c.payload_hash h)

module _ {W : Type 0} (gateway : SubmissionGateway W) (payload_hash : SubmissionInput → String)
    (call : Call) (request : SubmissionInput) (now : Instant) (s : World W) where
  -- A key that was used for another report, or by another person, is refused, and nothing is
  -- written.
  pub submit_conflict :
      (c : SubmissionCommand)
      → require_utc call.now ≡ ok now
      → command_of call.key s.db.submission_command ≡ some c
      → ¬ (
          (c.payload_hash ≡ payload_hash (normalized request))
          × (c.person_id ≡ call.user.person_id)
          × (c.task_id ≡ (normalized request).task_id))
      → submit gateway payload_hash call request s
        ≡ (err (submission_error "IDEMPOTENCY_CONFLICT" 409), s)
  unfolding submit
  submit_conflict c utc found differs =
      let normal = normalized request in
      let h = payload_hash normal in
      rw utc (
        rw
          (reserve_again call.command_id call.key call.user.person_id normal.task_id h now s.db c
            found)
          (rw (conflicting c call.user.person_id normal h differs)))

  -- The key of a rejected command raises the code of its rejection.
  rejected_answer :
      (c : SubmissionCommand) (code : String)
      → require_utc call.now ≡ ok now
      → command_of call.key s.db.submission_command ≡ some c
      → c.payload_hash ≡ payload_hash (normalized request)
      → c.person_id ≡ call.user.person_id
      → c.task_id ≡ (normalized request).task_id
      → c.state ≡ CommandState.rejected
      → c.last_error_code ≡ some code
      → submit gateway payload_hash call request s ≡ (err (submission_error code 409), s)
  unfolding submit resume
  rejected_answer c code utc found same_hash person task state last =
      let normal = normalized request in
      let h = payload_hash normal in
      rw utc (
        rw
          (reserve_again call.command_id call.key call.user.person_id normal.task_id h now s.db c
            found)
          (rw (command_valid c call.user.person_id normal h same_hash person task)
            (rw state (rw last))))

module _ {W : Type 0} (gateway : SubmissionGateway W) (payload_hash : SubmissionInput → String)
    (call : Call) (request : SubmissionInput) (now : Instant) (s : World W) where
  abbrev first_try : SubmissionCommand
  first_try = command gateway payload_hash call request now s

  abbrev held : World W
  held = reserved gateway payload_hash call request now s

  -- The world after a rejection with that code.
  abbrev pub refusal_of : String → W → World W
  refusal_of code w = record { db = reject call.command_id code now held.db; outside = w }

  module _ (found : Option TaskSnapshot) (w : W) (class_name code : String) (status : ℕ)
      (retryable : Bool) where
    submit_refuses :
        command_of call.key s.db.submission_command ≡ none
        → require_utc call.now ≡ ok now
        → gateway.get_task (normalized request).task_id s.outside ≡ (ok found, w)
        → validate_request
            (normalized request)
            call.user
            found
            (files_ok (normalized request) call.user found s.db)
          ≡ err (app_error class_name code status retryable)
        → submit gateway payload_hash call request s
          ≡ (err (app_error class_name code status retryable), refusal_of code w)
    unfolding proceed
    submit_refuses absent utc asked invalid =
        submit_new gateway payload_hash call request now s absent utc
        ∙ rw asked (
            rw (
              checked_refused gateway first_try (normalized request) call.user now found
                (record { db = held.db; outside = w }) class_name code status retryable
                (ap (validate_request (normalized request) call.user found)
                    (files_ok-reserved gateway payload_hash call request now s found)
                  ∙ invalid)))

    -- A new report that its task does not allow is refused with the reason, and its key is used up:
    -- whatever becomes of the task, the report that is sent again with the key by the person raises
    -- the same code, as a conflict, and writes nothing.
    pub submit_refused :
        (call' : Call) (now' : Instant)
        → command_of call.key s.db.submission_command ≡ none
        → require_utc call.now ≡ ok now
        → gateway.get_task (normalized request).task_id s.outside ≡ (ok found, w)
        → validate_request
            (normalized request)
            call.user
            found
            (files_ok (normalized request) call.user found s.db)
          ≡ err (app_error class_name code status retryable)
        → call'.key ≡ call.key
        → call'.user.person_id ≡ call.user.person_id
        → require_utc call'.now ≡ ok now'
        → (submit gateway payload_hash call request s
            ≡ (err (app_error class_name code status retryable), refusal_of code w))
          × ((v : W)
              → submit gateway payload_hash call' request (refusal_of code v)
                ≡ (err (submission_error code 409), refusal_of code v))
    submit_refused call' now' absent utc asked invalid key person utc' = (
      submit_refuses absent utc asked invalid,
      λ v.
          let (row, stored, same, state, last) =
            rejected-command call.key first_try now code held.db
              (new_found call.command_id call.key call.user.person_id (normalized request).task_id
                (payload_hash (normalized request)) now s.db absent)
              refl in
          rejected_answer gateway payload_hash call' request now' (refusal_of code v) row code utc'
            (ap (λ k. command_of k (refusal_of code v).db.submission_command) key ∙ stored)
            same.hash (same.person ∙ sym person) same.task state last,
    )
