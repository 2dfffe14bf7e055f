-- ===== src/Submission/Effects.antt =====
-- What a report that is submitted under a new key does to the tables (`SubmissionService.submit`).
use sd_platform.Common.{
  ◌≡◌, refl, sym, ap, subst, ◌∙◌, ok, none, some, [], ◌∷◌, ◌++◌, Option, String, Instant,
  update_where, require_utc,
}
use sd_platform.Db.{Db, SubmissionCommand, SubmissionResult}
use sd_platform.Report.{SubmissionInput, normalized, TaskSnapshot}
use sd_platform.Report.Rules.{IsReportable, validate_ok}
use sd_platform.SubmissionStore.{command_of, is_bindable, bound, report_event, completion_message}
use sd_platform.SubmissionStore.Reserve.{reserve_new, new_one, with_new, files_are_clean-new}
use sd_platform.SubmissionStore.Commands.{marked, marked-tables}
use sd_platform.SubmissionStore.Completion.{complete-inverse}
use sd_platform.World.{World}
use sd_platform.Submission.{Call, SubmissionGateway, facts, submit, resume, proceed}
use sd_platform.Submission.Steps.{files_ok, command_valid}
use sd_platform.Submission.Commit.{IsCarried, proceed_ok}

-- The task that the gateway gave allowed the report, and in the tables its files are bound to the task, there is one
-- audit event more, and one message more that tells the OA.
pub record IsSubmitted {W : Type 0} (gateway : SubmissionGateway W) (call : Call)
    (request : SubmissionInput) (now : Instant) (w : W) (db db' : Db) (r : SubmissionResult)
    : Type 0 where
  pub found : Option TaskSnapshot
  pub task : TaskSnapshot
  pub w' : W
  pub looked : gateway.get_task request.task_id w ≡ (ok found, w')
  pub allowed : IsReportable request call.user found (files_ok request call.user found db) task
  pub id : r.submission_id ≡ call.command_id
  pub files :
      db'.file_object
      ≡ update_where
          (is_bindable call.user.person_id request.task_id request.file_ids)
          (bound request.task_id now)
          db.file_object
  pub audits :
      db'.audit_event
      ≡ db.audit_event ++ report_event call.event_id call.command_id r (facts call request) now ∷ []
  pub messages :
      db'.outbox_message
      ≡ db.outbox_message
        ++ completion_message call.outbox_id call.command_id r (facts call request) now ∷ []

module _ {W : Type 0} (gateway : SubmissionGateway W) (payload_hash : SubmissionInput → String)
    (call : Call) (request : SubmissionInput) (now : Instant) (s : World W) where
  abbrev pub normal : SubmissionInput
  normal = normalized request

  abbrev pub hash : String
  hash = payload_hash normal

  abbrev pub command : SubmissionCommand
  command = new_one call.command_id call.key call.user.person_id normal.task_id hash now s.db

  abbrev pub reserved : World W
  reserved = record s {
    db = with_new call.command_id call.key call.user.person_id normal.task_id hash now s.db;
  }

  pub submit_new :
      command_of call.key s.db.submission_command ≡ none
      → require_utc call.now ≡ ok now
      → submit gateway payload_hash call request s
        ≡ proceed gateway call command normal now reserved
  unfolding submit resume
  submit_new absent utc = rw utc (
      rw
        (reserve_new call.command_id call.key call.user.person_id normal.task_id hash now s.db
          absent)
        (rw (command_valid command call.user.person_id normal hash refl refl refl)))

  pub files_ok-reserved :
      (found : Option TaskSnapshot)
      → files_ok normal call.user found reserved.db ≡ files_ok normal call.user found s.db
  files_ok-reserved found =
      files_are_clean-new call.command_id call.key call.user.person_id normal.task_id hash now s.db
        normal.file_ids (elim found [ none ↦ normal.task_id | some t ↦ t.task_id ])
        call.user.person_id

  carried_effects :
      (r : SubmissionResult) (s' : World W)
      → IsCarried gateway call command normal now reserved s' r
      → IsSubmitted gateway call normal now s.outside s.db s'.db r
  carried_effects r s' h =
      let done =
        complete-inverse call.event_id call.outbox_id call.command_id r (facts call normal) now
          (marked command h.write.record_id now reserved.db) s'.db tt h.settled in
      let (files, audits, messages) =
        marked-tables call.key command now h.write.record_id reserved.db in
      let allowed =
        validate_ok normal call.user h.task h.found (files_ok normal call.user h.found reserved.db)
          h.valid in
      record {
        found = h.found;
        task = h.task;
        w' = h.outside_then;
        looked = h.looked;
        allowed =
            subst (λ c. IsReportable normal call.user h.found c h.task) (files_ok-reserved h.found)
              allowed;
        id = ap (λ (x : SubmissionResult). x.submission_id) h.same;
        files =
            done.files
            ∙ ap
                (update_where (is_bindable call.user.person_id normal.task_id normal.file_ids)
                  (bound normal.task_id now))
                files;
        audits =
            done.audits
            ∙ ap
                (λ rows.
                  rows ++ report_event call.event_id call.command_id r (facts call normal) now ∷ [])
                audits;
        messages =
            done.messages
            ∙ ap
                (λ rows.
                  rows
                  ++ completion_message call.outbox_id call.command_id r (facts call normal) now
                    ∷ [])
                messages;
      }

  -- A report that is submitted under a new key was allowed by the state of its task that the task
  -- table gave when the call began, and its result names the call's command. The report's files are bound to the task, and exactly one audit event
  -- and one pending message to the OA are added, all in the form that `complete` writes.
  pub submit_effects :
      (r : SubmissionResult) (s' : World W)
      → command_of call.key s.db.submission_command ≡ none
      → require_utc call.now ≡ ok now
      → submit gateway payload_hash call request s ≡ (ok r, s')
      → IsSubmitted gateway call (normalized request) now s.outside s.db s'.db r
  submit_effects r s' absent utc e =
      carried_effects r s'
        (proceed_ok gateway call command normal now r reserved s' (sym (submit_new absent utc) ∙ e))
