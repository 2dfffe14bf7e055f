-- ===== src/Submission/Commit.antt =====
-- What a submission that succeeds has done (`SubmissionService.submit`).
use sd_platform.Common.{
  ◌≡◌, sym, ap, ◌∙◌, not, Result, ok, Instant, Option, Bool-cases, inl, inr, String,
}
use sd_platform.Common.Actions.{Exec, pure, ◌>>◌, bind_ok}
use sd_platform.Db.{Db, SubmissionCommand, SubmissionResult, is_pending}
use sd_platform.Report.{SubmissionInput, TaskSnapshot, ProgressWrite, validate_request}
use sd_platform.SubmissionStore.{mark_teable_written, complete}
use sd_platform.SubmissionStore.Commands.{marked}
use sd_platform.World.{World, outside, outside_ok}
use sd_platform.Submission.{
  Call, SubmissionGateway, facts, proceed, checked, progress_write, update_task, done, writes,
  unless,
}
use sd_platform.Submission.Steps.{
  files_ok, checked_ok, outside_db, done_ok, progress_write_db, update_task_db,
}

module _ {W : Type 0} (gateway : SubmissionGateway W) (call : Call) (command : SubmissionCommand)
    (request : SubmissionInput) (now : Instant) where
  marked_step :
      (record_id : String) (s t : World W) (u : Unit {0})
      → unless
          (not (is_pending command.state))
          (writes (mark_teable_written command.command_id record_id now))
          s
        ≡ (ok u, t)
      → t.db ≡ marked command record_id now s.db
  marked_step record_id s t u e = elim (Bool-cases (is_pending command.state)) [
    | inl fresh ↦ rw fresh (sym (ap (λ p. p.1.db) (rw fresh at e)))
    | inr old ↦ rw old (sym (ap (λ p. p.1.db) (rw old at e)))
  ]

  abbrev commit_step : SubmissionResult → Exec (World W) (Unit {0})
  commit_step result s = done s (
      complete call.event_id call.outbox_id command.command_id result (facts call request) now s.db)

  abbrev pub result_of : ProgressWrite → SubmissionResult
  result_of write = record { submission_id = command.command_id; log_id = write.log_id }

  abbrev pub completion : String → SubmissionResult → Db → Result (Unit {0} × Db)
  completion record_id result db =
      complete call.event_id call.outbox_id command.command_id result (facts call request) now
        (marked command record_id now db)

  -- The task that the gateway gave allows the report, and the command was completed for the record of it.
  pub record IsCarried (s s' : World W) (r : SubmissionResult) : Type 0 where
    pub found : Option TaskSnapshot
    pub task : TaskSnapshot
    pub outside_then : W
    pub looked : gateway.get_task request.task_id s.outside ≡ (ok found, outside_then)
    pub valid :
        validate_request request call.user found (files_ok request call.user found s.db) ≡ ok task
    pub write : ProgressWrite
    pub same : r ≡ result_of write
    pub settled : completion write.record_id r s.db ≡ ok (tt, s'.db)

  commit_step_ok :
      (result r : SubmissionResult) (s s' : World W)
      → (commit_step result >> pure result) s ≡ (ok r, s')
      → (r ≡ result)
        × (complete call.event_id call.outbox_id command.command_id result
              (facts call request)
              now
              s.db
            ≡ ok (tt, s'.db))
  commit_step_ok result r s s' e =
      let (u, t, e1, e2) = bind_ok (commit_step result) _ s r s' e in
      (
        cc,
        done_ok s
              (complete call.event_id call.outbox_id command.command_id result (facts call request)
                now s.db)
              u t e1
            ∙ ap (λ (p : Result SubmissionResult × World W). ok (tt, p.1.db)) e2,
      )

  pub proceed_ok :
      (r : SubmissionResult) (s s' : World W)
      → proceed gateway call command request now s ≡ (ok r, s')
      → IsCarried s s' r
  unfolding proceed
  proceed_ok r s s' e =
      let (found, s1, e1, r1) = bind_ok (outside (gateway.get_task request.task_id)) _ s r s' e in
      let (task, s2, e2, r2) =
        bind_ok (checked gateway command request call.user now found) _ s1 r s' r1 in
      let (write, s3, e3, r3) =
        bind_ok (progress_write gateway command request call.user now) _ s2 r s' r2 in
      let (u, s4, e4, r4) =
        bind_ok
          (unless (not (is_pending command.state))
            (writes (mark_teable_written command.command_id write.record_id now)))
          _ s3 r s' r3 in
      let (u', s5, e5, r5) = bind_ok (update_task gateway call.key request task) _ s4 r s' r4 in
      let (valid, kept) = checked_ok gateway command request call.user now found s1 task s2 e2 in
      let (same, settled) = commit_step_ok (result_of write) r s5 s' r5 in
      let d1 : s1.db ≡ s.db = outside_db (gateway.get_task request.task_id) s found s1 e1 in
      let d3 : s3.db ≡ s.db =
        progress_write_db gateway command request call.user now s2 write s3 e3
        ∙ ap (λ (w : World W). w.db) kept
        ∙ d1 in
      let d5 : s5.db ≡ marked command write.record_id now s.db =
        update_task_db gateway command request call.user now call.key task s4 u' s5 e5
        ∙ marked_step write.record_id s3 s4 u e4
        ∙ ap (marked command write.record_id now) d3 in
      record {
        found = found;
        task = task;
        outside_then = s1.outside;
        looked = (outside_ok (gateway.get_task request.task_id) s found s1 e1).0;
        valid =
            ap (λ d. validate_request request call.user found (files_ok request call.user found d))
              (sym d1)
            ∙ valid;
        write = write;
        same = same;
        settled =
            ap
              (λ d.
                complete call.event_id call.outbox_id command.command_id r (facts call request) now
                  d)
              (sym d5)
            ∙ ap
                (λ x.
                  complete call.event_id call.outbox_id command.command_id x (facts call request)
                    now s5.db)
                same
            ∙ settled;
      }
