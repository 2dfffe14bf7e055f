-- ===== src/SubmissionStore/Completion.antt =====
-- What `SqlSubmissionPersistence.complete` writes.
use sd_platform.Common.{
  ◌≡◌, true, false, arith, [], ◌∷◌, ◌++◌, ok, Instant, exists_where, update_where, ◌||◌,
}
use sd_platform.Db.{Uuid, Db, DedupKey, same_key, SubmissionResult}
use sd_platform.Report.{is_nil}
use sd_platform.SubmissionStore.{
  AuditFacts, complete, files_are_clean, is_bindable, is_open, bound, committed, report_event,
  completion_message,
}

-- The tables after a completed submission: its files are bound to the task, its command is
-- committed with the result, and there is one audit event and one message for the OA more.
pub record IsCompleted (event_id outbox_id command_id : Uuid) (result : SubmissionResult)
    (audit : AuditFacts) (now : Instant) (db db' : Db) : Type 0 where
  pub bindable :
      (is_nil audit.file_ids || files_are_clean audit.file_ids audit.task_id audit.person_id db)
      ≡ true
  pub first_time :
      exists_where (λ m. same_key m.dedup_key (DedupKey.submission command_id)) db.outbox_message
      ≡ false
  pub files :
      db'.file_object
      ≡ update_where
          (is_bindable audit.person_id audit.task_id audit.file_ids)
          (bound audit.task_id now)
          db.file_object
  pub commands :
      db'.submission_command
      ≡ update_where (is_open command_id) (committed result now) db.submission_command
  pub audits :
      db'.audit_event ≡ db.audit_event ++ report_event event_id command_id result audit now ∷ []
  pub messages :
      db'.outbox_message
      ≡ db.outbox_message ++ completion_message outbox_id command_id result audit now ∷ []

pub complete-inverse :
    (event_id outbox_id command_id : Uuid) (result : SubmissionResult) (audit : AuditFacts)
    (now : Instant) (db db' : Db) (u : Unit {0})
    → complete event_id outbox_id command_id result audit now db ≡ ok (u, db')
    → IsCompleted event_id outbox_id command_id result audit now db db'
unfolding complete
complete-inverse event_id outbox_id command_id result audit now db db' u e = record {
  bindable = ground arith;
  first_time = ground arith;
  files = ground arith;
  commands = ground arith;
  audits = ground arith;
  messages = ground arith;
}
