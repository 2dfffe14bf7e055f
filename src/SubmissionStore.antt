-- ===== src/SubmissionStore.antt =====
-- Submission commands and the files they bind, in PostgreSQL
-- (sd-agent/sd_agent/persistence/submissions.py, and `files_are_clean` of
-- sd-agent/sd_agent/adapters/submission.py). Each function is one transaction over the tables; the
-- UUIDs that the code draws are arguments.
pub mod Reserve
pub mod Commands
pub mod Completion
pub mod Whole
use sd_platform.Common.{
  or_none, join_commas, ℕ, String, Bool, true, not, ◌&&◌, ◌||◌, List, [], ◌∷◌, ◌++◌, Option, none,
  some, ◌==◌, str_eq, if◌then◌else◌, is_none, other, runtime_error, Result, ok, or_raise, ◌>>=◌,
  ◌>>◌, Instant, first_where, update_where, exists_where, mem_text,
}
use sd_platform.Common.{require as check}
use sd_platform.Db.{
  Uuid, Scalar, DedupKey, same_key, is_value, Db, SubmissionCommand, SubmissionResult, CommandState,
  is_pending, is_committed, FileObject, is_clean, OutboxMessage, MessageState, AuditEvent, Who,
}
use sd_platform.Report.{is_nil}

pub record AuditFacts : Type 0 where
  pub request_id : String
  pub person_id : ℕ
  pub roles : List String
  pub task_id : ℕ
  pub file_ids : List String
  pub ip : Option String
  pub user_agent : Option String

abbrev pub with_key : Uuid → SubmissionCommand → Bool
with_key key c = c.idempotency_key == key

abbrev pub command_of : Uuid → List SubmissionCommand → Option SubmissionCommand
command_of key = first_where (with_key key)

abbrev pub new_command :
    Uuid → Uuid → (person_id task_id : ℕ) → String → Instant → SubmissionCommand
new_command command_id key person_id task_id payload_hash now = record {
  command_id = command_id;
  idempotency_key = key;
  person_id = person_id;
  task_id = task_id;
  payload_hash = payload_hash;
  state = CommandState.pending;
  teable_record_id = none;
  result = none;
  last_error_code = none;
  created_at = now;
  updated_at = now;
}

-- insert … on conflict (idempotency_key) do nothing
unfoldable pub insert_command : SubmissionCommand → List SubmissionCommand → List SubmissionCommand
insert_command c rows =
    if exists_where (with_key c.idempotency_key) rows then rows else rows ++ c ∷ []

-- `SqlSubmissionPersistence.reserve`
unfoldable pub reserve :
    (command_id key : Uuid) (person_id task_id : ℕ) (payload_hash : String)
    → Instant
    → Db
    → Result (SubmissionCommand × Db)
unfolding insert_command
reserve command_id key person_id task_id payload_hash now db =
    let rows =
      insert_command (new_command command_id key person_id task_id payload_hash now)
        db.submission_command in
    (or_raise (command_of key rows) (runtime_error "submission command reservation failed")
      >>= λ row. ok (row, record db { submission_command = rows }))

unfoldable pub written : String → Instant → SubmissionCommand → SubmissionCommand
written record_id now c = record c {
  state = CommandState.teable_written;
  teable_record_id = some record_id;
  updated_at = now;
}

-- `SqlSubmissionPersistence.mark_teable_written`
unfoldable pub mark_teable_written : Uuid → String → Instant → Db → Db
unfolding written
mark_teable_written command_id record_id now db = record db {
  submission_command =
      update_where (λ c. c.command_id == command_id && is_pending c.state) (written record_id now)
        db.submission_command;
}

abbrev pub is_open : Uuid → SubmissionCommand → Bool
is_open command_id c = c.command_id == command_id && not (is_committed c.state)

unfoldable pub turned_down : String → Instant → SubmissionCommand → SubmissionCommand
turned_down code now c = record c {
  state = CommandState.rejected;
  last_error_code = some code;
  updated_at = now;
}

-- `SqlSubmissionPersistence.reject`
unfoldable pub reject : Uuid → String → Instant → Db → Db
unfolding turned_down
reject command_id code now db = record db {
  submission_command =
      update_where (is_open command_id) (turned_down code now) db.submission_command;
}

-- The files that a report may bind: clean, the person's own, and free or bound to the task.
abbrev pub is_bindable : (person_id task_id : ℕ) → List String → FileObject → Bool
is_bindable person_id task_id file_ids f =
    mem_text f.file_id file_ids
    && (f.owner_person_id == person_id
        && (is_clean f.state && (is_none f.task_id || is_value f.task_id task_id)))

-- set(rows) == set(file_ids), where the rows are those of `is_bindable`
unfoldable pub all_found : (FileObject → Bool) → List String → List FileObject → Bool
all_found test [] files = true
all_found test (id ∷ ids) files =
    exists_where (λ f. str_eq f.file_id id && test f) files && all_found test ids files

-- `TeableSubmissionGateway.files_are_clean`
unfoldable pub files_are_clean : List String → (task_id person_id : ℕ) → Db → Bool
unfolding all_found
files_are_clean file_ids task_id person_id db =
    all_found (is_bindable person_id task_id file_ids) file_ids db.file_object

unfoldable pub bound : ℕ → Instant → FileObject → FileObject
bound task_id now f = record f { task_id = some task_id; bound_at = some now }

unfoldable pub committed : SubmissionResult → Instant → SubmissionCommand → SubmissionCommand
committed result now c = record c {
  state = CommandState.committed;
  result = some result;
  last_error_code = none;
  updated_at = now;
}

pub report_event : Uuid → Uuid → SubmissionResult → AuditFacts → Instant → AuditEvent
report_event event_id command_id result audit now = record {
  event_id = event_id;
  request_id = audit.request_id;
  who = Who.person audit.person_id;
  role = or_none (join_commas audit.roles);
  what = "report.submit";
  target_type = "task";
  target_id = Scalar.num audit.task_id;
  result = "success";
  ip = audit.ip;
  user_agent = audit.user_agent;
  details = ("command_id", Scalar.uuid command_id) ∷ ("log_id", Scalar.num result.log_id) ∷ [];
  created_at = now;
}

unfoldable pub completion_message :
    Uuid → Uuid → SubmissionResult → AuditFacts → Instant → OutboxMessage
completion_message outbox_id command_id result audit now = record {
  outbox_id = outbox_id;
  kind = "oa.complete_pending";
  dedup_key = DedupKey.submission command_id;
  payload =
      ("command_id", Scalar.uuid command_id)
      ∷ ("task_id", Scalar.num audit.task_id)
      ∷ ("person_id", Scalar.num audit.person_id)
      ∷ ("log_id", Scalar.num result.log_id)
      ∷ [];
  state = MessageState.pending;
  available_at = now;
  lease_until = none;
  attempt_count = 0;
  last_error_code = none;
  created_at = now;
  updated_at = now;
}

-- `SqlSubmissionPersistence.complete`. A second message with one dedup key breaks the unique
-- constraint of the outbox.
unfoldable pub complete :
    (event_id outbox_id command_id : Uuid)
    → SubmissionResult
    → AuditFacts
    → Instant
    → Db
    → Result (Unit {0} × Db)
unfolding bound committed report_event completion_message
complete event_id outbox_id command_id result audit now db = do
  check (is_nil audit.file_ids || files_are_clean audit.file_ids audit.task_id audit.person_id db)
      (runtime_error "clean file binding changed during submission")
  check
      (not (
        exists_where (λ m. same_key m.dedup_key (DedupKey.submission command_id))
          db.outbox_message))
      (other "IntegrityError")
  ok (
    tt,
    record db {
      file_object =
          update_where (is_bindable audit.person_id audit.task_id audit.file_ids)
            (bound audit.task_id now) db.file_object;
      submission_command =
          update_where (is_open command_id) (committed result now) db.submission_command;
      audit_event = db.audit_event ++ report_event event_id command_id result audit now ∷ [];
      outbox_message =
          db.outbox_message ++ completion_message outbox_id command_id result audit now ∷ [];
    },
  )
