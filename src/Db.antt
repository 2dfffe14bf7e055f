-- ===== src/Db.antt =====
-- The tables of the sd_app schema (sd-agent/sd_agent/persistence/models.py) that the modelled code
-- reads and writes: one record for each table's row, with its columns.
-- A UUID column is the number that the UUID stands for, whose order is the order of the column; a
-- JSON column is a list of named values; a text that the code builds from parts (a dedup key) is
-- those parts. A column that the code only copies for display (an ip, a user agent) is a text.
mod Keys
mod Messages
mod Runs
mod Accounts
pub use Keys.*
pub use Messages.*
pub use Runs.*
pub use Accounts.*
use sd_platform.Common.{List, []}

pub record Db : Type 0 where
  pub outbox_message : List OutboxMessage
  pub outbox_attempt : List OutboxAttempt
  pub outbox_replay_approval : List OutboxReplayApproval
  pub audit_event : List AuditEvent
  pub job_run : List JobRun
  pub job_trigger_request : List JobTriggerRequest
  pub submission_command : List SubmissionCommand
  pub file_object : List FileObject
  pub auth_session : List AuthSession
  pub sso_login_attempt : List SsoLoginAttempt

abbrev pub empty_db : Db
empty_db = record {
  outbox_message = [];
  outbox_attempt = [];
  outbox_replay_approval = [];
  audit_event = [];
  job_run = [];
  job_trigger_request = [];
  submission_command = [];
  file_object = [];
  auth_session = [];
  sso_login_attempt = [];
}
