-- ===== src/Submission/Samples.antt =====
-- One report on a task, its call and its gateway, for the tests.
use sd_platform.Common.{◌==◌, ok, none, some, [], String, ℕ, utc, if◌then◌else◌, ◌+◌}
use sd_platform.Db.{empty_db, SubmissionResult}
use sd_platform.Report.{SubmissionInput, TaskSnapshot}
use sd_platform.World.{World}
use sd_platform.Submission.{Call, SubmissionGateway, submit}

-- A task table of one task.
abbrev pub gateway : SubmissionGateway TaskSnapshot
gateway = record {
  get_task = λ id w. (ok (if w.task_id == id then some w else none), w);
  find_progress_by_command = λ c w. (ok none, w);
  append_progress = λ c request person now w. (ok (record { record_id = "rec_9"; log_id = 77 }), w);
  update_task_progress = λ task progress revision key w. (
    ok (record task { progress = progress; revision = revision }),
    record task { progress = progress; revision = revision },
  );
}

abbrev pub road : TaskSnapshot
road = record {
  record_id = "rec_1";
  task_id = 3;
  unit_id = 12;
  primary_owner_id = 7;
  progress = 40;
  revision = 1;
}

abbrev pub report : SubmissionInput
report = record {
  task_id = 3;
  content = "the  road is repaired";
  progress = 60;
  file_ids = [];
  on_behalf_of = none;
  task_revision = 1;
}

abbrev pub hash : SubmissionInput → String
hash r = r.content

abbrev pub call : ℕ → Call
call n = record {
  user = record { person_id = 7; roles = [] };
  key = 500;
  request_id = "req_1";
  ip = none;
  user_agent = none;
  now = utc n;
  command_id = 600 + n;
  event_id = 700 + n;
  outbox_id = 800 + n;
}

abbrev pub start : World TaskSnapshot
start = record { db = empty_db; outside = road }

abbrev pub answer : SubmissionResult
answer = record { submission_id = 610; log_id = 77 }

abbrev pub final : World TaskSnapshot
final = (submit gateway hash (call 10) report start).1
