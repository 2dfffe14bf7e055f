-- ===== src/Triggers/Tests.antt =====
-- Requests to run a job and the delivery of one, at concrete tables.
use sd_platform.Common.{
  ◌≡◌, refl, false, ℕ, String, [], ◌∷◌, some, none, true, ok, err, utc, require_utc, first_where,
  Datetime, Offset, Result, str_eq, if◌then◌else◌, value_error,
}
use sd_platform.Db.{Db, Json, JobRun, RunState, empty_db}
use sd_platform.World.{World}
use sd_platform.Outbox.{OutboxItem, DispatchResult}
use sd_platform.Db.{DedupKey}
use sd_platform.Scheduler.{JobExecution, attempted, shanghai}
use sd_platform.JobStore.{new_run, ended_as}
use sd_platform.JobStore.Slots.{claimed}
use sd_platform.JobStore.Samples.{hash, scan, registered, tick, free, draw, first, scan_keeps}
use sd_platform.SchedulerAdmin.{
  SchedulerAdminActor, TriggerResult, scheduler_admin_error, require_role,
}
use sd_platform.TriggerStore.{
  requested, request_row, trigger_result, enqueue_trigger, retry_allowed,
}
use sd_platform.Triggers.{trigger, trigger_payload_hash, Texts, handle_trigger, delivered}
use sd_platform.Triggers.Again.{trigger_again, retry_refused}
use sd_platform.Triggers.Delivery.{IsReadable, Reported, queued, run_now, slot_after, command_once}

abbrev operator : ℕ → SchedulerAdminActor
operator id = record {
  person_id = id;
  roles = "ops_admin" ∷ [];
  request_id = "req_1";
  ip = none;
  user_agent = none;
}

abbrev failed_run : JobRun
failed_run =
    ended_as RunState.failed [] (some "JOB_EXECUTION_FAILED") 70 (new_run 5 "urge_scan" 60 hash 61)

abbrev start : Db
start = record empty_db { job_run = failed_run ∷ [] }

-- Stand-ins for `json.dumps` and the hash.
abbrev dumps : Json → String
dumps payload = "{}"

abbrev sha256 : String → String
sha256 t = t

abbrev asked : Db
asked = requested 30 31 32 "urge_scan" (some 5) 33 "{}" (operator 1) 80 start

abbrev answer : TriggerResult
answer = trigger_result (request_row 30 31 32 "urge_scan" (some 5) 33 "{}" (operator 1) 80) false

asks :
    trigger dumps sha256 30 31 32 "urge_scan" (some 5) 33 (operator 1) (utc 80) start
    ≡ ok (answer, asked)
unfolding trigger require_role require_utc enqueue_trigger retry_allowed first_where
    trigger_payload_hash
asks = refl

trigger_again_example :
    trigger dumps sha256 40 41 42 "urge_scan" (some 5) 33 (operator 2) (utc 90) asked
    ≡ ok (record answer { idempotent = true }, asked)
unfolding require_role require_utc
trigger_again_example =
    trigger_again dumps sha256 30 31 32 "urge_scan" 33 (operator 1) (utc 80) start asked answer 40
      41 42 (some 5) (operator 2) (utc 90) 90 asks refl refl

retry_refused_example :
    trigger dumps sha256 40 41 42 "urge_scan" (some 5) 43 (operator 2) (utc 90) asked
    ≡ err (scheduler_admin_error "JOB_RUN_ALREADY_RETRIED" 409)
unfolding require_role require_utc first_where
retry_refused_example =
    retry_refused dumps sha256 30 31 32 "urge_scan" 33 (operator 1) (utc 80) start asked answer 40
      41 42 43 5 (operator 2) (utc 90) 90 refl asks refl refl refl

-- The zone of a time that is read is an offset without a name.
abbrev read_back : Datetime
read_back = record {
  instant = 60;
  tzinfo = some (record { key = none; offset = Offset.east 28800000000 });
}

-- Texts of the one time that is written and read here.
abbrev texts : Texts
texts = record {
  str_uuid = λ id. "uuid";
  isoformat = λ t. "1970-01-01T08:00:00.000060+08:00";
  fromisoformat = λ t.
      if str_eq t "1970-01-01T08:00:00.000060+08:00"
      then ok read_back
      else err (value_error "Invalid isoformat string");
}

readable : IsReadable texts "urge_scan" 60
readable = record {
  job_there = refl;
  job_short = refl;
  time_there = refl;
  time_short = refl;
  parsed = read_back;
  time_read = refl;
  same_time = refl;
  zone = record { key = none; offset = Offset.east 28800000000 };
  aware = refl;
}

abbrev item : ℕ → ℕ → OutboxItem
item attempt started_at = record {
  outbox_id = 31;
  kind = "scheduler.run_job";
  dedup_key = DedupKey.scheduler_trigger 30;
  payload =
      queued tick free draw registered hash texts 30 31 32 "urge_scan" none 33 "{}" (operator 1) 60;
  attempt = attempt;
  started_at = started_at;
}

abbrev runs_now :
    String → Datetime → Datetime → World (Unit {0}) → Result JobExecution × World (Unit {0})
runs_now =
    run_now tick free draw registered hash texts 30 31 32 "urge_scan" none 33 "{}" (operator 1) 60

abbrev then_world : World (Unit {0})
then_world =
    slot_after tick free draw registered hash texts 30 31 32 "urge_scan" none 33 "{}" (operator 1)
      60 (item 1 61) first

-- By then another request has been made.
abbrev much_later : World (Unit {0})
much_later = record then_world {
  db = record then_world.db {
    job_trigger_request = request_row 50 51 52 "urge_scan" none 53 "{}" (operator 2) 95 ∷ [];
  };
}

command_once_example :
    (result : DispatchResult) × (handle_trigger texts runs_now (item 1 61) first
      ≡ (ok result, then_world))
    × Reported
        (attempted scan
          (shanghai 60)
          (claimed tick free draw registered hash "urge_scan" 60 61 first)).0
        result
    × (handle_trigger texts runs_now (item 2 99) much_later ≡ (ok (delivered 208), much_later))
unfolding first_where
command_once_example =
    command_once tick free draw registered hash texts 30 31 32 "urge_scan" none 33 "{}" (operator 1)
      60 scan first much_later (item 1 61) (item 2 99) readable refl refl refl refl refl refl
      scan_keeps refl
