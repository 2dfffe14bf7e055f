-- ===== src/Urge/Tests.antt =====
-- A scan on a Saturday, with a calendar that covers every day.
use sd_platform.Common.{◌≡◌, refl, inl, [], ◌∷◌, none, ok, err, Exn, utc}
use sd_platform.Db.{Uuid, Db, empty_db}
use sd_platform.World.{World}
use sd_platform.Urge.{UrgeTask, UrgeSnapshot, UrgeScan, require_coverage}
use sd_platform.Urge.Scan.{UrgeSource, scan_tasks}
use sd_platform.Urge.Refused.{scan_refused}

abbrev road : UrgeTask
road = record {
  task_id = 3;
  content = "the road is repaired";
  deadline = 101;
  progress = 40;
  exempt_until = none;
  target_ids = 7 ∷ [];
}

-- The days 99 to 101 are in the calendar, and 100 is a day of rest.
abbrev saturday : UrgeSnapshot
saturday = record {
  tasks = road ∷ [];
  calendar_dates = 99 ∷ 100 ∷ 101 ∷ [];
  workdays = 99 ∷ 101 ∷ [];
  existing_dedup_keys = [];
}

abbrev settings : UrgeScan
settings = record {
  rule_version = "v1";
  due_soon_workdays = 5;
  escalate_after_workdays = 3;
  date_of = λ t. 100;
  date_text = λ day. "2026-07-25";
  key_text = λ key. "urge:v1";
}

abbrev source : UrgeSource UrgeSnapshot
source = record { load = λ day snapshot. (ok snapshot, snapshot) }

abbrev drawn : Db → Uuid
drawn db = 9

abbrev start : World UrgeSnapshot
start = record { db = empty_db; outside = saturday }

scan_refused_example :
    (e : Exn) × (scan_tasks settings drawn drawn source (utc 50) start ≡ (err e, start))
unfolding require_coverage
scan_refused_example =
    scan_refused settings drawn drawn source (utc 50) start saturday saturday road 7 [] refl refl
      (inl refl) refl refl
