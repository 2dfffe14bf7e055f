-- ===== src/Rules.antt =====
-- The rules on a task's deadline and on urging its owner (sd-agent/sd_agent/rules/engine.py). A date
-- is its ordinal (`date.toordinal`), and a set of dates is a list of them without
-- repetitions. The numbers of days that
-- the rules take are natural, so the guard against a negative `due_soon_workdays` has no case here.
use sd_platform.Common.{
  ℤ, pos, negsuc, neg, ℕ, zero, suc, ◌+◌, String, Bool, true, false, not, ◌&&◌, ◌||◌, List, [], ◌∷◌,
  Option, none, some, ltb, leb, ◌==◌, if◌then◌else◌, Exn, value_error, other, Result, ok, err,
  ◌>>=◌, ◌>>◌,
}
use sd_platform.Common.{require as check}
use sd_platform.Db.{DedupKey, same_key}
pub mod Calendar
pub mod Status
pub mod Urges
mod Tests

pub data TaskStatus : Type 0 where
  completed exempt overdue due_soon on_track : TaskStatus

pub data UrgeLevel : Type 0 where
  quiet reminder overdue escalated : UrgeLevel

-- `TaskStatus.value` and `UrgeLevel.value`
abbrev pub status_value : TaskStatus → String
status_value TaskStatus.completed = "completed"
status_value TaskStatus.exempt = "exempt"
status_value TaskStatus.overdue = "overdue"
status_value TaskStatus.due_soon = "due_soon"
status_value TaskStatus.on_track = "on_track"

abbrev pub level_value : UrgeLevel → String
level_value UrgeLevel.quiet = "none"
level_value UrgeLevel.reminder = "reminder"
level_value UrgeLevel.overdue = "overdue"
level_value UrgeLevel.escalated = "escalated"

pub record TaskRuleInput : Type 0 where
  pub task_id : ℕ
  pub deadline : ℕ
  pub progress : ℕ
  pub exempt_until : Option ℕ

-- `TaskRuleInput.__post_init__`
unfoldable pub new_input : TaskRuleInput → Result TaskRuleInput
new_input task =
    if leb task.progress 100
    then ok task
    else err (value_error "progress must be between 0 and 100")

pub record TaskEvaluation : Type 0 where
  pub status : TaskStatus
  pub workdays_to_deadline : ℤ

pub record UrgeDecision : Type 0 where
  pub eligible : Bool
  pub level : UrgeLevel
  pub dedup_key : Option DedupKey
  pub reason : String

abbrev pub mem_day : ℕ → List ℕ → Bool
mem_day d [] = false
mem_day d (x ∷ xs) = d == x || mem_day d xs

-- sum(1 for day in workdays if low < day <= high)
unfoldable pub between : (low high : ℕ) → List ℕ → ℕ
between low high [] = 0
between low high (d ∷ ds) =
    let rest = between low high ds in if ltb low d && leb d high then suc rest else rest

abbrev pub uncovered : Exn
uncovered = other "CalendarCoverageError"

-- `_workday_distance`
unfoldable pub workday_distance : (as_of deadline : ℕ) → List ℕ → Result ℤ
unfolding between
workday_distance as_of deadline workdays =
    check (mem_day as_of workdays && mem_day deadline workdays) uncovered
    >> ok (
        if leb as_of deadline
        then pos (between as_of deadline workdays)
        else neg (between deadline as_of workdays))

abbrev pub at_most : ℤ → ℕ → Bool
at_most (pos n) m = leb n m
at_most (negsuc n) m = true

abbrev pub lasts : Option ℕ → ℕ → Bool
lasts none as_of = false
lasts (some day) as_of = leb as_of day

unfoldable pub status_of : TaskRuleInput → (as_of : ℕ) → ℤ → (due_soon_workdays : ℕ) → TaskStatus
status_of task as_of distance due_soon_workdays =
    if task.progress == 100
    then TaskStatus.completed
    else if lasts task.exempt_until as_of
    then TaskStatus.exempt
    else if ltb task.deadline as_of
    then TaskStatus.overdue
    else if at_most distance due_soon_workdays
    then TaskStatus.due_soon
    else TaskStatus.on_track

-- `evaluate_task`
unfoldable pub evaluate_task :
    TaskRuleInput → (as_of : ℕ) → List ℕ → (due_soon_workdays : ℕ) → Result TaskEvaluation
evaluate_task task as_of workdays due_soon_workdays = do
  distance ← workday_distance as_of task.deadline workdays
  ok (record {
    status = status_of task as_of distance due_soon_workdays;
    workdays_to_deadline = distance;
  })

abbrev pub is_open_status : TaskStatus → Bool
is_open_status TaskStatus.overdue = true
is_open_status TaskStatus.due_soon = true
is_open_status _ = false

abbrev pub is_overdue : TaskStatus → Bool
is_overdue TaskStatus.overdue = true
is_overdue _ = false

-- max(0, -workdays_to_deadline)
abbrev pub overdue_workdays : ℤ → ℕ
overdue_workdays (pos n) = 0
overdue_workdays (negsuc n) = suc n

unfoldable pub level_of : TaskEvaluation → (escalate_after_workdays : ℕ) → UrgeLevel
level_of e escalate_after_workdays =
    if leb escalate_after_workdays (overdue_workdays e.workdays_to_deadline)
    then UrgeLevel.escalated
    else if is_overdue e.status
    then UrgeLevel.overdue
    else UrgeLevel.reminder

abbrev pub has_key : DedupKey → List DedupKey → Bool
has_key k [] = false
has_key k (x ∷ xs) = same_key k x || has_key k xs

abbrev pub urge_key : TaskRuleInput → (target_id as_of : ℕ) → String → UrgeLevel → DedupKey
urge_key task target_id as_of rule_version level =
    DedupKey.urge rule_version task.task_id target_id as_of (level_value level)

-- A decision of that level: an urge, or a duplicate if its key is on record.
unfoldable pub urged : UrgeLevel → DedupKey → List DedupKey → UrgeDecision
urged level key existing =
    if has_key key existing
    then record { eligible = false; level = level; dedup_key = some key; reason = "duplicate" }
    else record { eligible = true; level = level; dedup_key = some key; reason = "eligible" }

unfoldable pub decision :
    TaskRuleInput
    → (target_id as_of : ℕ) → List DedupKey
    → (rule_version : String) (escalate_after_workdays : ℕ) → TaskEvaluation
    → UrgeDecision
decision task target_id as_of existing rule_version escalate_after_workdays e =
    if not (is_open_status e.status)
    then record {
      eligible = false;
      level = UrgeLevel.quiet;
      dedup_key = none;
      reason = status_value e.status;
    }
    else (let level = level_of e escalate_after_workdays in
        urged level (urge_key task target_id as_of rule_version level) existing)

-- `make_urge_decision`
unfoldable pub make_urge_decision :
    TaskRuleInput
    → (target_id as_of : ℕ) → (workdays : List ℕ) (existing_dedup_keys : List DedupKey)
    → (rule_version : String) (due_soon_workdays escalate_after_workdays : ℕ) → Result UrgeDecision
make_urge_decision task target_id as_of workdays existing rule_version soon escalate_after = do
  check (leb 1 escalate_after) (value_error "escalate_after_workdays must be positive")
  evaluation ← evaluate_task task as_of workdays soon
  ok (decision task target_id as_of existing rule_version escalate_after evaluation)
