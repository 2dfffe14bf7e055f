-- ===== src/Urge.antt =====
-- The daily scan that urges the owners of tasks (`UrgeScanHandler` and `SqlUrgeCommandSink` of
-- sd-agent/sd_agent/jobs/urge.py). The source reads the task table and acts on a state `W` of its
-- own. A date is its ordinal; the date of a time, the text of a date, and the text of a dedup key
-- are parameters, and the UUIDs that the code draws are functions of the tables.
pub mod Scan
mod Refused
mod Tests
use sd_platform.Common.{
  ℕ, zero, suc, ◌+◌, ◌-◌, min, max, ℤ, pos, String, Bool, true, false, not, ◌&&◌, ◌||◌, List, [],
  ◌∷◌, ◌++◌, Option, none, some, ltb, leb, if◌then◌else◌, length, Exn, value_error, runtime_error,
  other, Result, ok, err, Instant, Datetime, exists_where, text_length, text_take, text_append,
  is_empty, split_words, join_words,
}
use sd_platform.Common.Actions.{Exec, pure, lift, ◌>>=◌, ◌>>◌}
use sd_platform.Db.{
  Uuid, Scalar, DedupKey, same_key, Db, OutboxMessage, MessageState, AuditEvent, Who,
}
use sd_platform.World.{World, outside, on_tables}
use sd_platform.Rules.{
  TaskRuleInput, new_input, UrgeLevel, UrgeDecision, level_value, make_urge_decision, mem_day,
}

pub record UrgeTask : Type 0 where
  pub task_id : ℕ
  pub content : String
  pub deadline : ℕ
  pub progress : ℕ
  pub exempt_until : Option ℕ
  pub target_ids : List ℕ

pub record UrgeSnapshot : Type 0 where
  pub tasks : List UrgeTask
  pub calendar_dates : List ℕ
  pub workdays : List ℕ
  pub existing_dedup_keys : List DedupKey

pub record UrgeCommand : Type 0 where
  pub task_id : ℕ
  pub target_id : ℕ
  pub level : UrgeLevel
  pub content : String
  pub dedup_key : DedupKey
  pub planned_at : Datetime

-- The settings of the handler, and the texts that it builds with the library.
pub record UrgeScan : Type 0 where
  pub rule_version : String
  pub due_soon_workdays : ℕ
  pub escalate_after_workdays : ℕ
  pub date_of : Datetime → ℕ
  pub date_text : ℕ → String
  pub key_text : DedupKey → String

-- The guard of `UrgeScanHandler.__init__`
unfoldable pub version_guard : (rule_version : String) → Result String
version_guard rule_version =
    if is_empty rule_version || ltb 32 (text_length rule_version)
    then err (value_error "rule_version must contain 1-32 characters")
    else ok rule_version

abbrev pub lowest : ℕ → List UrgeTask → ℕ
lowest day [] = day
lowest day (t ∷ ts) = min t.deadline (lowest day ts)

abbrev pub highest : ℕ → List UrgeTask → ℕ
highest day [] = day
highest day (t ∷ ts) = max t.deadline (highest day ts)

-- The `count` days from `day` on are dates of the calendar.
abbrev pub days_covered : (day count : ℕ) → List ℕ → Bool
days_covered day zero dates = true
days_covered day (suc count) dates = mem_day day dates && days_covered (suc day) count dates

-- `_require_calendar_coverage`
unfoldable pub require_coverage : UrgeSnapshot → (as_of : ℕ) → Result (Unit {0})
require_coverage snapshot as_of = elim snapshot.tasks [
  | [] ↦ ok tt
  | t ∷ ts ↦
      let low = lowest as_of (t ∷ ts) in
      let high = highest as_of (t ∷ ts) in
      if days_covered low (suc (high - low)) snapshot.calendar_dates
      then ok tt
      else err (runtime_error "WORK_CALENDAR_INCOMPLETE")
]

abbrev pub label_of : UrgeLevel → Result String
label_of UrgeLevel.quiet = err (other "KeyError")
label_of UrgeLevel.reminder = ok "临期提醒"
label_of UrgeLevel.overdue = ok "逾期催办"
label_of UrgeLevel.escalated = ok "逾期升级"

abbrev pub joined : List String → String
joined [] = String.[]
joined (t ∷ ts) = text_append t (joined ts)

abbrev pub rendered : UrgeScan → UrgeTask → Result String → Result String
rendered scan task (ok label) = ok (
    joined (
      "【"
      ∷ label
      ∷ "】事项“"
      ∷ text_take 80 (join_words (split_words task.content))
      ∷ "”截止日期为 "
      ∷ scan.date_text task.deadline
      ∷ "，请及时更新进展。"
      ∷ []))
rendered scan task (err e) = err e

-- `_render_content`
unfoldable pub render_content : UrgeScan → UrgeTask → UrgeLevel → Result String
render_content scan task level = rendered scan task (label_of level)

-- The command of an eligible decision.
abbrev pub command_with :
    UrgeTask
    → (target_id : ℕ) → Datetime
    → UrgeLevel
    → DedupKey
    → Result String
    → Result (List UrgeCommand)
command_with task target_id planned_at level key (ok content) = ok (
    record {
      task_id = task.task_id;
      target_id = target_id;
      level = level;
      content = content;
      dedup_key = key;
      planned_at = planned_at;
    }
    ∷ [])
command_with task target_id planned_at level key (err e) = err e

abbrev pub command_from :
    UrgeScan
    → UrgeTask
    → (target_id : ℕ) → Datetime
    → Result UrgeDecision
    → Result (List UrgeCommand)
command_from scan task target_id planned_at (err e) = err e
command_from scan task target_id planned_at (ok d) = elim d.dedup_key [
  | none ↦ ok []
  | some key ↦
      let made =
        command_with task target_id planned_at d.level key (render_content scan task d.level) in
      if d.eligible then made else ok []
]

abbrev pub decided :
    UrgeScan
    → UrgeSnapshot
    → UrgeTask
    → (target_id as_of : ℕ) → Result TaskRuleInput
    → Result UrgeDecision
decided scan snapshot task target_id as_of (err e) = err e
decided scan snapshot task target_id as_of (ok input) =
    make_urge_decision input target_id as_of snapshot.workdays snapshot.existing_dedup_keys
      scan.rule_version scan.due_soon_workdays scan.escalate_after_workdays

abbrev pub input_of : UrgeTask → TaskRuleInput
input_of task = record {
  task_id = task.task_id;
  deadline = task.deadline;
  progress = task.progress;
  exempt_until = task.exempt_until;
}

-- One round of the inner loop.
unfoldable pub command_for :
    UrgeScan
    → UrgeSnapshot
    → (as_of : ℕ) → Datetime
    → UrgeTask
    → (target_id : ℕ) → Result (List UrgeCommand)
command_for scan snapshot as_of planned_at task target_id =
    command_from scan task target_id planned_at
      (decided scan snapshot task target_id as_of (new_input (input_of task)))

-- The commands of a first part and then those of the rest; a raise ends the loop.
abbrev pub append_to : List UrgeCommand → Result (List UrgeCommand) → Result (List UrgeCommand)
append_to first (ok rest) = ok (first ++ rest)
append_to first (err e) = err e

abbrev pub chained :
    Result (List UrgeCommand) → Result (List UrgeCommand) → Result (List UrgeCommand)
chained (ok first) rest = append_to first rest
chained (err e) rest = err e

unfoldable pub commands_of :
    UrgeScan → UrgeSnapshot → (as_of : ℕ) → Datetime → UrgeTask → List ℕ → Result (List UrgeCommand)
commands_of scan snapshot as_of planned_at task [] = ok []
commands_of scan snapshot as_of planned_at task (target_id ∷ target_ids) =
    chained (command_for scan snapshot as_of planned_at task target_id)
      (commands_of scan snapshot as_of planned_at task target_ids)

unfoldable pub all_commands :
    UrgeScan → UrgeSnapshot → (as_of : ℕ) → Datetime → List UrgeTask → Result (List UrgeCommand)
all_commands scan snapshot as_of planned_at [] = ok []
all_commands scan snapshot as_of planned_at (task ∷ tasks) =
    chained (commands_of scan snapshot as_of planned_at task task.target_ids)
      (all_commands scan snapshot as_of planned_at tasks)

abbrev pub evaluated : List UrgeTask → ℕ
evaluated [] = 0
evaluated (t ∷ ts) = length t.target_ids + evaluated ts
