-- ===== src/Rules/Tests.antt =====
-- The rules at a task that is due on day 100, in a month whose work days are 98 to 110.
use sd_platform.Common.{
  negsuc, ◌≡◌, ◌≢◌, ◌<◌, ◌≤◌, ◌↔◌, ℕ, refl, true, false, List, [], ◌∷◌, some, ok, arith,
}
use sd_platform.Rules.{
  TaskRuleInput, TaskStatus, UrgeLevel, UrgeDecision, lasts, between, make_urge_decision,
  evaluate_task, status_of, workday_distance, decision, urged, level_of, urge_key, DedupKey,
}
use sd_platform.Rules.Status.{overdue_status}
use sd_platform.Rules.Urges.{urge_escalates_on, escalated_exact}

abbrev days : List ℕ
days = 98 ∷ 99 ∷ 100 ∷ 101 ∷ 102 ∷ 105 ∷ 106 ∷ 110 ∷ []

abbrev bridge : TaskRuleInput
bridge = record { task_id = 3; deadline = 100; progress = 60; exempt_until = some 101 }

abbrev urge_on : ℕ → UrgeLevel → UrgeDecision
urge_on day level = record {
  eligible = true;
  level = level;
  dedup_key = some (urge_key bridge 7 day "v1" level);
  reason = "eligible";
}

on_105 : make_urge_decision bridge 7 105 days [] "v1" 5 3 ≡ ok (urge_on 105 UrgeLevel.escalated)
unfolding make_urge_decision evaluate_task status_of workday_distance between decision urged
    level_of
on_105 = refl

on_110 : make_urge_decision bridge 7 110 days [] "v1" 5 3 ≡ ok (urge_on 110 UrgeLevel.escalated)
unfolding make_urge_decision evaluate_task status_of workday_distance between decision urged
    level_of
on_110 = refl

late_102 :
    evaluate_task bridge 102 days 5
    ≡ ok (record { status = TaskStatus.overdue; workdays_to_deadline = negsuc 1 })
unfolding evaluate_task status_of workday_distance between
late_102 = refl

unfinished : bridge.progress ≢ 100
unfinished e = omega arith

overdue_status_example :
    TaskStatus.overdue ≡ TaskStatus.overdue
    ↔ ((bridge.progress ≢ 100) × (lasts bridge.exempt_until 102 ≡ false) × (bridge.deadline < 102))
overdue_status_example =
    overdue_status bridge 102 days 5
      (record { status = TaskStatus.overdue; workdays_to_deadline = negsuc 1 }) late_102

-- The first urge is on record, and the same task has another one for another person.
abbrev recorded : List DedupKey
recorded = urge_key bridge 7 102 "v1" UrgeLevel.overdue ∷ []

abbrev for_other : UrgeDecision
for_other = record (urge_on 102 UrgeLevel.overdue) {
  dedup_key = some (urge_key bridge 8 102 "v1" UrgeLevel.overdue);
}

escalated_exact_example : UrgeLevel.escalated ≡ UrgeLevel.escalated ↔ 3 ≤ between 100 105 days
escalated_exact_example =
    escalated_exact bridge 7 "v1" 5 3 105 days [] (urge_on 105 UrgeLevel.escalated) unfinished refl
      (omega arith) on_105

urge_escalates_on_example : UrgeLevel.escalated ≡ UrgeLevel.escalated
urge_escalates_on_example =
    urge_escalates_on bridge 7 "v1" 5 3 105 110 days [] [] (urge_on 105 UrgeLevel.escalated)
      (urge_on 110 UrgeLevel.escalated) unfinished refl refl (omega arith) (omega arith) on_105
      on_110 refl
