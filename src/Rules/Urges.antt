-- ===== src/Rules/Urges.antt =====
-- Who is urged, and how much (`make_urge_decision`).
use sd_platform.Common.{
  str_eq, if◌then◌else◌, not, refl, ◌≡◌, ◌≢◌, ◌≤◌, ◌<◌, ◌↔◌, inl, inr, ℕ, sym, ap, ◌∙◌, true, false,
  List, String, ok, arith, leb, some, Bool-cases, subst,
}
use sd_platform.Db.{DedupKey}
use sd_platform.Rules.{
  TaskRuleInput, TaskEvaluation, TaskStatus, UrgeLevel, UrgeDecision, evaluate_task, lasts, between,
  make_urge_decision, decision, level_of, is_open_status, overdue_workdays, has_key, urge_key,
  urged,
}
use sd_platform.Rules.Status.{map_ok, overdue_status, evaluate_ok}
use sd_platform.Rules.Calendar.{overdue_exact, between_mono}

module _ (level : UrgeLevel) (key : DedupKey) (existing : List DedupKey) where
  urged-key : (urged level key existing).dedup_key ≡ some key
  unfolding urged
  urged-key = elim (Bool-cases (has_key key existing)) [ inl hit ↦ rw hit | inr miss ↦ rw miss ]

  pub urged-level : (urged level key existing).level ≡ level
  unfolding urged
  urged-level = elim (Bool-cases (has_key key existing)) [ inl hit ↦ rw hit | inr miss ↦ rw miss ]

  urged-eligible : (urged level key existing).eligible ≡ not (has_key key existing)
  unfolding urged
  urged-eligible = elim (Bool-cases (has_key key existing)) [
    | inl hit ↦ rw hit refl
    | inr miss ↦ rw miss refl
  ]

-- The levels of urges have different words.
level_read : String → UrgeLevel
level_read t =
    if str_eq t "none"
    then UrgeLevel.quiet
    else if str_eq t "reminder"
    then UrgeLevel.reminder
    else if str_eq t "overdue"
    then UrgeLevel.overdue
    else UrgeLevel.escalated

level_exact :
    (e : TaskEvaluation) (n : ℕ)
    → e.status ≡ TaskStatus.overdue
    → level_of e n ≡ UrgeLevel.escalated ↔ n ≤ overdue_workdays e.workdays_to_deadline
unfolding level_of
level_exact e n late = (λ x. ground arith, λ k. ground arith)

module _ (task : TaskRuleInput) (target_id : ℕ) (rule_version : String)
    (soon escalate_after : ℕ) where
  decided :
      (as_of : ℕ) (days : List ℕ) (existing : List DedupKey) (d : UrgeDecision)
      → make_urge_decision task target_id as_of days existing rule_version soon escalate_after
        ≡ ok d
      → (e : TaskEvaluation) × (evaluate_task task as_of days soon ≡ ok e)
        × (decision task target_id as_of existing rule_version escalate_after e ≡ d)
        × (leb 1 escalate_after ≡ true)
  unfolding make_urge_decision
  decided as_of days existing d h = elim (Bool-cases (leb 1 escalate_after)) [
    | inl fine ↦
        let (e, found, same) =
          map_ok (evaluate_task task as_of days soon)
            (decision task target_id as_of existing rule_version escalate_after) d (rw fine at h) in
        (e, found, same, fine)
    | inr bad ↦ ground arith
  ]

  -- An urge has the key of its task, person, day and level, and goes out unless the key is on record.
  keyed_decision :
      (as_of : ℕ) (existing : List DedupKey) (e : TaskEvaluation) (k : DedupKey)
      → (decision task target_id as_of existing rule_version escalate_after e).dedup_key ≡ some k
      → (k
          ≡ urge_key task target_id as_of rule_version
              (decision task target_id as_of existing rule_version escalate_after e).level)
        × ((decision task target_id as_of existing rule_version escalate_after e).eligible
            ≡ not (has_key k existing))
  unfolding decision
  keyed_decision as_of existing e k h = elim (Bool-cases (is_open_status e.status)) [
    | inl due ↦
        let level = level_of e escalate_after in
        let key = urge_key task target_id as_of rule_version level in
        let same : some key ≡ some k = sym (urged-key level key existing) ∙ rw due at h in
        let at_key : k ≡ key = ground arith in
        (
          rw due (
              at_key
              ∙ ap (urge_key task target_id as_of rule_version)
                  (sym (urged-level level key existing))),
          rw due
              (urged-eligible level key existing ∙ ap (λ x. not (has_key x existing)) (sym at_key)),
        )
    | inr calm ↦ cc (rw calm at h)
  ]

  pub urge_keyed :
      (as_of : ℕ) (days : List ℕ) (existing : List DedupKey) (d : UrgeDecision) (k : DedupKey)
      → make_urge_decision task target_id as_of days existing rule_version soon escalate_after
        ≡ ok d
      → d.dedup_key ≡ some k
      → (k ≡ urge_key task target_id as_of rule_version d.level)
        × (d.eligible ≡ not (has_key k existing))
  urge_keyed as_of days existing d k h key =
      let (e, found, same, fine) = decided as_of days existing d h in
      subst
        (λ (x : UrgeDecision).
          (k ≡ urge_key task target_id as_of rule_version x.level)
          × (x.eligible ≡ not (has_key k existing)))
        same (keyed_decision as_of existing e k (ap (λ (x : UrgeDecision). x.dedup_key) same ∙ key))

  decided_level :
      (as_of : ℕ) (existing : List DedupKey) (e : TaskEvaluation)
      → e.status ≡ TaskStatus.overdue
      → (decision task target_id as_of existing rule_version escalate_after e).level
        ≡ level_of e escalate_after
  unfolding decision
  decided_level as_of existing e late =
      let level = level_of e escalate_after in
      rw (ap is_open_status late)
        (urged-level level (urge_key task target_id as_of rule_version level) existing)

  -- The decision for a late task that is neither finished nor exempt escalates exactly if at least
  -- `escalate_after` work days lie between its deadline and the day, the day included.
  pub escalated_exact :
      (as_of : ℕ) (days : List ℕ) (existing : List DedupKey) (d : UrgeDecision)
      → task.progress ≢ 100
      → lasts task.exempt_until as_of ≡ false
      → task.deadline < as_of
      → make_urge_decision task target_id as_of days existing rule_version soon escalate_after
        ≡ ok d
      → d.level ≡ UrgeLevel.escalated ↔ escalate_after ≤ between task.deadline as_of days
  escalated_exact as_of days existing d unfinished due late h =
      let (e, found, same, fine) = decided as_of days existing d h in
      let status = (overdue_status task as_of days soon e found).1 (unfinished, due, late) in
      let distance =
        overdue_exact as_of task.deadline days e.workdays_to_deadline late
          (evaluate_ok task as_of days soon e found).0 in
      let level : d.level ≡ level_of e escalate_after =
        sym (ap (λ (x : UrgeDecision). x.level) same) ∙ decided_level as_of existing e status in
      let (forth, back) = level_exact e escalate_after status in
      (
        λ x. subst (λ n. escalate_after ≤ n) distance (forth (sym level ∙ x)),
        λ k. level ∙ back (subst (λ n. escalate_after ≤ n) (sym distance) k),
      )

  -- A task that is escalated stays escalated: on any later day that finds it unfinished and not
  -- exempt, the decision has that level again.
  pub urge_escalates_on :
      (as_of as_of' : ℕ) (days : List ℕ) (existing existing' : List DedupKey) (d d' : UrgeDecision)
      → task.progress ≢ 100
      → lasts task.exempt_until as_of ≡ false
      → lasts task.exempt_until as_of' ≡ false
      → task.deadline < as_of
      → as_of ≤ as_of'
      → make_urge_decision task target_id as_of days existing rule_version soon escalate_after
        ≡ ok d
      → make_urge_decision task target_id as_of' days existing' rule_version soon escalate_after
        ≡ ok d'
      → d.level ≡ UrgeLevel.escalated
      → d'.level ≡ UrgeLevel.escalated
  urge_escalates_on as_of as_of' days existing existing' d d' unfinished due due' late later h h'
        up =
      let before = (escalated_exact as_of days existing d unfinished due late h).0 up in
      let more = between_mono task.deadline as_of as_of' days later in
      (escalated_exact as_of' days existing' d' unfinished due' (omega arith) h').1 (omega arith)

-- What makes two urges the same.
abbrev pub SameUrge :
    (task task' : TaskRuleInput) (target_id target_id' as_of as_of' : ℕ)
    (rule_version rule_version' : String) (level level' : UrgeLevel)
    → Type 0
SameUrge task task' target_id target_id' as_of as_of' rule_version rule_version' level level' =
    (task.task_id ≡ task'.task_id)
    × (target_id ≡ target_id')
    × (as_of ≡ as_of')
    × (rule_version ≡ rule_version')
    × (level ≡ level')
