-- ===== src/Urge/Refused.antt =====
-- A scan on a day of rest, or with a deadline on one (`UrgeScanHandler.__call__` with
-- `_workday_distance` of sd-agent/sd_agent/rules/engine.py).
use sd_platform.Common.{
  ◌≡◌, refl, ap, ◌∙◌, inl, inr, ℕ, false, ◌&&◌, List, [], ◌∷◌, Exn, Result, ok, err, Datetime, Has,
  leb, Bool-cases, value_error, subst,
}
use sd_platform.Db.{Uuid, Db}
use sd_platform.World.{World}
use sd_platform.Rules.{
  new_input, make_urge_decision, evaluate_task, workday_distance, mem_day, uncovered,
}
use sd_platform.Urge.{
  UrgeTask, UrgeSnapshot, UrgeCommand, UrgeScan, require_coverage, all_commands, commands_of,
  command_for, chained, input_of,
}
use sd_platform.Urge.Scan.{UrgeSource, scan_tasks}

abbrev Raises {ℓ} : {A : Type ℓ} → Result A → Type ℓ
Raises {A = A} r = (e : Exn) × (r ≡ err e)

chained_first : (r rest : Result (List UrgeCommand)) → Raises r → Raises (chained r rest)
chained_first r rest (e, same) = (e, rw same)

chained_rest : (r rest : Result (List UrgeCommand)) → Raises rest → Raises (chained r rest)
chained_rest (err x) rest raises = (x, refl)
chained_rest (ok first) rest (e, same) = (e, rw same)

module _ (scan : UrgeScan) (snapshot : UrgeSnapshot) (as_of : ℕ) (planned_at : Datetime)
    (task : UrgeTask)
    (rest_day : (mem_day as_of snapshot.workdays && mem_day task.deadline snapshot.workdays)
      ≡ false) where
  decision_refused :
      (target_id : ℕ)
      → Raises (
          make_urge_decision
            (input_of task)
            target_id
            as_of
            snapshot.workdays
            snapshot.existing_dedup_keys
            scan.rule_version
            scan.due_soon_workdays
            scan.escalate_after_workdays)
  unfolding make_urge_decision evaluate_task workday_distance
  decision_refused target_id = elim (Bool-cases (leb 1 scan.escalate_after_workdays)) [
    | inl positive ↦ (uncovered, rw positive (rw rest_day))
    | inr nought ↦ (value_error "escalate_after_workdays must be positive", rw nought)
  ]

  command_refused :
      (target_id : ℕ) → Raises (command_for scan snapshot as_of planned_at task target_id)
  unfolding command_for new_input
  command_refused target_id =
      let (e, same) = decision_refused target_id in
      elim (Bool-cases (leb task.progress 100)) [
        | inl fits ↦ (e, rw fits (rw same))
        | inr beyond ↦ (value_error "progress must be between 0 and 100", rw beyond)
      ]

  commands_refused :
      (target_id : ℕ) (others : List ℕ)
      → task.target_ids ≡ target_id ∷ others
      → Raises (commands_of scan snapshot as_of planned_at task task.target_ids)
  unfolding commands_of
  commands_refused target_id others owned =
      let (e, same) =
        chained_first (command_for scan snapshot as_of planned_at task target_id)
          (commands_of scan snapshot as_of planned_at task others) (command_refused target_id) in
      (e, ap (commands_of scan snapshot as_of planned_at task) owned ∙ same)

  tasks_refused :
      (target_id : ℕ) (others : List ℕ) (tasks : List UrgeTask)
      → task.target_ids ≡ target_id ∷ others
      → Has task tasks
      → Raises (all_commands scan snapshot as_of planned_at tasks)
  unfolding all_commands
  tasks_refused target_id others [] owned there = elim there [ ]
  tasks_refused target_id others (t ∷ tasks) owned (inl same) =
      chained_first (commands_of scan snapshot as_of planned_at t t.target_ids)
        (all_commands scan snapshot as_of planned_at tasks)
        (subst
          (λ (x : UrgeTask). Raises (commands_of scan snapshot as_of planned_at x x.target_ids))
          same (commands_refused target_id others owned))
  tasks_refused target_id others (t ∷ tasks) owned (inr later) =
      chained_rest (commands_of scan snapshot as_of planned_at t t.target_ids)
        (all_commands scan snapshot as_of planned_at tasks)
        (tasks_refused target_id others tasks owned later)

-- A scan raises and queues nothing, for any task, if one owned task is evaluated on a day that is no
-- workday or has a deadline that is none, even though the calendar covers every day: the rules ask
-- that both days are workdays.
pub scan_refused :
    {W : Type 0} (scan : UrgeScan) (outbox_id event_id : Db → Uuid) (source : UrgeSource W)
    (scheduled_for : Datetime) (s : World W) (w : W) (snapshot : UrgeSnapshot) (task : UrgeTask)
    (target_id : ℕ) (others : List ℕ)
    → source.load (scan.date_of scheduled_for) s.outside ≡ (ok snapshot, w)
    → require_coverage snapshot (scan.date_of scheduled_for) ≡ ok tt
    → Has task snapshot.tasks
    → task.target_ids ≡ target_id ∷ others
    → (mem_day (scan.date_of scheduled_for) snapshot.workdays
        && mem_day task.deadline snapshot.workdays)
      ≡ false
    → (e : Exn) × (scan_tasks scan outbox_id event_id source scheduled_for s
        ≡ (err e, record s { outside = w }))
unfolding scan_tasks
scan_refused scan outbox_id event_id source scheduled_for s w snapshot task target_id others loaded
      covered there owned rest_day =
    let (e, same) =
      tasks_refused scan snapshot (scan.date_of scheduled_for) scheduled_for task rest_day target_id
        others snapshot.tasks owned there in
    (e, rw loaded (rw covered (rw same)))
