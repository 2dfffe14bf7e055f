-- ===== src/Rules/Status.antt =====
-- The status of a task (`evaluate_task`).
use sd_platform.Common.{
  ◌≡◌, ◌≢◌, ◌<◌, ◌↔◌, ℕ, refl, false, List, ok, err, Result, arith, ◌>>=◌, ap, sym, ◌∙◌,
}
use sd_platform.Rules.{
  TaskRuleInput, TaskEvaluation, TaskStatus, evaluate_task, status_of, workday_distance, lasts,
}

module _ {A B : Type 0} where
  pub map_ok :
      (r : Result A) (f : A → B) (b : B)
      → (r >>= λ a. ok (f a)) ≡ ok b
      → (a : A) × (r ≡ ok a) × (f a ≡ b)
  map_ok (ok a) f b e = (a, refl, ground arith)
  map_ok (err x) f b e = cc

pub evaluate_ok :
    (task : TaskRuleInput) (as_of : ℕ) (days : List ℕ) (soon : ℕ) (e : TaskEvaluation)
    → evaluate_task task as_of days soon ≡ ok e
    → (workday_distance as_of task.deadline days ≡ ok e.workdays_to_deadline)
      × (e.status ≡ status_of task as_of e.workdays_to_deadline soon)
unfolding evaluate_task
evaluate_ok task as_of days soon e h =
    let (d, found, same) =
      map_ok (workday_distance as_of task.deadline days)
        (λ d. record { status = status_of task as_of d soon; workdays_to_deadline = d }) e h in
    let days_left : d ≡ e.workdays_to_deadline =
      ap (λ (x : TaskEvaluation). x.workdays_to_deadline) same in
    (
      found ∙ ap ok days_left,
      sym (ap (λ (x : TaskEvaluation). x.status) same)
          ∙ ap (λ x. status_of task as_of x soon) days_left,
    )

-- A task is overdue exactly if it is not complete, not exempt on the day, and its deadline has
-- passed.
pub overdue_status :
    (task : TaskRuleInput) (as_of : ℕ) (days : List ℕ) (soon : ℕ) (e : TaskEvaluation)
    → evaluate_task task as_of days soon ≡ ok e
    → e.status ≡ TaskStatus.overdue
      ↔ ((task.progress ≢ 100) × (lasts task.exempt_until as_of ≡ false) × (task.deadline < as_of))
unfolding status_of
overdue_status task as_of days soon e h =
    let (distance, status) = evaluate_ok task as_of days soon e h in
    (
      λ late. (λ full. ground (arith, status), ground (arith, status), ground (arith, status)),
      λ k. ground (arith, status, k.0, k.1, k.2),
    )
