-- ===== src/Reconciliation/Job.antt =====
-- The end of one recovered command, and the job over a batch of them
-- (`_SqlReconciliationClaim.complete` and `ReconciliationHandler` of
-- sd-agent/sd_agent/jobs/reconciliation.py).
use sd_platform.Common.{
  ℕ, ◌+◌, ◌-◌, ℤ, pos, String, Bool, true, false, not, ◌&&◌, ◌||◌, List, [], ◌∷◌, ◌++◌, none, some,
  ltb, leb, ◌==◌, if◌then◌else◌, length, other, runtime_error, value_error, Exn, Result, ok, err,
  or_raise, require, Instant, Datetime, minutes, update_where, exists_where,
}
use sd_platform.Common.Actions.{Exec, pure, lift, ◌>>=◌, ◌>>◌}
use sd_platform.Db.{Uuid, DedupKey, same_key, Db}
use sd_platform.World.{World, outside, on_tables}
use sd_platform.Report.{TaskSnapshot, is_nil}
use sd_platform.SubmissionStore.{is_bindable, bound, files_are_clean}
use sd_platform.Reconciliation.{
  ReconciliationCandidate, ProgressRecovery, ReconciliationGateway, candidate_of, list_candidates,
  claim_command, validate_recovery, reconciled, reconcile_event, recovery_message,
}

abbrev pub guarded {ℓ} : {A : Type ℓ} → Bool → Exn → Result A → Result A
guarded true e r = r
guarded false e r = err e

-- `_SqlReconciliationClaim.complete` with the commit of its transaction. A second message with one
-- dedup key breaks the unique constraint of the outbox.
unfoldable pub complete_claim :
    (request_id : Uuid → String) (event_id outbox_id : Uuid)
    → ReconciliationCandidate
    → ProgressRecovery
    → Instant
    → Db
    → Result (Unit {0} × Db)
complete_claim request_id event_id outbox_id candidate recovery now db =
    guarded
      (is_nil recovery.file_ids
        || files_are_clean recovery.file_ids candidate.task_id candidate.person_id db)
      (runtime_error "RECONCILIATION_FILE_BINDING_CHANGED")
      (guarded
        (not (
          exists_where (λ m. same_key m.dedup_key (DedupKey.submission candidate.command_id))
            db.outbox_message))
        (other "IntegrityError")
        (ok (
          tt,
          record db {
            file_object =
                update_where (is_bindable candidate.person_id candidate.task_id recovery.file_ids)
                  (bound candidate.task_id now) db.file_object;
            submission_command =
                update_where (λ c. c.command_id == candidate.command_id)
                  (reconciled candidate recovery now) db.submission_command;
            audit_event =
                db.audit_event ++ reconcile_event request_id event_id candidate recovery now ∷ [];
            outbox_message =
                db.outbox_message ++ recovery_message outbox_id candidate recovery now ∷ [];
          },
        )))

pub record ReconciliationCounts : Type 0 where
  pub candidates : ℕ
  pub locked : ℕ
  pub missing_progress : ℕ
  pub already_current : ℕ
  pub task_updated : ℕ
  pub recovered : ℕ

abbrev pub counted_pairs : ReconciliationCounts → List (String × ℤ)
counted_pairs c =
    ("candidates", pos c.candidates)
    ∷ ("locked", pos c.locked)
    ∷ ("missing_progress", pos c.missing_progress)
    ∷ ("already_current", pos c.already_current)
    ∷ ("task_updated", pos c.task_updated)
    ∷ ("recovered", pos c.recovered)
    ∷ []

pub record Settings : Type 0 where
  pub stale_after : ℕ
  pub batch_size : ℕ

-- `ReconciliationHandler.__init__`
unfoldable pub new_handler : (stale_after batch_size : ℕ) → Result Settings
new_handler stale_after batch_size =
    if ltb stale_after (minutes 1) || not (leb 1 batch_size && leb batch_size 500)
    then err (value_error "invalid reconciliation configuration")
    else ok (record { stale_after = stale_after; batch_size = batch_size })

module _ {W : Type 0} (gateway : ReconciliationGateway W) (free : Db → Uuid → Bool)
    (request_id : Uuid → String) (event_id outbox_id : Db → Uuid) where
  unfoldable pub bring_up :
      ReconciliationCandidate → ProgressRecovery → TaskSnapshot → Exec (World W) (Unit {0})
  bring_up candidate recovery task = do
    updated ← outside (
        gateway.update_task_progress task recovery.progress (task.revision + 1)
          candidate.command_id)
    lift (
        require (updated.progress == recovery.progress && updated.revision == task.revision + 1)
          (runtime_error "RECONCILIATION_WRITE_UNCONFIRMED"))

  -- The task is brought to the recovered progress, unless it is there already.
  unfoldable pub catch_up :
      ReconciliationCandidate
      → ProgressRecovery
      → TaskSnapshot
      → ReconciliationCounts
      → Exec (World W) ReconciliationCounts
  catch_up candidate recovery task counts =
      if ltb task.progress recovery.progress
      then bring_up candidate recovery task
        >> pure (record counts { task_updated = counts.task_updated + 1 })
      else pure (record counts { already_current = counts.already_current + 1 })

  -- `held` is the candidate of the row that the claim holds.
  unfoldable pub recover :
      (candidate held : ReconciliationCandidate)
      → Instant
      → ReconciliationCounts
      → ProgressRecovery
      → Exec (World W) ReconciliationCounts
  recover candidate held now counts recovery = do
    lift (validate_recovery candidate recovery)
    found ← outside (gateway.get_task candidate.task_id)
    task ← lift (or_raise found (runtime_error "RECONCILIATION_TASK_MISSING"))
    current ← catch_up candidate recovery task counts
    on_tables λ db. complete_claim request_id (event_id db) (outbox_id db) held recovery now db
    pure (record current { recovered = current.recovered + 1 })

  -- One round of the loop.
  unfoldable pub visit :
      (before now : Instant)
      → ReconciliationCounts
      → ReconciliationCandidate
      → Exec (World W) ReconciliationCounts
  visit before now counts candidate s =
      elim (claim_command (free s.db candidate.command_id) candidate before s.db) [
        | none ↦ pure (record counts { locked = counts.locked + 1 }) s
        | some row ↦
            (do
              found ← outside (gateway.find_recovery candidate.command_id)
              elim found [
                | none ↦ pure (record counts { missing_progress = counts.missing_progress + 1 })
                | some recovery ↦ recover candidate (candidate_of row) now counts recovery
              ])
              s
      ]

  unfoldable pub visit_all :
      (before now : Instant)
      → ReconciliationCounts
      → List ReconciliationCandidate
      → Exec (World W) ReconciliationCounts
  visit_all before now counts [] = pure counts
  visit_all before now counts (c ∷ cs) = do
    counted ← visit before now counts c
    visit_all before now counted cs

  -- `ReconciliationHandler.__call__`
  unfoldable pub reconcile : Settings → Datetime → Exec (World W) (List (String × ℤ))
  reconcile settings scheduled_for s =
      let before = scheduled_for.instant - settings.stale_after in
      let candidates = list_candidates before settings.batch_size s.db in
      let start : ReconciliationCounts = record {
        candidates = length candidates;
        locked = 0;
        missing_progress = 0;
        already_current = 0;
        task_updated = 0;
        recovered = 0;
      } in
      (do
        counts ← visit_all before scheduled_for.instant start candidates
        pure (counted_pairs counts))
        s
