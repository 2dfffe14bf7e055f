-- ===== src/Reconciliation/Recovered.antt =====
-- A report whose command the job recovered, sent again with its key (`ReconciliationHandler` with
-- `SubmissionService.submit`).
use sd_platform.Common.{
  ◌≡◌, ◌≢◌, refl, ap, sym, ◌∙◌, ◌+◌, String, Bool, ltb, ◌==◌, eq→==, some, arith, inl, inr, Result,
  ok, err, Instant, require_utc, or_raise, Option-cases, Bool-cases, first_where-update,
  update_where, runtime_error,
}
use sd_platform.Common.Actions.{lift, bind_ok}
use sd_platform.Db.{Uuid, Db, SubmissionCommand}
use sd_platform.World.{outside_ok, World, outside, world_of, on_tables, committed}
use sd_platform.Report.{SubmissionInput, normalized, TaskSnapshot}
use sd_platform.SubmissionStore.{command_of, with_key}
use sd_platform.Submission.{SubmissionGateway, Call, submit}
use sd_platform.Submission.Again.{answered_again}
use sd_platform.Reconciliation.{
  ReconciliationCandidate, ProgressRecovery, ReconciliationGateway, candidate_of, claim_command,
  validate_recovery, reconciled, recovered_result,
}
use sd_platform.Reconciliation.Job.{
  ReconciliationCounts, complete_claim, bring_up, catch_up, recover, visit,
}

module _ {W A : Type 0} where
  -- A call of the other system leaves the tables alone.
  world_db :
      (db : Db) (r : Result A × W) (a : Result A) (t : World W) → world_of db r ≡ (a, t) → t.db ≡ db
  world_db db (r, w) a t e = ap (λ (p : Result A × World W). p.1.db) (sym e)

  -- A transaction that gives a value has committed.
  committed_ok :
      (s : World W) (r : Result (A × Db)) (a : A) (t : World W)
      → committed s r ≡ (ok a, t)
      → r ≡ ok (a, t.db)
  committed_ok s (ok (a', db)) a t e = ground (arith, e)
  committed_ok s (err x) a t e = cc

-- What the end of a recovered command writes to the commands.
complete_claim-rows :
    (request_id : Uuid → String) (event_id outbox_id : Uuid) (held : ReconciliationCandidate)
    (recovery : ProgressRecovery) (now : Instant) (db db' : Db)
    → complete_claim request_id event_id outbox_id held recovery now db ≡ ok (tt, db')
    → db'.submission_command
      ≡ update_where
          (λ c. c.command_id == held.command_id)
          (reconciled held recovery now)
          db.submission_command
unfolding complete_claim
complete_claim-rows request_id event_id outbox_id held recovery now db db' e = ground (arith, e)

module _ {W : Type 0} (gateway : ReconciliationGateway W) (free : Db → Uuid → Bool)
    (request_id : Uuid → String) (event_id outbox_id : Db → Uuid) where
  bring_up_db :
      (candidate : ReconciliationCandidate) (recovery : ProgressRecovery) (task : TaskSnapshot)
      (s t : World W)
      → bring_up gateway free request_id event_id outbox_id candidate recovery task s ≡ (ok tt, t)
      → t.db ≡ s.db
  unfolding bring_up
  bring_up_db candidate recovery task s t e =
      let call =
        gateway.update_task_progress task recovery.progress (task.revision + 1)
          candidate.command_id in
      let (updated, s1, e1, e2) = bind_ok (outside call) _ s tt t e in
      ap (λ (p : Result (Unit {0}) × World W). p.1.db) (sym e2)
      ∙ world_db s.db (call s.outside) (ok updated) s1 e1

  catch_up_db :
      (candidate : ReconciliationCandidate) (recovery : ProgressRecovery) (task : TaskSnapshot)
      (counts counts' : ReconciliationCounts) (s t : World W)
      → catch_up gateway free request_id event_id outbox_id candidate recovery task counts s
        ≡ (ok counts', t)
      → t.db ≡ s.db
  unfolding catch_up
  catch_up_db candidate recovery task counts counts' s t e =
      elim (Bool-cases (ltb task.progress recovery.progress)) [
        | inl behind ↦
            let (u, s1, e1, e2) =
              bind_ok (bring_up gateway free request_id event_id outbox_id candidate recovery task)
                _ s counts' t (rw (behind, catch_up) at e) in
            ap (λ (p : Result ReconciliationCounts × World W). p.1.db) (sym e2)
            ∙ bring_up_db candidate recovery task s s1 e1
        | inr there ↦
            ap (λ (p : Result ReconciliationCounts × World W). p.1.db)
              (sym (rw (there, catch_up) at e))
      ]

  recovered_rows :
      (candidate held : ReconciliationCandidate) (now : Instant)
      (counts counts' : ReconciliationCounts) (recovery : ProgressRecovery) (s t : World W)
      → recover gateway free request_id event_id outbox_id candidate held now counts recovery s
        ≡ (ok counts', t)
      → t.db.submission_command
        ≡ update_where
            (λ c. c.command_id == held.command_id)
            (reconciled held recovery now)
            s.db.submission_command
  unfolding recover
  recovered_rows candidate held now counts counts' recovery s t e =
      let (u, s1, e1, r1) = bind_ok (lift (validate_recovery candidate recovery)) _ s counts' t e in
      let (found, s2, e2, r2) =
        bind_ok (outside (gateway.get_task candidate.task_id)) _ s1 counts' t r1 in
      let (task, s3, e3, r3) =
        bind_ok (lift (or_raise found (runtime_error "RECONCILIATION_TASK_MISSING"))) _ s2 counts' t
          r2 in
      let (current, s4, e4, r4) =
        bind_ok (catch_up gateway free request_id event_id outbox_id candidate recovery task counts)
          _ s3 counts' t r3 in
      let (v, s5, e5, r5) =
        bind_ok
          (on_tables
            λ db. complete_claim request_id (event_id db) (outbox_id db) held recovery now db)
          _ s4 counts' t r4 in
      let kept : s4.db ≡ s.db =
        catch_up_db candidate recovery task counts current s3 s4 e4
        ∙ ap (λ (p : Result TaskSnapshot × World W). p.1.db) (sym e3)
        ∙ world_db s1.db (gateway.get_task candidate.task_id s1.outside) (ok found) s2 e2
        ∙ ap (λ (p : Result (Unit {0}) × World W). p.1.db) (sym e1) in
      let rows =
        complete_claim-rows request_id (event_id s4.db) (outbox_id s4.db) held recovery now s4.db
          s5.db
          (committed_ok s4
            (complete_claim request_id (event_id s4.db) (outbox_id s4.db) held recovery now s4.db)
            tt s5 e5) in
      ap (λ (p : Result ReconciliationCounts × World W). p.1.db.submission_command) (sym r5)
      ∙ rows
      ∙ ap
          (λ (d : Db).
            update_where (λ c. c.command_id == held.command_id) (reconciled held recovery now)
              d.submission_command)
          kept

  -- A visit that recovers a command found its progress in the task table.
  visit_recovered :
      (before now : Instant) (counts counts' : ReconciliationCounts)
      (candidate : ReconciliationCandidate) (row : SubmissionCommand) (s t : World W)
      → claim_command (free s.db candidate.command_id) candidate before s.db ≡ some row
      → visit gateway free request_id event_id outbox_id before now counts candidate s
        ≡ (ok counts', t)
      → counts'.recovered ≢ counts.recovered
      → (recovery : ProgressRecovery) × (w : W) × (gateway.find_recovery candidate.command_id
            s.outside
          ≡ (ok (some recovery), w))
        × (t.db.submission_command
            ≡ update_where
                (λ c. c.command_id == row.command_id)
                (reconciled (candidate_of row) recovery now)
                s.db.submission_command)
  unfolding visit candidate_of
  visit_recovered before now counts counts' candidate row s t claimed e more =
      let (found, s1, e1, r1) =
        bind_ok (outside (gateway.find_recovery candidate.command_id)) _ s counts' t
          (rw (claimed, visit) at e) in
      elim (Option-cases found) [
        | inl absent ↦ absurd (more (missing (rw absent at r1)))
        | inr (recovery, there) ↦ (
          recovery,
          s1.outside,
          (outside_ok (gateway.find_recovery candidate.command_id) s found s1 e1).0
              ∙ ap (λ f. (ok f, s1.outside)) there,
          recovered_rows candidate (candidate_of row) now counts counts' recovery s1 t
                (rw there at r1)
              ∙ ap
                  (λ (d : Db).
                    update_where (λ c. c.command_id == row.command_id)
                      (reconciled (candidate_of row) recovery now) d.submission_command)
                  (world_db s.db (gateway.find_recovery candidate.command_id s.outside) (ok found)
                    s1 e1),
        )
      ]
    where
      missing :
          {u : World W}
          → ◌≡◌ {A = Result ReconciliationCounts × World W}
              (ok (record counts { missing_progress = counts.missing_progress + 1 }), u)
              (ok counts', t)
          → counts'.recovered ≡ counts.recovered
      missing same = ground (arith, same)

  -- A report that stopped half way, whose command the job recovered, is answered when it is sent
  -- again with its key by its person: with the command's id and the number of the progress record
  -- that the task table gave for it, and nothing is written again. The command is the one of its key, and the report
  -- and its person are those that the command was made for.
  pub recovered_answers :
      (submission : SubmissionGateway W) (payload_hash : SubmissionInput → String)
      (before now : Instant) (counts counts' : ReconciliationCounts)
      (candidate : ReconciliationCandidate) (row : SubmissionCommand) (s t : World W) (call : Call)
      (request : SubmissionInput) (now' : Instant)
      → claim_command (free s.db candidate.command_id) candidate before s.db ≡ some row
      → command_of row.idempotency_key s.db.submission_command ≡ some row
      → visit gateway free request_id event_id outbox_id before now counts candidate s
        ≡ (ok counts', t)
      → counts'.recovered ≢ counts.recovered
      → call.key ≡ row.idempotency_key
      → payload_hash (normalized request) ≡ row.payload_hash
      → call.user.person_id ≡ row.person_id
      → request.task_id ≡ row.task_id
      → require_utc call.now ≡ ok now'
      → (recovery : ProgressRecovery) × (w : W) × (gateway.find_recovery candidate.command_id
            s.outside
          ≡ (ok (some recovery), w))
        × (submit submission payload_hash call request t
            ≡ (ok (record { submission_id = row.command_id; log_id = recovery.log_id }), t))
  unfolding candidate_of
  recovered_answers submission payload_hash before now counts counts' candidate row s t call request
        now' claimed keyed e more key hash person task utc =
      let (recovery, w, there, rows) =
        visit_recovered before now counts counts' candidate row s t claimed e more in
      (
        recovery,
        w,
        there,
        answered_again submission payload_hash call request t
            (recovered_result (candidate_of row) recovery) now' utc
            (record {
              row = reconciled (candidate_of row) recovery now row;
              found =
                  ap (λ k. command_of k t.db.submission_command) key
                  ∙ ap (command_of row.idempotency_key) rows
                  ∙ first_where-update (with_key row.idempotency_key)
                      (λ c. c.command_id == row.command_id)
                      (reconciled (candidate_of row) recovery now) (λ c. refl)
                      s.db.submission_command
                  ∙ rw keyed (rw (eq→== row.command_id row.command_id refl));
              state = refl;
              result = refl;
              hash = sym hash;
              person = sym person;
              task = sym task;
            }),
      )
