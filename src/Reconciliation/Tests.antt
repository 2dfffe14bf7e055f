-- ===== src/Reconciliation/Tests.antt =====
-- A report whose progress was written to the task table when the service stopped.
use sd_platform.Common.{
  ◌≡◌, ◌≢◌, refl, [], ◌∷◌, some, true, Bool, String, ok, require_utc, first_where, update_where,
  arith, split_words, join_words, pieces, nonempty,
}
use sd_platform.Db.{Uuid, Db, SubmissionCommand, empty_db}
use sd_platform.World.{World}
use sd_platform.Report.{TaskSnapshot, normalized}
use sd_platform.SubmissionStore.{new_command, files_are_clean}
use sd_platform.Submission.{submit}
use sd_platform.Submission.Samples.{gateway, road, report, hash, call}
use sd_platform.Reconciliation.{
  ProgressRecovery, ReconciliationGateway, candidate_of, claim_command, validate_recovery,
}
use sd_platform.Reconciliation.Job.{
  ReconciliationCounts, complete_claim, bring_up, catch_up, recover, visit,
}
use sd_platform.Reconciliation.Recovered.{recovered_answers}

abbrev stopped : SubmissionCommand
stopped = new_command 610 500 7 3 "the road is repaired" 10

abbrev progress : ProgressRecovery
progress = record {
  record_id = "rec_9";
  log_id = 77;
  command_id = 610;
  task_id = 3;
  reporter_id = 7;
  progress = 60;
  file_ids = [];
}

abbrev table : ReconciliationGateway TaskSnapshot
table = record {
  find_recovery = λ id w. (ok (some progress), w);
  get_task = λ id w. (ok (some w), w);
  update_task_progress = λ task p revision key w. (
    ok (record task { progress = p; revision = revision }),
    record task { progress = p; revision = revision },
  );
}

abbrev free : Db → Uuid → Bool
free db id = true

abbrev request_id : Uuid → String
request_id id = "reconcile:610"

abbrev event_id : Db → Uuid
event_id db = 900

abbrev outbox_id : Db → Uuid
outbox_id db = 901

abbrev start : World TaskSnapshot
start = record { db = record empty_db { submission_command = stopped ∷ [] }; outside = road }

abbrev none_yet : ReconciliationCounts
none_yet = record {
  candidates = 1;
  locked = 0;
  missing_progress = 0;
  already_current = 0;
  task_updated = 0;
  recovered = 0;
}

abbrev one_done : ReconciliationCounts
one_done = record none_yet { task_updated = 1; recovered = 1 }

abbrev final : World TaskSnapshot
final =
    (visit table free request_id event_id outbox_id 20 30 none_yet (candidate_of stopped) start).1

visits :
    visit table free request_id event_id outbox_id 20 30 none_yet (candidate_of stopped) start
    ≡ (ok one_done, final)
unfolding visit claim_command candidate_of recover validate_recovery catch_up bring_up
    complete_claim first_where update_where files_are_clean
visits = refl

counted : one_done.recovered ≢ none_yet.recovered
counted = omega arith

recovered_answers_example :
    (recovery : ProgressRecovery) × (w : TaskSnapshot) × (table.find_recovery 610 start.outside
      ≡ (ok (some recovery), w))
    × (submit gateway hash (call 40) report final
        ≡ (ok (record { submission_id = 610; log_id = recovery.log_id }), final))
unfolding claim_command candidate_of first_where require_utc normalized split_words pieces nonempty
    join_words
recovered_answers_example =
    recovered_answers table free request_id event_id outbox_id gateway hash 20 30 none_yet one_done
      (candidate_of stopped) stopped start final (call 40) report 40 refl refl visits counted refl
      refl refl refl refl
