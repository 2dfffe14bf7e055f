-- ===== src/Submission/Tests.antt =====
-- One report, from its submission to its repetition, and the theorems on submissions at it.
use sd_platform.Common.{
  ◌≡◌, refl, ok, err, some, [], ◌∷◌, require_utc, false, first_where, update_where, split_words,
  join_words, sorted_set, pieces, nonempty, arith,
}
use sd_platform.Db.{empty_db, SubmissionCommand}
use sd_platform.Report.{
  SubmissionInput, normalized, TaskSnapshot, submission_error, validate_request, all_file_ids,
  is_fresh, is_authorized,
}
use sd_platform.SubmissionStore.{
  reserve, insert_command, mark_teable_written, written, files_are_clean, complete, committed,
  all_found, new_command,
}
use sd_platform.World.{World}
use sd_platform.Submission.{
  submit, resume, proceed, checked, progress_write, update_task, confirmed, validate_command,
}
use sd_platform.Submission.Again.{submit_again}
use sd_platform.Submission.Effects.{IsSubmitted, submit_effects}
use sd_platform.Submission.Refused.{submit_conflict, submit_refused, refusal_of}
use sd_platform.SubmissionStore.Whole.{AllWhole}
use sd_platform.Submission.Whole.{submit-AllWhole}
use sd_platform.Submission.Samples.{gateway, road, report, hash, call, start, answer, final}

submits : submit gateway hash (call 10) report start ≡ (ok answer, final)
unfolding submit resume proceed checked progress_write update_task confirmed validate_command
    normalized split_words pieces nonempty join_words sorted_set reserve insert_command
    mark_teable_written files_are_clean complete validate_request all_file_ids is_fresh
    is_authorized first_where update_where written committed all_found require_utc
submits = refl

submit_again_example : submit gateway hash (call 20) report final ≡ (ok answer, final)
unfolding require_utc
submit_again_example =
    submit_again gateway hash (call 10) (call 20) report start answer final 20 tt submits refl refl
      refl

submit_effects_example :
    IsSubmitted gateway (call 10) (normalized report) 10 start.outside start.db final.db answer
unfolding require_utc first_where
submit_effects_example =
    submit_effects gateway hash (call 10) report 10 start answer final refl refl submits

abbrev used : SubmissionCommand
used = new_command 600 500 7 4 "another report" 5

abbrev taken : World TaskSnapshot
taken = record { db = record empty_db { submission_command = used ∷ [] }; outside = road }

submit_conflict_example :
    submit gateway hash (call 10) report taken
    ≡ (err (submission_error "IDEMPOTENCY_CONFLICT" 409), taken)
unfolding require_utc first_where normalized split_words pieces nonempty join_words
submit_conflict_example =
    submit_conflict gateway hash (call 10) report 10 taken used refl refl
      (λ h. let other_task : 4 ≡ 3 = h.2 in omega arith)

abbrev backward : SubmissionInput
backward = record report { progress = 30 }

abbrev after_refusal : TaskSnapshot → World TaskSnapshot
after_refusal =
    refusal_of gateway hash (call 10) backward 10 start "PROGRESS_REGRESSION_REQUIRES_REVIEW"

submit_refused_example :
    (submit gateway hash (call 10) backward start
      ≡ (err (submission_error "PROGRESS_REGRESSION_REQUIRES_REVIEW" 409), after_refusal road))
    × ((v : TaskSnapshot)
        → submit gateway hash (call 20) backward (after_refusal v)
          ≡ (err (submission_error "PROGRESS_REGRESSION_REQUIRES_REVIEW" 409), after_refusal v))
unfolding require_utc first_where normalized split_words pieces nonempty join_words sorted_set
    validate_request all_file_ids files_are_clean all_found
submit_refused_example =
    submit_refused gateway hash (call 10) backward 10 start (some road) road "SubmissionError"
      "PROGRESS_REGRESSION_REQUIRES_REVIEW" 409 false (call 20) 20 refl refl refl refl refl refl
      refl

submit-AllWhole_example : AllWhole (submit gateway hash (call 10) backward start).1.db
submit-AllWhole_example = submit-AllWhole gateway hash (call 10) backward start tt
