-- ===== src/Outbox/Tests.antt =====
-- The theorems on outcomes and delays at concrete deliveries.
use sd_platform.Common.{
  ◌≡◌, ◌≢◌, ◌≤◌, ◌+◌, ◌⊎◌, ◌↔◌, refl, arith, seconds, true, false, none, some, [], min, ◌*◌, ◌<◌,
}
use sd_platform.Db.{DedupKey}
use sd_platform.Outbox.{
  DispatchOutcome, OutboxItem, DispatchResult, Processor, outcome_of, delay_seconds,
}
use sd_platform.Outbox.Backoff.{outcome_exact, retry_window, delay_doubles}

abbrev processor : Processor
processor = record { max_attempts = 6; lease = seconds 60 }

abbrev third : OutboxItem
third = record {
  outbox_id = 1;
  kind = "oa.send_urge";
  dedup_key = DedupKey.submission 1;
  payload = [];
  attempt = 3;
  started_at = 0;
}

abbrev limited : DispatchResult
limited = record {
  success = false;
  status_code = some 429;
  error_code = some "OA_RATE_LIMITED";
  redacted_error = none;
  retryable = true;
}

third_delay : delay_seconds 3 ≡ 120
unfolding delay_seconds
third_delay = refl

outcome_exact_example :
    let outcome = (outcome_of processor third limited 50).0 in
    ((outcome ≡ DispatchOutcome.sent) ↔ (◌≡◌ {A = _} false true))
    × ((outcome ≡ DispatchOutcome.retry)
        ↔ ((◌≡◌ {A = _} false false) × (◌≡◌ {A = _} true true) × (3 < 6)))
    × ((outcome ≡ DispatchOutcome.dead_letter)
        ↔ ((◌≡◌ {A = _} false false) × ((◌≡◌ {A = _} true false) ⊎ (6 ≤ 3))))
outcome_exact_example = outcome_exact processor third limited 50

delay_doubles_example : (delay_seconds 1 ≡ 30) × (delay_seconds 4 ≡ min (2 * delay_seconds 3) 3600)
delay_doubles_example = delay_doubles 2

retry_window_example :
    let due = (outcome_of processor third limited 50).1 in
    (((outcome_of processor third limited 50).0 ≢ DispatchOutcome.retry) × (due ≡ 50))
    ⊎ (((outcome_of processor third limited 50).0 ≡ DispatchOutcome.retry)
        × (50 + seconds 30 ≤ due)
        × (due ≤ 50 + seconds 3600))
retry_window_example = retry_window processor third limited 50 (omega arith)
