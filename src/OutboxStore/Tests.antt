-- ===== src/OutboxStore/Tests.antt =====
-- The theorems on the outbox at concrete tables, and runs of its functions.
use sd_platform.Common.{
  ◌+◌, ℕ, ◌≡◌, ◌≤◌, refl, Bool, true, false, [], ◌∷◌, map, none, some, arith, All, length, ok, err,
  runtime_error, IsKeyed, first_where, mem_ℕ, utc, inr,
}
use sd_platform.Db.{Uuid, Db, OutboxMessage, MessageState, DedupKey, empty_db}
use sd_platform.Outbox.{
  OutboxItem, DispatchResult, DispatchOutcome, OutboxHandler, Processor, Counts, run_once,
}
use sd_platform.OutboxStore.{claim, finish, ids, selected, sql_repository}
use sd_platform.OutboxStore.Claim.{IsClaimable, IsGranted, Precedes, claim_grants, claim_fair}
use sd_platform.OutboxStore.Leases.{at_once, then_claim, claim_exclusive}
use sd_platform.OutboxStore.Finish.{IsFinished, finish_fenced, finish_writes}
use sd_platform.OutboxStore.Delivery.{KeepsMessages, IsSettled}
use sd_platform.OutboxStore.Batch.{run_once_settles}

abbrev message : ℕ → ℕ → MessageState → OutboxMessage
message id due state = record {
  outbox_id = id;
  kind = "oa.complete_pending";
  dedup_key = DedupKey.submission id;
  payload = [];
  state = state;
  available_at = due;
  lease_until = none;
  attempt_count = 0;
  last_error_code = none;
  created_at = 0;
  updated_at = 0;
}

-- Three messages that may be claimed at 10, and a dead one.
abbrev waiting : Db
waiting = record empty_db {
  outbox_message =
      message 7 5 MessageState.pending
      ∷ message 8 3 MessageState.retry
      ∷ message 9 3 MessageState.pending
      ∷ message 4 1 MessageState.dead_letter
      ∷ [];
}

abbrev nobody : Uuid → Bool
nobody k = false

waiting-IsKeyed : IsKeyed (λ m. m.outbox_id) waiting.outbox_message
unfolding first_where
waiting-IsKeyed = (refl, (refl, (refl, (refl, tt))))

claims_two : map (λ i. i.outbox_id) (claim nobody 10 2 60 waiting).0 ≡ 8 ∷ 9 ∷ []
unfolding claim
claims_two = refl

claim_grants_example :
    All (IsGranted nobody 10 2 60 waiting) (claim nobody 10 2 60 waiting).0
    × (length (claim nobody 10 2 60 waiting).0 ≤ 2)
claim_grants_example = claim_grants nobody 10 2 60 waiting waiting-IsKeyed

left_out : IsClaimable nobody 10 (message 7 5 MessageState.pending)
left_out = record {
  not_sent = λ e. cc;
  not_dead = λ e. cc;
  due = omega arith;
  unleased = ground arith;
  unlocked = refl;
}

claim_fair_example :
    (length (claim nobody 10 2 60 waiting).0 ≡ 2)
    × All
        (λ r. Precedes r (message 7 5 MessageState.pending))
        (selected nobody 10 2 waiting.outbox_message)
unfolding first_where selected
claim_fair_example =
    claim_fair nobody 10 2 60 waiting (message 7 5 MessageState.pending) refl left_out refl

-- Another worker claims in between and gets nothing.
abbrev between : Db
between = (claim nobody 40 9 60 (claim nobody 10 2 60 waiting).1).1

claim_exclusive_example :
    All
      (λ item. mem_ℕ item.outbox_id (ids (selected nobody 10 2 waiting.outbox_message)) ≡ false)
      (claim nobody 69 9 60 between).0
claim_exclusive_example =
    claim_exclusive nobody 10 2 60 waiting between nobody 69 9 60 waiting-IsKeyed
      (then_claim at_once nobody 40 9 60 (omega arith) refl) (omega arith)

-- A message in its second attempt.
abbrev busy : OutboxMessage
busy = record (message 8 3 MessageState.processing) { attempt_count = 2; lease_until = some 90 }

abbrev working : Db
working = record empty_db { outbox_message = busy ∷ [] }

working-IsKeyed : IsKeyed (λ m. m.outbox_id) working.outbox_message
unfolding first_where
working-IsKeyed = (refl, tt)

abbrev item : ℕ → OutboxItem
item attempt = record {
  outbox_id = 8;
  kind = "oa.complete_pending";
  dedup_key = DedupKey.submission 8;
  payload = [];
  attempt = attempt;
  started_at = 30;
}

abbrev success : DispatchResult
success = record {
  success = true;
  status_code = some 200;
  error_code = none;
  redacted_error = none;
  retryable = true;
}

finish_fenced_example :
    finish 1 (item 1) success DispatchOutcome.sent 40 40 working
    ≡ err (runtime_error "outbox lease was lost")
unfolding first_where
finish_fenced_example =
    finish_fenced 1 (item 1) success DispatchOutcome.sent 40 40 working working-IsKeyed
      (inr (omega arith))

finish_writes_example :
    (db' : Db) × (finish 1 (item 2) success DispatchOutcome.sent 40 40 working ≡ ok (tt, db'))
    × IsFinished 1 (item 2) success DispatchOutcome.sent 40 40 working busy db'
unfolding first_where
finish_writes_example =
    finish_writes 1 (item 2) success DispatchOutcome.sent 40 40 working busy working-IsKeyed refl
      refl refl

-- A dispatcher whose every delivery succeeds.
abbrev always_ok : OutboxHandler Db
always_ok i db = (ok success, db)

always_ok-KeepsMessages : KeepsMessages always_ok
always_ok-KeepsMessages = record { keyed = λ i db h. h; stays = λ i db k m h. h }

abbrev processor : Processor
processor = record { max_attempts = 6; lease = 60 }

run_once_settles_example :
    (counts : Counts) × (db' : Db) × (run_once processor
        (sql_repository (λ db. nobody) (λ i db. 1))
        always_ok
        (utc 10)
        2
        waiting
      ≡ (ok counts, db'))
    × All (IsSettled db') (claim nobody 10 2 60 waiting).0
    × (counts.claimed ≡ length (claim nobody 10 2 60 waiting).0)
    × (counts.sent + counts.retry + counts.dead_letter ≡ counts.claimed)
run_once_settles_example =
    run_once_settles processor (λ db. nobody) (λ i db. 1) always_ok (utc 10) 2 waiting
      always_ok-KeepsMessages refl (omega arith) (omega arith) waiting-IsKeyed
