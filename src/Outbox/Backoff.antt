-- ===== src/Outbox/Backoff.antt =====
-- The classification of a delivery's result and the exponential backoff
-- (`OutboxProcessor._outcome`).
use native.Mathlib.Nat.{pow-suc}
use sd_platform.Common.{
  ℕ, zero, suc, ◌+◌, ◌*◌, ◌^◌, ◌-◌, ◌≤◌, ◌<◌, min, ◌≡◌, ◌≢◌, ◌⊎◌, ◌↔◌, true, false, arith, Instant,
  seconds,
}
use sd_platform.Outbox.{
  DispatchOutcome, OutboxItem, DispatchResult, Processor, delay_seconds, outcome_of,
}

pow_pos : (n : ℕ) → 1 ≤ 2 ^ n
pow_pos zero = omega arith
pow_pos (suc n) = rw pow-suc (omega (arith, pow_pos n))

-- The backoff is at least 15 seconds and at most an hour; from the first attempt on it is at least
-- 30 seconds.
delay_bounds :
    (attempt : ℕ) → 1 ≤ attempt → (30 ≤ delay_seconds attempt) × (delay_seconds attempt ≤ 3600)
unfolding delay_seconds
delay_bounds attempt h = ground (arith, pow_pos (attempt - 1))

pred_suc : (n : ℕ) → suc n - 1 ≡ n
pred_suc n = omega arith

delay_suc : (n : ℕ) → delay_seconds (suc n) ≡ min (30 * 2 ^ n) 3600
unfolding delay_seconds
delay_suc n = rw (pred_suc n) (ground arith)

-- The first delay is 30 seconds, and each further attempt doubles the delay, up to an hour.
pub delay_doubles :
    (n : ℕ)
    → (delay_seconds 1 ≡ 30) × (delay_seconds (suc (suc n)) ≡ min (2 * delay_seconds (suc n)) 3600)
delay_doubles n = (delay_suc 0, rw (delay_suc (suc n), delay_suc n, pow-suc) (omega arith))

-- A delivery is to be tried again exactly if it failed, may be retried, and the attempts are not
-- used up; it is dead exactly if it failed and may not be retried or was the last; it is sent
-- exactly if it succeeded.
pub outcome_exact :
    (p : Processor) (item : OutboxItem) (result : DispatchResult) (now : Instant)
    → let outcome = (outcome_of p item result now).0 in
      ((outcome ≡ DispatchOutcome.sent) ↔ (result.success ≡ true))
      × ((outcome ≡ DispatchOutcome.retry) ↔ (
          (result.success ≡ false) × (result.retryable ≡ true) × (item.attempt < p.max_attempts)))
      × ((outcome ≡ DispatchOutcome.dead_letter) ↔ (
          (result.success ≡ false)
          × ((result.retryable ≡ false) ⊎ (p.max_attempts ≤ item.attempt))))
unfolding outcome_of
outcome_exact p item result now = grind arith

-- Of an item in its first or a later attempt, a retry is due between 30 seconds and an hour after
-- the delivery, and any other outcome leaves the due time at the delivery.
pub retry_window :
    (p : Processor) (item : OutboxItem) (result : DispatchResult) (now : Instant)
    → 1 ≤ item.attempt
    → let due = (outcome_of p item result now).1 in
      ((outcome_of p item result now).0 ≢ DispatchOutcome.retry × (due ≡ now))
      ⊎ ((outcome_of p item result now).0 ≡ DispatchOutcome.retry
          × (now + seconds 30 ≤ due)
          × (due ≤ now + seconds 3600))
unfolding outcome_of
retry_window p item result now h = ground (arith, delay_bounds item.attempt)
