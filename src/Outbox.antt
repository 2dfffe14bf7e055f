-- ===== src/Outbox.antt =====
-- The delivery of durable commands (sd-agent/sd_agent/outbox/service.py): the router to the
-- registered handlers, the classification of a delivery's result, the backoff, and one batch.
-- A handler, a dispatcher and a repository act on a state `S`, which holds the tables and all else
-- that they can reach. A message that is claimed has an attempt count of at least 1; for 0 the
-- source's `30 * 2 ** -1` is 15 seconds.
mod Backoff
mod Tests
use sd_platform.Common.{
  ℕ, ◌+◌, ◌-◌, ◌*◌, ◌^◌, min, String, Bool, true, false, not, ◌&&◌, ◌||◌, List, [], ◌∷◌, Option,
  none, some, ltb, leb, ◌==◌, if◌then◌else◌, length, Exn, type_name, value_error, Result, ok, err,
  require, Instant, Datetime, seconds, require_utc, text_take,
}
use sd_platform.Common.Actions.{Exec, pure, lift, catch, ◌>>=◌, ◌>>◌}
use sd_platform.Db.{Uuid, Json, DedupKey}

pub data DispatchOutcome : Type 0 where
  sent retry dead_letter : DispatchOutcome

pub record OutboxItem : Type 0 where
  pub outbox_id : Uuid
  pub kind : String
  pub dedup_key : DedupKey
  pub payload : Json
  pub attempt : ℕ
  pub started_at : Instant

pub record DispatchResult : Type 0 where
  pub success : Bool
  pub status_code : Option ℕ
  pub error_code : Option String
  pub redacted_error : Option String
  pub retryable : Bool

abbrev pub OutboxHandler : Type 0 → Type 0
OutboxHandler S = OutboxItem → Exec S DispatchResult

pub record OutboxRepository (S : Type 0) : Type 0 where
  pub claim : (now : Instant) (batch_size lease : ℕ) → Exec S (List OutboxItem)
  pub finish :
      OutboxItem
      → DispatchResult
      → DispatchOutcome
      → (available_at now : Instant) → Exec S (Unit {0})

abbrev pub unsupported : OutboxItem → DispatchResult
unsupported item = record {
  success = false;
  status_code = none;
  error_code = some "OUTBOX_KIND_UNSUPPORTED";
  redacted_error = some (text_take 128 item.kind);
  retryable = false;
}

-- `HandlerOutboxDispatcher.dispatch`: only a registered kind reaches a handler.
unfoldable pub dispatch : {S : Type 0} → (String → Option (OutboxHandler S)) → OutboxHandler S
dispatch handlers item = elim (handlers item.kind) [
  | none ↦ pure (unsupported item)
  | some handler ↦ handler item
]

pub record Processor : Type 0 where
  pub max_attempts : ℕ
  pub lease : ℕ

-- `OutboxProcessor.__init__`
unfoldable pub new_processor : (max_attempts lease_seconds : ℕ) → Result Processor
new_processor max_attempts lease_seconds =
    if ltb max_attempts 1 || ltb lease_seconds 5
    then err (value_error "invalid outbox retry configuration")
    else ok (record { max_attempts = max_attempts; lease = seconds lease_seconds })

unfoldable pub delay_seconds : ℕ → ℕ
delay_seconds attempt = if attempt == 0 then 15 else min (30 * 2 ^ (attempt - 1)) 3600

-- `OutboxProcessor._outcome`
unfoldable pub outcome_of :
    Processor → OutboxItem → DispatchResult → Instant → DispatchOutcome × Instant
outcome_of p item result now =
    if result.success
    then (DispatchOutcome.sent, now)
    else if not result.retryable
    then (DispatchOutcome.dead_letter, now)
    else if leb p.max_attempts item.attempt
    then (DispatchOutcome.dead_letter, now)
    else (DispatchOutcome.retry, now + seconds (delay_seconds item.attempt))

pub record Counts : Type 0 where
  pub claimed : ℕ
  pub sent : ℕ
  pub retry : ℕ
  pub dead_letter : ℕ

-- `counts[outcome.value] += 1`
unfoldable pub count : DispatchOutcome → Counts → Counts
count DispatchOutcome.sent c = record c { sent = c.sent + 1 }
count DispatchOutcome.retry c = record c { retry = c.retry + 1 }
count DispatchOutcome.dead_letter c = record c { dead_letter = c.dead_letter + 1 }

-- The result that stands for an exception of the dispatcher.
abbrev pub exception_result : Exn → DispatchResult
exception_result e = record {
  success = false;
  status_code = none;
  error_code = some "DISPATCH_EXCEPTION";
  redacted_error = some (type_name e);
  retryable = true;
}

module _ {S : Type 0} (p : Processor) (repository : OutboxRepository S)
    (send : OutboxHandler S) where
  unfoldable pub attempt_dispatch : OutboxHandler S
  attempt_dispatch item = catch (send item) (λ e. pure (exception_result e))

  -- One round of the loop of `run_once`.
  unfoldable pub deliver : Instant → OutboxItem → Exec S DispatchOutcome
  deliver now item = do
    result ← attempt_dispatch item
    let (outcome, available_at) = outcome_of p item result now
    repository.finish item result outcome available_at now
    pure outcome

  unfoldable pub deliver_batch : Instant → Counts → List OutboxItem → Exec S Counts
  deliver_batch now counts [] = pure counts
  deliver_batch now counts (item ∷ items) = do
    outcome ← deliver now item
    deliver_batch now (count outcome counts) items

  -- `OutboxProcessor.run_once`
  unfoldable pub run_once : Datetime → ℕ → Exec S Counts
  run_once now batch_size = do
    current_time ← lift (require_utc now)
    lift (
        require (leb 1 batch_size && leb batch_size 100)
          (value_error "batch_size must be between 1 and 100"))
    items ← repository.claim current_time batch_size p.lease
    deliver_batch current_time
        (record { claimed = length items; sent = 0; retry = 0; dead_letter = 0 }) items
