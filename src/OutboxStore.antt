-- ===== src/OutboxStore.antt =====
-- The outbox in PostgreSQL (sd-agent/sd_agent/persistence/outbox.py). Each function is one
-- transaction over the tables. `locked` says which rows another transaction holds locked, which a
-- claim skips; the UUID that a finish draws for its attempt is an argument.
pub mod Claim
pub mod Leases
pub mod Finish
mod Delivery
mod Batch
mod Tests
use sd_platform.Common.{
  ℕ, ◌+◌, Bool, true, false, ◌&&◌, ◌||◌, not, List, [], ◌∷◌, ◌++◌, map, Option, none, some, ltb,
  leb, ◌==◌, take, mem_ℕ, runtime_error, Result, ok, or_raise, ◌>>=◌, Instant, select_where,
  first_where, update_where, order_by, row_of, text_take, or_none, or_default,
}
use sd_platform.Common.Actions.{transaction}
use sd_platform.Db.{Uuid, Db, OutboxMessage, OutboxAttempt, MessageState, is_processing}
use sd_platform.Outbox.{OutboxItem, DispatchResult, DispatchOutcome, OutboxRepository}

abbrev pub message_of : Uuid → List OutboxMessage → Option OutboxMessage
message_of = row_of (λ m. m.outbox_id)

-- state in ("pending", "retry", "processing")
abbrev is_open : MessageState → Bool
is_open MessageState.sent = false
is_open MessageState.dead_letter = false
is_open _ = true

-- lease_until is null or lease_until <= now
abbrev lease_over : Option Instant → Instant → Bool
lease_over none now = true
lease_over (some t) now = leb t now

pub claimable : (Uuid → Bool) → Instant → OutboxMessage → Bool
claimable locked now m =
    is_open m.state
    && (leb m.available_at now && (lease_over m.lease_until now && not (locked m.outbox_id)))

-- order by available_at, outbox_id
pub before : OutboxMessage → OutboxMessage → Bool
before a b =
    ltb a.available_at b.available_at
    || (a.available_at == b.available_at && leb a.outbox_id b.outbox_id)

pub selected : (Uuid → Bool) → Instant → ℕ → List OutboxMessage → List OutboxMessage
unfolding claimable before select_where order_by
selected locked now batch_size rows =
    take batch_size (order_by before (select_where (claimable locked now) rows))

unfoldable pub leased : Instant → ℕ → OutboxMessage → OutboxMessage
leased now lease m = record m {
  state = MessageState.processing;
  lease_until = some (now + lease);
  attempt_count = m.attempt_count + 1;
  updated_at = now;
}

pub item_of : Instant → OutboxMessage → OutboxItem
item_of now m = record {
  outbox_id = m.outbox_id;
  kind = m.kind;
  dedup_key = m.dedup_key;
  payload = m.payload;
  attempt = m.attempt_count + 1;
  started_at = now;
}

abbrev pub ids : List OutboxMessage → List Uuid
ids = map (λ m. m.outbox_id)

-- `SqlOutboxRepository.claim`
unfoldable pub claim :
    (Uuid → Bool) → (now : Instant) (batch_size lease : ℕ) → Db → List OutboxItem × Db
unfolding selected leased item_of update_where
claim locked now batch_size lease db =
    let rows = selected locked now batch_size db.outbox_message in
    (
      map (item_of now) rows,
      record db {
        outbox_message =
            update_where (λ m. mem_ℕ m.outbox_id (ids rows)) (leased now lease) db.outbox_message;
      },
    )

abbrev pub state_of : DispatchOutcome → MessageState
state_of DispatchOutcome.sent = MessageState.sent
state_of DispatchOutcome.retry = MessageState.retry
state_of DispatchOutcome.dead_letter = MessageState.dead_letter

-- The lease that a finish must still hold.
unfoldable pub holds_lease : OutboxItem → OutboxMessage → Bool
holds_lease item m =
    m.outbox_id == item.outbox_id && (is_processing m.state && m.attempt_count == item.attempt)

unfoldable pub finished :
    DispatchResult → DispatchOutcome → (available_at now : Instant) → OutboxMessage → OutboxMessage
finished result outcome available_at now m = record m {
  state = state_of outcome;
  available_at = available_at;
  lease_until = none;
  last_error_code = result.error_code;
  updated_at = now;
}

attempt_row : Uuid → OutboxItem → DispatchResult → DispatchOutcome → Instant → OutboxAttempt
attempt_row attempt_id item result outcome now = record {
  attempt_id = attempt_id;
  outbox_id = item.outbox_id;
  started_at = item.started_at;
  finished_at = some now;
  result = state_of outcome;
  status_code = result.status_code;
  redacted_error = or_none (text_take 512 (or_default result.redacted_error ""));
}

-- `SqlOutboxRepository.finish`
unfoldable pub finish :
    Uuid
    → OutboxItem
    → DispatchResult
    → DispatchOutcome
    → (available_at now : Instant) → Db
    → Result (Unit {0} × Db)
unfolding holds_lease finished attempt_row first_where update_where
finish attempt_id item result outcome available_at now db = do
  or_raise (first_where (holds_lease item) db.outbox_message)
        (runtime_error "outbox lease was lost")
      >>= λ _. ok (
        tt,
        record db {
          outbox_message =
              update_where (holds_lease item) (finished result outcome available_at now)
                db.outbox_message;
          outbox_attempt = db.outbox_attempt ++ attempt_row attempt_id item result outcome now ∷ [];
        },
      )

-- The repository that the processor is given. `attempt_id` draws the UUID of an attempt.
pub sql_repository :
    (locked : Db → Uuid → Bool) (attempt_id : OutboxItem → Db → Uuid) → OutboxRepository Db
sql_repository locked attempt_id = record {
  claim = λ now batch_size lease db.
      (let (items, db') = claim (locked db) now batch_size lease db in (ok items, db'));
  finish = λ item result outcome available_at now.
      transaction λ db. finish (attempt_id item db) item result outcome available_at now db;
}
