-- ===== src/OutboxStore/Delivery.antt =====
-- One delivery over the SQL repository: the dispatch, the outcome and the finish of one item
-- (`OutboxProcessor.run_once`, the body of its loop).
use sd_platform.Common.{◌≡◌, ◌≢◌, ◌∙◌, Bool, none, some, Instant, IsKeyed, ok}
use sd_platform.Common.Actions.{catch_total}
use sd_platform.Db.{Uuid, Db, OutboxMessage, MessageState}
use sd_platform.Outbox.{
  OutboxItem, DispatchResult, DispatchOutcome, OutboxHandler, Processor, exception_result,
  outcome_of, attempt_dispatch, deliver,
}
use sd_platform.OutboxStore.{message_of, state_of, sql_repository}
use sd_platform.OutboxStore.Finish.{IsFinished, finish_writes}

-- What is asked of a dispatcher: it may use the tables and may raise, and it leaves each message
-- that is in the outbox as it stands and the ids of messages distinct.
pub record KeepsMessages (send : OutboxHandler Db) : Type 0 where
  pub keyed :
      (item : OutboxItem) (db : Db)
      → IsKeyed (λ m. m.outbox_id) db.outbox_message
      → IsKeyed (λ m. m.outbox_id) (send item db).1.outbox_message
  pub stays :
      (item : OutboxItem) (db : Db) (k : Uuid) (m : OutboxMessage)
      → message_of k db.outbox_message ≡ some m
      → message_of k (send item db).1.outbox_message ≡ some m

-- The message of the item is in the item's attempt.
pub record IsHeld (db : Db) (item : OutboxItem) : Type 0 where
  pub message : OutboxMessage
  pub found : message_of item.outbox_id db.outbox_message ≡ some message
  pub busy : message.state ≡ MessageState.processing
  pub current : message.attempt_count ≡ item.attempt

-- The message of the item is done with: sent, dead, or to be tried again, and free of its lease.
pub record IsSettled (db : Db) (item : OutboxItem) : Type 0 where
  pub message : OutboxMessage
  pub found : message_of item.outbox_id db.outbox_message ≡ some message
  pub settled : (outcome : DispatchOutcome) × (message.state ≡ state_of outcome)
  pub released : message.lease_until ≡ none
  pub attempts : message.attempt_count ≡ item.attempt

module _ (p : Processor) (locked : Db → Uuid → Bool) (attempt_id : OutboxItem → Db → Uuid)
    (send : OutboxHandler Db) (keeps : KeepsMessages send) (now : Instant) where
  -- What one delivery leaves.
  pub record Delivered (item : OutboxItem) (db : Db) : Type 0 where
    pub outcome : DispatchOutcome
    pub db' : Db
    pub runs : deliver p (sql_repository locked attempt_id) send now item db ≡ (ok outcome, db')
    pub keyed : IsKeyed (λ m. m.outbox_id) db'.outbox_message
    pub done : IsSettled db' item
    pub others :
        (k : Uuid) (m : OutboxMessage)
        → k ≢ item.outbox_id
        → message_of k db.outbox_message ≡ some m
        → message_of k db'.outbox_message ≡ some m

  -- An exception of the dispatcher is a result too.
  dispatch_total :
      (item : OutboxItem) (db : Db)
      → (result : DispatchResult) × (attempt_dispatch p
            (sql_repository locked attempt_id)
            send
            item
            db
          ≡ (ok result, (send item db).1))
  unfolding attempt_dispatch
  dispatch_total item db = catch_total (send item) exception_result db

  finish_total :
      (item : OutboxItem) (result : DispatchResult) (outcome : DispatchOutcome) (due : Instant)
      (db : Db)
      → IsKeyed (λ m. m.outbox_id) db.outbox_message
      → (h : IsHeld db item)
      → (db' : Db) × ((sql_repository locked attempt_id).finish item result outcome due now db
          ≡ (ok tt, db'))
        × IsFinished (attempt_id item db) item result outcome due now db h.message db'
  unfolding sql_repository
  finish_total item result outcome due db keyed h =
      let (db', runs, done) =
        finish_writes (attempt_id item db) item result outcome due now db h.message keyed h.found
          h.busy h.current in
      (db', rw runs, done)

  IsSettled-finish :
      {item : OutboxItem} {result : DispatchResult} {outcome : DispatchOutcome} {due : Instant}
      {db db' : Db} {m : OutboxMessage}
      → m.attempt_count ≡ item.attempt
      → IsFinished (attempt_id item db) item result outcome due now db m db'
      → IsSettled db' item
  IsSettled-finish {outcome} current f = record {
    message = f.row;
    found = f.stored;
    settled = (outcome, f.state);
    released = f.released;
    attempts = f.attempts ∙ current;
  }

  -- A delivery of an item whose message is held always returns, and settles that message alone.
  pub deliver_total :
      (item : OutboxItem) (db : Db)
      → IsKeyed (λ m. m.outbox_id) db.outbox_message
      → IsHeld db item
      → Delivered item db
  unfolding deliver
  deliver_total item db keyed h =
      let (result, sent) = dispatch_total item db in
      let middle = (send item db).1 in
      let (outcome, due) = outcome_of p item result now in
      let held : IsHeld middle item = record {
        message = h.message;
        found = keeps.stays item db item.outbox_id h.message h.found;
        busy = h.busy;
        current = h.current;
      } in
      let (db', runs, done) =
        finish_total item result outcome due middle (keeps.keyed item db keyed) held in
      record {
        outcome = outcome;
        db' = db';
        runs = rw sent (rw runs);
        keyed = done.keyed;
        done = IsSettled-finish {due = due} h.current done;
        others = λ k m ne found. done.others k ne ∙ keeps.stays item db k m found;
      }
