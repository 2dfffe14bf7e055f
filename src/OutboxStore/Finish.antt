-- ===== src/OutboxStore/Finish.antt =====
-- What a finish writes (`SqlOutboxRepository.finish`), and that a worker whose lease was taken over
-- writes nothing.
use sd_platform.Common.{
  Bool-cases, ap, ◌∙◌, ◌≡◌, ◌≢◌, refl, ◌⊎◌, inl, inr, Bool, List, [], ◌∷◌, ◌++◌, Option, none, some,
  arith, if◌then◌else◌, Instant, first_where, first_where-update, Option-apply, Option-cases,
  IsKeyed, row_of-key, update_where-IsKeyed, Result, ok, err, runtime_error, first_where-key,
  Option-filter, update_where, ◌&&◌, ◌==◌,
}
use sd_platform.Db.{Uuid, Db, OutboxMessage, OutboxAttempt, MessageState, is_processing}
use sd_platform.Outbox.{OutboxItem, DispatchResult, DispatchOutcome}
use sd_platform.OutboxStore.{message_of, holds_lease, finished, state_of, attempt_row, finish}

-- The item is out of date for the row that stands at its id.
abbrev pub IsLost : OutboxItem → Option OutboxMessage → Type 0
IsLost item none = Unit
IsLost item (some m) = (m.state ≢ MessageState.processing) ⊎ (m.attempt_count ≢ item.attempt)

abbrev is_current : OutboxItem → OutboxMessage → Bool
is_current item m = is_processing m.state && m.attempt_count == item.attempt

filter_lost :
    (item : OutboxItem) (o : Option OutboxMessage)
    → IsLost item o
    → Option-filter (is_current item) o ≡ none
filter_lost item none lost = refl
filter_lost item (some m) lost = ground arith

-- The row that a finish updates is the row of the item's id, if the item is current.
holder :
    (item : OutboxItem) (rows : List OutboxMessage)
    → IsKeyed (λ m. m.outbox_id) rows
    → first_where (holds_lease item) rows
      ≡ Option-filter (is_current item) (message_of item.outbox_id rows)
unfolding holds_lease
holder item rows keyed =
    first_where-key (λ m. m.outbox_id) item.outbox_id (is_current item) rows keyed

module _ (attempt_id : Uuid) (item : OutboxItem) (result : DispatchResult)
    (outcome : DispatchOutcome) (available_at now : Instant) (db : Db) where
  abbrev run : Result (Unit {0} × Db)
  run = finish attempt_id item result outcome available_at now db

  -- A finish whose item is out of date raises, whatever it would write: the message is not being
  -- processed any more, or is in another attempt, or is not there.
  pub finish_fenced :
      IsKeyed (λ m. m.outbox_id) db.outbox_message
      → IsLost item (message_of item.outbox_id db.outbox_message)
      → run ≡ err (runtime_error "outbox lease was lost")
  unfolding finish
  finish_fenced keyed lost =
      rw (holder item db.outbox_message keyed)
        (rw (filter_lost item (message_of item.outbox_id db.outbox_message) lost))

  -- What a finish leaves in the tables.
  pub record IsFinished (m : OutboxMessage) (db' : Db) : Type 0 where
    pub row : OutboxMessage
    pub stored : message_of item.outbox_id db'.outbox_message ≡ some row
    pub state : row.state ≡ state_of outcome
    pub due : row.available_at ≡ available_at
    pub released : row.lease_until ≡ none
    pub attempts : row.attempt_count ≡ m.attempt_count
    pub code : row.last_error_code ≡ result.error_code
    pub others :
        (k : Uuid)
        → k ≢ item.outbox_id
        → message_of k db'.outbox_message ≡ message_of k db.outbox_message
    pub keyed : IsKeyed (λ r. r.outbox_id) db'.outbox_message
    pub attempt : OutboxAttempt
    pub recorded : db'.outbox_attempt ≡ db.outbox_attempt ++ attempt ∷ []
    pub evidence :
        (attempt.outbox_id ≡ item.outbox_id)
        × (attempt.result ≡ state_of outcome)
        × (attempt.started_at ≡ item.started_at)

  read-finish :
      (k : Uuid)
      → message_of k (
          update_where
            (holds_lease item)
            (finished result outcome available_at now)
            db.outbox_message)
        ≡ Option-apply
            (λ m. if holds_lease item m then finished result outcome available_at now m else m)
            (message_of k db.outbox_message)
  unfolding finished
  read-finish k = first_where-update _ _ _ (λ m. refl) db.outbox_message

  read-finish_ne :
      (k : Uuid)
      → k ≢ item.outbox_id
      → message_of k (
          update_where
            (holds_lease item)
            (finished result outcome available_at now)
            db.outbox_message)
        ≡ message_of k db.outbox_message
  unfolding holds_lease
  read-finish_ne k other = elim (Option-cases (message_of k db.outbox_message)) [
    | inl e ↦ rw (read-finish k) (rw e)
    | inr (m, e) ↦
        ground (arith, read-finish k, row_of-key (λ r. r.outbox_id) k db.outbox_message m e)
  ]

  abbrev written : Db
  written = record db {
    outbox_message =
        update_where (holds_lease item) (finished result outcome available_at now)
          db.outbox_message;
    outbox_attempt = db.outbox_attempt ++ attempt_row attempt_id item result outcome now ∷ [];
  }

  -- A finish by the holder of the lease succeeds: the message gets the outcome's state and due
  -- time and loses its lease, its attempt count stays, an attempt row is added to those that
  -- stand, and no other message changes.
  pub finish_writes :
      (m : OutboxMessage)
      → IsKeyed (λ m. m.outbox_id) db.outbox_message
      → message_of item.outbox_id db.outbox_message ≡ some m
      → m.state ≡ MessageState.processing
      → m.attempt_count ≡ item.attempt
      → (db' : Db) × (run ≡ ok (tt, db')) × IsFinished m db'
  unfolding finish holds_lease finished attempt_row
  finish_writes m keyed found busy current = (
    written,
    rw (holder item db.outbox_message keyed) (rw found (ground arith)),
    record {
      row = finished result outcome available_at now m;
      stored = ground (
        arith,
        read-finish item.outbox_id,
        row_of-key (λ r. r.outbox_id) item.outbox_id db.outbox_message m found,
      );
      state = refl;
      due = refl;
      released = refl;
      attempts = refl;
      code = refl;
      others = λ k other. read-finish_ne k other;
      keyed = update_where-IsKeyed (λ r. r.outbox_id) _ _ (λ r. refl) db.outbox_message keyed;
      attempt = attempt_row attempt_id item result outcome now;
      recorded = refl;
      evidence = (refl, refl, refl);
    },
  )

module _ (attempt_id : Uuid) (item : OutboxItem) (result : DispatchResult)
    (outcome : DispatchOutcome) (available_at now : Instant) (db db' : Db)
    (done : finish attempt_id item result outcome available_at now db ≡ ok (tt, db')) where
  pub finish-rows :
      db'.outbox_message
      ≡ update_where (holds_lease item) (finished result outcome available_at now) db.outbox_message
  unfolding finish
  finish-rows = elim (Option-cases (first_where (holds_lease item) db.outbox_message)) [
    | inl absent ↦ cc (rw (absent, finish) at done)
    | inr (m, there) ↦ ground (arith, rw (there, finish) at done)
  ]

  pub message_of-finish :
      (k : Uuid)
      → message_of k db'.outbox_message
        ≡ Option-apply
            (λ m. if holds_lease item m then finished result outcome available_at now m else m)
            (message_of k db.outbox_message)
  unfolding finished
  message_of-finish k =
      ap (message_of k) finish-rows
      ∙ first_where-update (λ m. m.outbox_id == k) (holds_lease item)
          (finished result outcome available_at now) (λ m. refl) db.outbox_message

  -- The rows of other messages stay.
  pub message_of-finish_ne :
      (k : Uuid)
      → k ≢ item.outbox_id
      → message_of k db'.outbox_message ≡ message_of k db.outbox_message
  message_of-finish_ne k other =
      ap (message_of k) finish-rows
      ∙ read-finish_ne attempt_id item result outcome available_at now db k other

  -- A finish that raises nothing found its message being processed.
  pub finish_found :
      IsKeyed (λ m. m.outbox_id) db.outbox_message
      → (m : OutboxMessage) × (message_of item.outbox_id db.outbox_message ≡ some m)
        × (m.state ≡ MessageState.processing)
        × (message_of item.outbox_id db'.outbox_message
            ≡ some (finished result outcome available_at now m))
  unfolding finish holds_lease
  finish_found keyed = elim (Option-cases (message_of item.outbox_id db.outbox_message)) [
    | inl absent ↦
        let none_held : first_where (holds_lease item) db.outbox_message ≡ none =
          rw (holder item db.outbox_message keyed) (rw absent refl) in
        cc (rw (none_held, finish) at done)
    | inr (m, found) ↦ elim (Bool-cases (is_current item m)) [
      | inl held ↦
          let id =
            row_of-key (λ (r : OutboxMessage). r.outbox_id) item.outbox_id db.outbox_message m
              found in
          (
            m,
            found,
            ground arith,
            rw (message_of-finish item.outbox_id) (rw found (rw (id, held) (ground arith))),
          )
      | inr lost ↦
          let none_held : first_where (holds_lease item) db.outbox_message ≡ none =
            rw (holder item db.outbox_message keyed) (rw found (rw lost refl)) in
          cc (rw (none_held, finish) at done)
    ]
  ]
