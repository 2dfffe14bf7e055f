-- ===== src/OutboxStore/Claim.antt =====
-- What a claim grants (`SqlOutboxRepository.claim`): which messages, how many, in which order, and
-- that no two claims hold one message at a time.
use sd_platform.Common.{
  [], sym, ◌==◌, Bool-cases, ◌∷◌, map, ==→eq, select_where, IsDistinct, map-IsDistinct,
  take-IsDistinct, order-IsDistinct, select-IsDistinct, IsKeyed-IsDistinct, ℕ, ◌+◌, ◌≤◌, ◌<◌, ◌≡◌,
  ◌≢◌, refl, ◌⊎◌, inl, inr, Bool, true, false, List, none, some, arith, if◌then◌else◌, length,
  length-take-le, mem_ℕ, All, All-map, All-take, All-select, All-order, Instant, first_where-update,
  Option-apply, Option-cases, row_of-key, IsKeyed, row_of_self, Has, Has-first, Has-select,
  Has-order, mem-map_of_Has, IsOrder, All-Has, All-map_of_Has, length-map, order-IsSorted,
  take-sorted,
}
use sd_platform.Db.{Uuid, Db, OutboxMessage, MessageState}
use sd_platform.Outbox.{OutboxItem}
use sd_platform.OutboxStore.{message_of, claimable, before, selected, leased, item_of, ids, claim}

-- A message may be claimed: it is neither sent nor dead, its time has come, nobody holds a lease on
-- it, and no transaction has its row locked.
pub record IsClaimable (locked : Uuid → Bool) (now : Instant) (m : OutboxMessage) : Type 0 where
  pub not_sent : m.state ≢ MessageState.sent
  pub not_dead : m.state ≢ MessageState.dead_letter
  pub due : m.available_at ≤ now
  pub unleased : (m.lease_until ≡ none) ⊎ ((t : Instant) × (m.lease_until ≡ some t) × (t ≤ now))
  pub unlocked : locked m.outbox_id ≡ false

pub claimable-IsClaimable :
    (locked : Uuid → Bool) (now : Instant) (m : OutboxMessage)
    → claimable locked now m ≡ true
    → IsClaimable locked now m
unfolding claimable
claimable-IsClaimable locked now m h = record {
  not_sent = ground arith;
  not_dead = ground arith;
  due = ground arith;
  unleased = ground arith;
  unlocked = ground arith;
}

pub IsClaimable-claimable :
    (locked : Uuid → Bool) (now : Instant) (m : OutboxMessage)
    → IsClaimable locked now m
    → claimable locked now m ≡ true
unfolding claimable
IsClaimable-claimable locked now m c = ground (arith, c)

abbrev pub Precedes : OutboxMessage → OutboxMessage → Type 0
Precedes a b =
    (a.available_at < b.available_at)
    ⊎ ((a.available_at ≡ b.available_at) × (a.outbox_id ≤ b.outbox_id))

before-Precedes : (a b : OutboxMessage) → before a b ≡ true → Precedes a b
unfolding before
before-Precedes a b h = grind arith

before-IsOrder : IsOrder before
unfolding before
before-IsOrder = record { total = λ a b h. ground arith; transitive = λ a b c h k. ground arith }

module _ (locked : Uuid → Bool) (now : Instant) (batch_size lease : ℕ) (db : Db) where
  abbrev rows : List OutboxMessage
  rows = selected locked now batch_size db.outbox_message

  abbrev items : List OutboxItem
  items = (claim locked now batch_size lease db).0

  abbrev after : Db
  after = (claim locked now batch_size lease db).1

  read-claim :
      (k : Uuid)
      → message_of k after.outbox_message
        ≡ Option-apply
            (λ m. if mem_ℕ m.outbox_id (ids rows) then leased now lease m else m)
            (message_of k db.outbox_message)
  unfolding claim leased
  read-claim k = first_where-update _ _ _ (λ m. refl) db.outbox_message

  -- The table after a claim, read at one id.
  pub message_of-claim :
      (k : Uuid)
      → message_of k after.outbox_message
        ≡ Option-apply
            (λ m. if mem_ℕ k (ids rows) then leased now lease m else m)
            (message_of k db.outbox_message)
  message_of-claim k = elim (Option-cases (message_of k db.outbox_message)) [
    | inl e ↦ rw (read-claim k) (rw e)
    | inr (m, e) ↦
        rw (read-claim k) (rw e (rw (row_of-key (λ r. r.outbox_id) k db.outbox_message m e)))
  ]

  pub selected-All :
      IsKeyed (λ m. m.outbox_id) db.outbox_message
      → All
          (λ m.
            (message_of m.outbox_id db.outbox_message ≡ some m) × (claimable locked now m ≡ true))
          rows
  unfolding selected
  selected-All keyed = All-take _ batch_size _ (
      All-order _ before _ (
        All-select _ (claimable locked now) db.outbox_message
          (row_of_self (λ m. m.outbox_id) db.outbox_message keyed)))

  -- What a claim gives for one item of its batch.
  pub record IsGranted (item : OutboxItem) : Type 0 where
    pub message : OutboxMessage
    pub found : message_of item.outbox_id db.outbox_message ≡ some message
    pub could : IsClaimable locked now message
    pub next_attempt : item.attempt ≡ message.attempt_count + 1
    pub held : OutboxMessage
    pub stored : message_of item.outbox_id after.outbox_message ≡ some held
    pub busy : held.state ≡ MessageState.processing
    pub until : held.lease_until ≡ some (now + lease)
    pub counted : held.attempt_count ≡ item.attempt
    pub content : (held.kind ≡ message.kind) × (held.payload ≡ message.payload)

  selected-IsGranted :
      IsKeyed (λ m. m.outbox_id) db.outbox_message
      → (m : OutboxMessage) → Has m rows
      → IsGranted (item_of now m)
  unfolding leased item_of
  selected-IsGranted keyed m h = record {
    message = m;
    found = here.0;
    could = claimable-IsClaimable locked now m here.1;
    next_attempt = refl;
    held = leased now lease m;
    stored =
        rw (message_of-claim m.outbox_id) (rw (here.0, mem-map_of_Has (λ r. r.outbox_id) m rows h));
    busy = refl;
    until = refl;
    counted = refl;
    content = (refl, refl);
  }
    where
      here : (message_of m.outbox_id db.outbox_message ≡ some m) × (claimable locked now m ≡ true)
      here = All-Has _ m rows (selected-All keyed) h

  length-selected : length rows ≤ batch_size
  unfolding selected
  length-selected = length-take-le batch_size _

  selected_fair :
      (m : OutboxMessage)
      → Has m db.outbox_message
      → claimable locked now m ≡ true
      → Has m rows ⊎ ((length rows ≡ batch_size) × All (λ r. before r m ≡ true) rows)
  unfolding selected
  selected_fair m h t =
      take-sorted before before-IsOrder batch_size m _
        (order-IsSorted before before-IsOrder
          (select_where (claimable locked now) db.outbox_message))
        (Has-order before m _ (Has-select (claimable locked now) m db.outbox_message t h))

  -- Every item of a claimed batch is a message that could be claimed, and after the claim that
  -- message is processing under a lease until `now + lease`, with one attempt more, the number in
  -- the item; and a batch has at most `batch_size` items.
  pub claim_grants :
      IsKeyed (λ m. m.outbox_id) db.outbox_message
      → All IsGranted items × (length items ≤ batch_size)
  unfolding claim
  claim_grants keyed = (
    All-map_of_Has IsGranted (item_of now) rows (selected-IsGranted keyed),
    omega (arith, length-map (item_of now) rows, length-selected),
  )

  -- A claim is complete and fair: a message that could be claimed and was not is left out only
  -- because the batch is full, and each message in the batch comes before it by due time and id.
  pub claim_fair :
      (m : OutboxMessage)
      → message_of m.outbox_id db.outbox_message ≡ some m
      → IsClaimable locked now m
      → mem_ℕ m.outbox_id (ids rows) ≡ false
      → (length items ≡ batch_size) × All (λ r. Precedes r m) rows
  unfolding claim
  claim_fair m found could left =
      elim (selected_fair m (Has-first _ db.outbox_message m found)
        (IsClaimable-claimable locked now m could)) [
          | inl kept ↦ cc (mem-map_of_Has (λ r. r.outbox_id) m rows kept)
          | inr (full, first) ↦ (
            omega (arith, length-map (item_of now) rows),
            All-map _ _ (λ r e. before-Precedes r m e) rows first,
          )
        ]

-- No message is twice in a batch.
pub claim-IsDistinct :
    (locked : Uuid → Bool) (now batch_size lease : ℕ) (db : Db)
    → IsKeyed (λ m. m.outbox_id) db.outbox_message
    → IsDistinct (λ item. item.outbox_id) (claim locked now batch_size lease db).0
unfolding claim selected item_of
claim-IsDistinct locked now batch_size lease db keyed =
    map-IsDistinct (λ m. m.outbox_id) (λ item. item.outbox_id) (item_of now) (λ m. refl) _
      (take-IsDistinct _ batch_size _ (
        order-IsDistinct _ before _ (
          select-IsDistinct _ (claimable locked now) _
            (IsKeyed-IsDistinct (λ m. m.outbox_id) db.outbox_message keyed))))

-- An id in a list of ids is the id of a row there.
pub row_of_mem {ℓ κ} :
    {A : Type ℓ} (P : A → Type κ) (key : A → ℕ) (k : ℕ) (table : List A)
    → mem_ℕ k (map key table) ≡ true
    → All P table
    → (r : A) × (key r ≡ k) × P r
row_of_mem P key k [] e h = cc
row_of_mem P key k (r ∷ table) e h = elim (Bool-cases (k == key r)) [
  | inl same ↦ (r, sym (==→eq k (key r) same), h.0)
  | inr other ↦ row_of_mem P key k table (rw other at e) h.1
]
