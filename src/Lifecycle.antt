-- ===== src/Lifecycle.antt =====
-- The life of a message of the outbox, as every part of the program sees it: what a transaction may
-- make of the state of one message (sd-agent/sd_agent/persistence/models.py, `OutboxMessage.state`).
mod Claims
mod Steps
mod Rows
mod Requests
pub mod Refinement
mod Tests
use sd_platform.Common.{
  Bool, true, false, ◌≡◌, refl, ◌≢◌, ◌⊎◌, [], ◌∷◌, sym, ◌∙◌, List, Option, none, some, Option-cases,
  inl, inr,
}
use sd_platform.Db.{Uuid, OutboxMessage, MessageState}
use sd_platform.Outbox.{DispatchOutcome}
use sd_platform.OutboxStore.{message_of, state_of}

-- The state of a message, if it is there.
abbrev pub state_in : Option OutboxMessage → Option MessageState
state_in none = none
state_in (some m) = some m.state

abbrev pub status : Uuid → List OutboxMessage → Option MessageState
status k rows = state_in (message_of k rows)

-- What a transaction does to the outbox: nothing, a claim of a batch, or one of three things to the
-- message of one id.
pub data Kind : Type 0 where
  quiet claiming : Kind
  queueing reopening : Uuid → Kind
  settling : Uuid → DispatchOutcome → Kind

-- A request that was answered before does nothing.
abbrev pub queued_by : (idempotent : Bool) → Uuid → Kind
queued_by true id = quiet
queued_by false id = queueing id

abbrev pub reopened_by : (idempotent : Bool) → Uuid → Kind
reopened_by true id = quiet
reopened_by false id = reopening id

-- A message that may be claimed is neither sent nor dead.
pub record IsOpen (a : Option MessageState) : Type 0 where
  pub state : MessageState
  pub there : a ≡ some state
  pub not_sent : state ≢ MessageState.sent
  pub not_dead : state ≢ MessageState.dead_letter

-- The move of the message `id` alone: any other message stays.
abbrev pub Only :
    (id k : Uuid) (a b : Option MessageState) → (before after : Option MessageState) → Type 0
Only id k a b before after = ((k ≢ id) × (b ≡ a)) ⊎ ((k ≡ id) × (a ≡ before) × (b ≡ after))

-- The abstract view: the state `b` that a transaction of a kind makes of the state `a` of the
-- message `k`.
abbrev pub Move : Kind → Uuid → (a b : Option MessageState) → Type 0
Move quiet k a b = b ≡ a
Move claiming k a b = (b ≡ a) ⊎ (IsOpen a × (b ≡ some MessageState.processing))
Move (queueing id) k a b = Only id k a b none (some MessageState.pending)
Move (reopening id) k a b = Only id k a b (some MessageState.dead_letter) (some MessageState.retry)
Move (settling id outcome) k a b =
    Only id k a b (some MessageState.processing) (some (state_of outcome))

-- A run of the abstract view: the state that the message `k` gets from `a` by transactions of these
-- kinds, the last of them first.
pub data Moves (k : Uuid) (a : Option MessageState) : List Kind → Option MessageState → Type 0 where
  still : Moves k a [] a
  then_move :
      {kind : Kind} {kinds : List Kind} {b c : Option MessageState}
      → Moves k a kinds b
      → Move kind k b c
      → Moves k a (kind ∷ kinds) c

-- What is sent stays sent.
pub sent-Move :
    (kind : Kind) (k : Uuid) (b : Option MessageState)
    → Move kind k (some MessageState.sent) b
    → b ≡ some MessageState.sent
sent-Move quiet k b e = e
sent-Move claiming k b (inl e) = e
sent-Move claiming k b (inr (open_one, e)) = absurd (open_one.not_sent (cc (open_one.there)))
sent-Move (queueing id) k b (inl (other, e)) = e
sent-Move (queueing id) k b (inr (same, e, f)) = cc
sent-Move (reopening id) k b (inl (other, e)) = e
sent-Move (reopening id) k b (inr (same, e, f)) = cc
sent-Move (settling id outcome) k b (inl (other, e)) = e
sent-Move (settling id outcome) k b (inr (same, e, f)) = cc
