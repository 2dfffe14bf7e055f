-- ===== src/OutboxStore/Leases.antt =====
-- A lease keeps a message to one worker (`SqlOutboxRepository.claim`): no second
-- claim takes the message while the lease runs.
use sd_platform.Common.{
  ℕ, ◌+◌, ◌<◌, ◌≡◌, ◌≢◌, refl, inl, inr, Bool, true, false, List, some, arith, mem_ℕ, All, All-map,
  Instant, Bool-cases, IsKeyed, update_where-IsKeyed, update_where, ap, sym, ◌∙◌, ok, Option-cases,
  subst,
}
use sd_platform.Db.{Uuid, Db, OutboxMessage}
use sd_platform.Outbox.{OutboxItem, DispatchResult, DispatchOutcome}
use sd_platform.OutboxStore.{
  message_of, selected, leased, ids, claim, finish, finished, holds_lease,
}
use sd_platform.OutboxStore.Claim.{
  IsClaimable, IsGranted, claimable-IsClaimable, message_of-claim, claim_grants, row_of_mem,
  selected-All,
}
use sd_platform.OutboxStore.Finish.{finish-rows, message_of-finish_ne}

-- A claim leaves the table with its primary key.
pub claim-IsKeyed :
    (locked : Uuid → Bool) (now batch_size lease : ℕ) (db : Db)
    → IsKeyed (λ m. m.outbox_id) db.outbox_message
    → IsKeyed (λ m. m.outbox_id) (claim locked now batch_size lease db).1.outbox_message
unfolding claim leased
claim-IsKeyed locked now batch_size lease db keyed =
    update_where-IsKeyed (λ m. m.outbox_id) _ _ (λ m. refl) db.outbox_message keyed

-- What a claim at `now` can grant again, it finds with its lease over.
not_leased :
    (locked : Uuid → Bool) (now : Instant) (m : OutboxMessage) (t : Instant)
    → now < t
    → IsClaimable locked now m
    → m.lease_until ≢ some t
not_leased locked now m t early could e = ground (arith, could.unleased)

module _ (locked : Uuid → Bool) (now batch_size lease : ℕ) (db : Db) where
  abbrev first : List OutboxMessage
  first = selected locked now batch_size db.outbox_message

  abbrev middle : Db
  middle = (claim locked now batch_size lease db).1

  lease-middle :
      (k : Uuid) (m : OutboxMessage)
      → mem_ℕ k (ids first) ≡ true
      → message_of k middle.outbox_message ≡ some m
      → m.lease_until ≡ some (now + lease)
  unfolding leased
  lease-middle k m taken found = ground (arith, message_of-claim locked now batch_size lease db k)

  -- The rows of a batch are still under its lease.
  abbrev IsHeld : Db → Type 0
  IsHeld d =
      IsKeyed (λ m. m.outbox_id) d.outbox_message
      × ((k : Uuid) (m : OutboxMessage)
          → mem_ℕ k (ids first) ≡ true
          → message_of k d.outbox_message ≡ some m
          → m.lease_until ≡ some (now + lease))

  other :
      (d : Db)
      → IsHeld d
      → (locked' : Uuid → Bool) (now' batch_size' lease' : ℕ) → now' < now + lease
      → (item : OutboxItem) → IsGranted locked' now' batch_size' lease' d item
      → mem_ℕ item.outbox_id (ids first) ≡ false
  other d held locked' now' batch_size' lease' early item g =
      elim (Bool-cases (mem_ℕ item.outbox_id (ids first))) [
        | inl taken ↦ absurd (
            not_leased locked' now' g.message (now + lease) early g.could
              (held.1 item.outbox_id g.message taken g.found))
        | inr free ↦ free
      ]

  -- What other workers do meanwhile: claims before `now + lease`, and finishes of messages that are
  -- not in the batch, in any order and by anyone.
  pub data Meanwhile : Db → Type 0 where
    at_once : Meanwhile middle
    then_claim :
        {d e : Db}
        → Meanwhile d
        → (locked' : Uuid → Bool) (now' batch_size' lease' : ℕ) → now' < now + lease
        → e ≡ (claim locked' now' batch_size' lease' d).1
        → Meanwhile e
    then_finish :
        {d e : Db}
        → Meanwhile d
        → (attempt_id : Uuid) (item : OutboxItem) (result : DispatchResult)
          (outcome : DispatchOutcome) (available_at now' : Instant)
        → mem_ℕ item.outbox_id (ids first) ≡ false
        → finish attempt_id item result outcome available_at now' d ≡ ok (tt, e)
        → Meanwhile e

  claim-IsHeld :
      (d : Db)
      → IsHeld d
      → (locked' : Uuid → Bool) (now' batch_size' lease' : ℕ) → now' < now + lease
      → IsHeld (claim locked' now' batch_size' lease' d).1
  claim-IsHeld d held locked' now' batch_size' lease' early = (
    claim-IsKeyed locked' now' batch_size' lease' d held.0,
    λ k m taken found. elim (Option-cases (message_of k d.outbox_message)) [
      | inl absent ↦ cc (found, rw absent at (message_of-claim locked' now' batch_size' lease' d k))
      | inr (m', there) ↦ held.1 k m taken (
          there
          ∙ (sym (
                rw (there, untaken k taken) at
                  (message_of-claim locked' now' batch_size' lease' d k))
              ∙ found))
    ],
  )
    where
      untaken :
          (k : Uuid)
          → mem_ℕ k (ids first) ≡ true
          → mem_ℕ k (ids (selected locked' now' batch_size' d.outbox_message)) ≡ false
      untaken k taken =
          elim (Bool-cases (mem_ℕ k (ids (selected locked' now' batch_size' d.outbox_message)))) [
            | inr free ↦ free
            | inl again ↦
                let (r, same, (here, could)) =
                  row_of_mem _ (λ (r : OutboxMessage). r.outbox_id) k
                    (selected locked' now' batch_size' d.outbox_message) again
                    (selected-All locked' now' batch_size' lease' d held.0) in
                absurd (
                  not_leased locked' now' r (now + lease) early
                    (claimable-IsClaimable locked' now' r could)
                    (held.1 r.outbox_id r (ap (λ i. mem_ℕ i (ids first)) same ∙ taken) here))
          ]

  finish-IsHeld :
      (d e : Db)
      → IsHeld d
      → (attempt_id : Uuid) (item : OutboxItem) (result : DispatchResult)
        (outcome : DispatchOutcome) (available_at now' : Instant)
      → mem_ℕ item.outbox_id (ids first) ≡ false
      → finish attempt_id item result outcome available_at now' d ≡ ok (tt, e)
      → IsHeld e
  unfolding finished
  finish-IsHeld d e held attempt_id item result outcome available_at now' outside done = (
    subst (IsKeyed (λ (m : OutboxMessage). m.outbox_id))
        (sym (finish-rows attempt_id item result outcome available_at now' d e done)) kept,
    λ k m taken found. held.1 k m taken (
        sym (
          message_of-finish_ne attempt_id item result outcome available_at now' d e done k
            (λ same. cc (ap (λ i. mem_ℕ i (ids first)) same, taken, outside)))
        ∙ found),
  )
    where
      kept :
          IsKeyed
            (λ (m : OutboxMessage). m.outbox_id)
            (update_where
              (holds_lease item)
              (finished result outcome available_at now')
              d.outbox_message)
      kept = update_where-IsKeyed (λ m. m.outbox_id) _ _ (λ m. refl) d.outbox_message held.0

  Meanwhile-IsHeld :
      IsKeyed (λ m. m.outbox_id) db.outbox_message → (d : Db) → Meanwhile d → IsHeld d
  Meanwhile-IsHeld keyed d at_once =
      (claim-IsKeyed locked now batch_size lease db keyed, lease-middle)
  Meanwhile-IsHeld keyed d (then_claim {d = c} before locked' now' batch_size' lease' early same) =
      subst IsHeld (sym same)
        (claim-IsHeld c (Meanwhile-IsHeld keyed c before) locked' now' batch_size' lease' early)
  Meanwhile-IsHeld keyed d
        (then_finish {d = c} before attempt_id item result outcome available_at now' outside done) =
      finish-IsHeld c d (Meanwhile-IsHeld keyed c before) attempt_id item result outcome
        available_at now' outside done

  -- While the leases of a batch run, no claim by anyone grants a message of that batch, whatever
  -- other workers did meanwhile: after the claim at `now` and any sequence of claims before
  -- `now + lease` and of finishes of messages that are not in the batch, every item of a further claim
  -- before `now + lease` has an id that is not in the batch.
  pub claim_exclusive :
      (d : Db) (locked' : Uuid → Bool) (now' batch_size' lease' : ℕ)
      → IsKeyed (λ m. m.outbox_id) db.outbox_message
      → Meanwhile d
      → now' < now + lease
      → All
          (λ item. mem_ℕ item.outbox_id (ids first) ≡ false)
          (claim locked' now' batch_size' lease' d).0
  claim_exclusive d locked' now' batch_size' lease' keyed run early =
      let held = Meanwhile-IsHeld keyed d run in
      All-map (IsGranted locked' now' batch_size' lease' d) _
        (other d held locked' now' batch_size' lease' early) _
        (claim_grants locked' now' batch_size' lease' d held.0).0
