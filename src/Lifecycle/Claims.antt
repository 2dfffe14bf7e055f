-- ===== src/Lifecycle/Claims.antt =====
-- What a claim and a finish make of the state of a message (`SqlOutboxRepository`).
use sd_platform.Common.{
  ◌≡◌, ap, sym, ◌∙◌, ℕ, Bool, true, List, some, mem_ℕ, inl, inr, ok, ◌==◌, ==→eq, eq→==, ◌≢◌,
  Option-cases, Bool-cases, Instant, IsKeyed,
}
use sd_platform.Db.{Uuid, Db, OutboxMessage}
use sd_platform.Outbox.{OutboxItem, DispatchResult, DispatchOutcome}
use sd_platform.OutboxStore.{message_of, selected, leased, ids, claim, finished, finish}
use sd_platform.OutboxStore.Finish.{finish_found, message_of-finish_ne}
use sd_platform.OutboxStore.Claim.{
  row_of_mem, claimable-IsClaimable, message_of-claim, selected-All,
}
use sd_platform.Lifecycle.{Move, state_in, status, claiming, settling}

module _ (locked : Uuid → Bool) (now batch_size lease : ℕ) (db : Db)
    (keyed : IsKeyed (λ m. m.outbox_id) db.outbox_message) (k : Uuid) where
  abbrev after : List OutboxMessage
  after = (claim locked now batch_size lease db).1.outbox_message

  claimed-Move :
      (m : OutboxMessage)
      → message_of k db.outbox_message ≡ some m
      → mem_ℕ k (ids (selected locked now batch_size db.outbox_message)) ≡ true
      → Move claiming k (status k db.outbox_message) (status k after)
  unfolding leased
  claimed-Move m found taken =
      let (r, same, (here, could)) =
        row_of_mem _ (λ (r : OutboxMessage). r.outbox_id) k
          (selected locked now batch_size db.outbox_message) taken
          (selected-All locked now batch_size lease db keyed) in
      let could' = claimable-IsClaimable locked now r could in
      let same_row : r ≡ m = cc (ap (λ i. message_of i db.outbox_message) same) in
      inr (
        record {
          state = r.state;
          there = rw found (ap (λ (x : OutboxMessage). some x.state) (sym same_row));
          not_sent = could'.not_sent;
          not_dead = could'.not_dead;
        },
        rw (message_of-claim locked now batch_size lease db k) (rw (found, taken)),
      )

  pub claim-Move : Move claiming k (status k db.outbox_message) (status k after)
  claim-Move = elim (Option-cases (message_of k db.outbox_message)) [
    | inl absent ↦ inl (rw (message_of-claim locked now batch_size lease db k) (rw absent))
    | inr (m, found) ↦
        elim (Bool-cases (mem_ℕ k (ids (selected locked now batch_size db.outbox_message)))) [
          | inl taken ↦ claimed-Move m found taken
          | inr left ↦
              inl (rw (message_of-claim locked now batch_size lease db k) (rw (found, left)))
        ]
  ]

module _ (attempt_id : Uuid) (item : OutboxItem) (result : DispatchResult)
    (outcome : DispatchOutcome) (available_at now : Instant) (db db' : Db)
    (done : finish attempt_id item result outcome available_at now db ≡ ok (tt, db')) where
  pub finish-Move :
      IsKeyed (λ m. m.outbox_id) db.outbox_message
      → (k : Uuid)
      → Move
          (settling item.outbox_id outcome)
          k
          (status k db.outbox_message)
          (status k db'.outbox_message)
  unfolding finished
  finish-Move keyed k = elim (Bool-cases (k == item.outbox_id)) [
    | inl hit ↦
        let same = ==→eq k item.outbox_id hit in
        let (m, found, busy, after) =
          finish_found attempt_id item result outcome available_at now db db' done keyed in
        inr (
          same,
          ap (λ i. status i db.outbox_message) same ∙ ap state_in found ∙ ap some busy,
          ap (λ i. status i db'.outbox_message) same ∙ ap state_in after,
        )
    | inr miss ↦
        let other : k ≢ item.outbox_id = λ same. cc (eq→== k item.outbox_id same, miss) in
        inl (
          other,
          ap state_in (
              message_of-finish_ne attempt_id item result outcome available_at now db db' done k
                other),
        )
  ]
