-- ===== src/OutboxStore/Batch.antt =====
-- One batch of the processor over the SQL repository (`OutboxProcessor.run_once` with
-- `SqlOutboxRepository`): it always completes, and every message that it claimed is settled.
use sd_platform.Common.{
  ℕ, ◌+◌, ◌≤◌, ◌≡◌, ◌≢◌, refl, sym, ◌∙◌, Bool, true, List, [], ◌∷◌, some, arith, Instant, Datetime,
  is_utc, require_utc, leb, length, All, All-map, IsKeyed, IsDistinct, ok, ◌&&◌,
}
use sd_platform.Db.{Uuid, Db, OutboxMessage}
use sd_platform.Outbox.{
  OutboxItem, DispatchOutcome, OutboxHandler, Processor, Counts, count, deliver_batch, run_once,
}
use sd_platform.OutboxStore.{message_of, claim, sql_repository}
use sd_platform.OutboxStore.Claim.{IsGranted, claim_grants, claim-IsDistinct}
use sd_platform.OutboxStore.Leases.{claim-IsKeyed}
use sd_platform.OutboxStore.Delivery.{KeepsMessages, IsHeld, IsSettled, Delivered, deliver_total}

abbrev total : Counts → ℕ
total c = c.sent + c.retry + c.dead_letter

total-count : (o : DispatchOutcome) (c : Counts) → total (count o c) ≡ total c + 1
unfolding count
total-count DispatchOutcome.sent c = omega arith
total-count DispatchOutcome.retry c = omega arith
total-count DispatchOutcome.dead_letter c = omega arith

claimed-count : (o : DispatchOutcome) (c : Counts) → (count o c).claimed ≡ c.claimed
unfolding count
claimed-count DispatchOutcome.sent c = refl
claimed-count DispatchOutcome.retry c = refl
claimed-count DispatchOutcome.dead_letter c = refl

module _ (p : Processor) (locked : Db → Uuid → Bool) (attempt_id : OutboxItem → Db → Uuid)
    (send : OutboxHandler Db) (keeps : KeepsMessages send) (now : Instant) where
  abbrev One : OutboxItem → Db → Type 0
  One = Delivered p locked attempt_id send keeps now

  record DeliveredBatch (items : List OutboxItem) (counts : Counts) (db : Db) : Type 0 where
    final : Counts
    db' : Db
    runs :
        deliver_batch p (sql_repository locked attempt_id) send now counts items db
        ≡ (ok final, db')
    keyed : IsKeyed (λ m. m.outbox_id) db'.outbox_message
    done : All (IsSettled db') items
    others :
        (k : Uuid) (m : OutboxMessage)
        → All (λ item. item.outbox_id ≢ k) items
        → message_of k db.outbox_message ≡ some m
        → message_of k db'.outbox_message ≡ some m
    claimed : final.claimed ≡ counts.claimed
    summed : total final ≡ total counts + length items

  IsHeld-deliver :
      (item other : OutboxItem) (db : Db) (d : One item db)
      → other.outbox_id ≢ item.outbox_id
      → IsHeld db other
      → IsHeld d.db' other
  IsHeld-deliver item other db d ne h = record {
    message = h.message;
    found = d.others other.outbox_id h.message ne h.found;
    busy = h.busy;
    current = h.current;
  }

  All-IsHeld :
      (item : OutboxItem) (items : List OutboxItem) (db : Db) (d : One item db)
      → All (λ other. other.outbox_id ≢ item.outbox_id) items
      → All (IsHeld db) items
      → All (IsHeld d.db') items
  All-IsHeld item [] db d apart held = tt
  All-IsHeld item (other ∷ items) db d apart held =
      (IsHeld-deliver item other db d apart.0 held.0, All-IsHeld item items db d apart.1 held.1)

  IsSettled-deliver :
      (item : OutboxItem) (items : List OutboxItem) (counts : Counts) (db : Db)
      (rest : DeliveredBatch items counts db)
      → All (λ other. other.outbox_id ≢ item.outbox_id) items
      → IsSettled db item
      → IsSettled rest.db' item
  IsSettled-deliver item items counts db rest apart s = record {
    message = s.message;
    found = rest.others item.outbox_id s.message apart s.found;
    settled = s.settled;
    released = s.released;
    attempts = s.attempts;
  }

  deliver_batch_total :
      (items : List OutboxItem) (counts : Counts) (db : Db)
      → IsKeyed (λ m. m.outbox_id) db.outbox_message
      → IsDistinct (λ item. item.outbox_id) items
      → All (IsHeld db) items
      → DeliveredBatch items counts db
  unfolding deliver_batch
  deliver_batch_total [] counts db keyed apart held = record {
    final = counts;
    db' = db;
    runs = refl;
    keyed = keyed;
    done = tt;
    others = λ k m _ found. found;
    claimed = refl;
    summed = omega arith;
  }
  deliver_batch_total (item ∷ items) counts db keyed apart held =
      let d : One item db = deliver_total p locked attempt_id send keeps now item db keyed held.0 in
      let rest : DeliveredBatch items (count d.outcome counts) d.db' =
        deliver_batch_total items (count d.outcome counts) d.db' d.keyed apart.1
          (All-IsHeld item items db d apart.0 held.1) in
      record {
        final = rest.final;
        db' = rest.db';
        runs = rw d.runs rest.runs;
        keyed = rest.keyed;
        done = (
          IsSettled-deliver item items (count d.outcome counts) d.db' rest apart.0 d.done,
          rest.done,
        );
        others =
            λ k m away found. rest.others k m away.1 (d.others k m (λ e. away.0 (sym e)) found);
        claimed = rest.claimed ∙ claimed-count d.outcome counts;
        summed = omega (arith, rest.summed, total-count d.outcome counts);
      }

  IsHeld-granted :
      (batch_size lease : ℕ) (db : Db) (items : List OutboxItem)
      → All (IsGranted (locked db) now batch_size lease db) items
      → All (IsHeld (claim (locked db) now batch_size lease db).1) items
  IsHeld-granted batch_size lease db items =
      All-map _ _
        (λ item g. record {
          message = g.held;
          found = g.stored;
          busy = g.busy;
          current = g.counted;
        })
        items

in_range : (n : ℕ) → 1 ≤ n → n ≤ 100 → (leb 1 n && leb n 100) ≡ true
in_range n low high = ground arith

-- `run_once` over the SQL repository, with any dispatcher that leaves the outbox alone, always
-- returns, also when deliveries fail or raise: each claimed message is settled (sent, dead or to be
-- retried, without a lease, in the attempt of its item), and the counts add up to the batch.
pub run_once_settles :
    (p : Processor) (locked : Db → Uuid → Bool) (attempt_id : OutboxItem → Db → Uuid)
    (send : OutboxHandler Db) (now : Datetime) (batch_size : ℕ) (db : Db)
    → KeepsMessages send
    → is_utc now.tzinfo ≡ true
    → 1 ≤ batch_size
    → batch_size ≤ 100
    → IsKeyed (λ m. m.outbox_id) db.outbox_message
    → let items = (claim (locked db) now.instant batch_size p.lease db).0 in
      (counts : Counts) × (db' : Db) × (run_once p
          (sql_repository locked attempt_id)
          send
          now
          batch_size
          db
        ≡ (ok counts, db'))
      × All (IsSettled db') items
      × (counts.claimed ≡ length items)
      × (counts.sent + counts.retry + counts.dead_letter ≡ counts.claimed)
unfolding run_once sql_repository require_utc
run_once_settles p locked attempt_id send now batch_size db keeps zone low high keyed =
    let batch = claim (locked db) now.instant batch_size p.lease db in
    let start : Counts = record {
      claimed = length batch.0;
      sent = 0;
      retry = 0;
      dead_letter = 0;
    } in
    let d : DeliveredBatch p locked attempt_id send keeps now.instant batch.0 start batch.1 =
      deliver_batch_total p locked attempt_id send keeps now.instant batch.0 start batch.1
        (claim-IsKeyed (locked db) now.instant batch_size p.lease db keyed)
        (claim-IsDistinct (locked db) now.instant batch_size p.lease db keyed)
        (IsHeld-granted p locked attempt_id send keeps now.instant batch_size p.lease db batch.0
          (claim_grants (locked db) now.instant batch_size p.lease db keyed).0) in
    (
      d.final,
      d.db',
      rw (zone, in_range batch_size low high) d.runs,
      d.done,
      d.claimed,
      omega (arith, d.summed, d.claimed),
    )
