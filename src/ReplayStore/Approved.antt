-- ===== src/ReplayStore/Approved.antt =====
-- An approval that is asked for again, whatever was replayed in between
-- (`SqlOutboxAdminRepository.approve_replay` and `SqlOutboxAdminRepository.replay`).
use text.Mathlib.TextPositions.{eq_refl}
use sd_platform.Common.{
  ◌≡◌, refl, ap, sym, subst, ◌∙◌, String, Bool, true, false, not, ◌&&◌, ◌||◌, some, arith, ok,
  Instant, first_where, first_where-update, ◌==◌, eq→==, ==→eq, if◌then◌else◌, str_eq, Option-cases,
  Bool-cases, inl, inr,
}
use sd_platform.Db.{Uuid, Db, OutboxReplayApproval}
use sd_platform.Admin.{AdminActor, ReplayApproval, ReplayResult}
use sd_platform.ReplayStore.{
  with_approval_key, with_execution_key, approval_of, consumed, approve_replay, replay,
}
use sd_platform.ReplayStore.Approve.{row_of_request, approve_new-inverse, find_opened}
use sd_platform.ReplayStore.Execute.{replayed, replay_new-inverse}

-- Executions of any approvals, by anyone at any times, that follow each other: `spent` tells whether
-- the approval that was given is executed by then.
pub data Executions (approval : ReplayApproval) (db : Db) : (spent : Bool) → Db → Type 0 where
  none_yet : Executions approval db approval.consumed db
  then_replay :
      {spent : Bool} {d e : Db}
      → Executions approval db spent d
      → (event_id outbox_id approval_id key : Uuid) (actor : AdminActor) (now : Instant)
        (result : ReplayResult)
      → replay event_id outbox_id approval_id key actor now d ≡ ok (result, e)
      → Executions approval db
          (spent || (not result.idempotent && approval.approval_id == approval_id))
          e

flag_idle :
    (spent idempotent same : Bool) → idempotent ≡ true → spent ≡ (spent || (not idempotent && same))
flag_idle spent idempotent same e = ground (arith, e)

flag_hit :
    (spent idempotent same : Bool)
    → idempotent ≡ false
    → same ≡ true
    → true ≡ (spent || (not idempotent && same))
flag_hit spent idempotent same e f = ground (arith, e, f)

flag_miss :
    (spent idempotent same : Bool) → same ≡ false → spent ≡ (spent || (not idempotent && same))
flag_miss spent idempotent same e = ground (arith, e)

module _ (sha256 : String → String) (outbox_id : Uuid) (reason : String) (key : Uuid)
    (approval : ReplayApproval) where
  -- The row of the key is that of the approval.
  record IsKept (spent : Bool) (d : Db) : Type 0 where
    row : OutboxReplayApproval
    found : first_where (with_approval_key key) d.outbox_replay_approval ≡ some row
    shown : approval_of row ≡ record approval { consumed = spent }
    message : (row.outbox_id == outbox_id) ≡ true
    hash : str_eq row.reason_hash (sha256 reason) ≡ true

  answered :
      (spent : Bool) (d : Db)
      → IsKept spent d
      → (approval_id event_id : Uuid) (actor : AdminActor) (now : Instant)
      → approve_replay sha256 approval_id event_id outbox_id reason key actor now d
        ≡ ok (record approval { consumed = spent }, d)
  unfolding approve_replay
  answered spent d h approval_id event_id actor now =
      rw (h.found, approve_replay) (rw (h.message, h.hash) (ap (λ x. ok (x, d)) h.shown))

  first_kept :
      (approval_id event_id : Uuid) (actor : AdminActor) (now : Instant) (db db' : Db)
      → approve_replay sha256 approval_id event_id outbox_id reason key actor now db
        ≡ ok (approval, db')
      → IsKept approval.consumed db'
  unfolding approve_replay
  first_kept approval_id event_id actor now db db' e =
      elim (Option-cases (first_where (with_approval_key key) db.outbox_replay_approval)) [
        | inl new ↦
            let (m, there, dead, alone, result) =
              approve_new-inverse sha256 approval_id event_id outbox_id reason key actor now db
                (approval, db') (rw (new, approve_replay) at e) in
            record {
              row = row_of_request sha256 approval_id event_id outbox_id reason key actor now db;
              found =
                  ap
                    (λ (r : ReplayApproval × Db).
                      first_where (with_approval_key key) r.1.outbox_replay_approval)
                    result
                  ∙ find_opened sha256 approval_id event_id outbox_id reason key actor now db new;
              shown = sym (ap (λ (r : ReplayApproval × Db). r.0) result);
              message = eq→== outbox_id outbox_id refl;
              hash = eq_refl (sha256 reason);
            }
        | inr (existing, old) ↦
            let answer = rw (old, approve_replay) at e in
            let same_db : db ≡ db' = ground (arith, answer) in
            record {
              row = existing;
              found =
                  ap (λ (d : Db). first_where (with_approval_key key) d.outbox_replay_approval)
                    (sym same_db)
                  ∙ old;
              shown = ground (arith, answer);
              message = ground (arith, answer);
              hash = ground (arith, answer);
            }
      ]

  replay_kept :
      (spent : Bool) (d e : Db)
      → IsKept spent d
      → (event_id outbox_id' approval_id key' : Uuid) (actor : AdminActor) (now : Instant)
        (result : ReplayResult)
      → replay event_id outbox_id' approval_id key' actor now d ≡ ok (result, e)
      → IsKept (spent || (not result.idempotent && approval.approval_id == approval_id)) e
  unfolding replay consumed approval_of
  replay_kept spent d e h event_id outbox_id' approval_id key' actor now result done =
      elim (Option-cases (first_where (with_execution_key key') d.outbox_replay_approval)) [
        | inr (previous, old) ↦
            let answer = rw (old, replay) at done in
            let same_db : d ≡ e = ground (arith, answer) in
            let idle : result.idempotent ≡ true = ground (arith, answer) in
            subst (λ b. IsKept b e) (flag_idle spent _ _ idle) (subst (IsKept spent) same_db h)
        | inl new ↦
            let (allowed, after, fresh) =
              replay_new-inverse event_id outbox_id' approval_id key' actor now d (result, e)
                (rw (new, replay) at done) in
            elim (Bool-cases (h.row.approval_id == approval_id)) [
              | inl hit ↦
                  let id : approval.approval_id ≡ approval_id =
                    sym (ap (λ (x : ReplayApproval). x.approval_id) h.shown)
                    ∙ ==→eq h.row.approval_id approval_id hit in
                  subst (λ b. IsKept b e) (flag_hit spent _ _ fresh (eq→== _ _ id))
                    (record {
                      row = consumed actor key' now h.row;
                      found = read after ∙ rw hit refl;
                      shown = ap (λ (x : ReplayApproval). record x { consumed = true }) h.shown;
                      message = h.message;
                      hash = h.hash;
                    })
              | inr miss ↦
                  let id : (approval.approval_id == approval_id) ≡ false =
                    ap (λ (x : ReplayApproval). x.approval_id == approval_id) (sym h.shown)
                    ∙ miss in
                  subst (λ b. IsKept b e) (flag_miss spent _ _ id)
                    (record {
                      row = h.row;
                      found = read after ∙ rw miss refl;
                      shown = h.shown;
                      message = h.message;
                      hash = h.hash;
                    })
            ]
      ]
    where
      read :
          e ≡ replayed event_id outbox_id' approval_id key' actor now d
          → first_where (with_approval_key key) e.outbox_replay_approval
            ≡ some
                (if h.row.approval_id == approval_id then consumed actor key' now h.row else h.row)
      read after =
          ap (λ (x : Db). first_where (with_approval_key key) x.outbox_replay_approval) after
          ∙ first_where-update (with_approval_key key) (λ a. a.approval_id == approval_id)
              (consumed actor key' now) (λ r. refl) d.outbox_replay_approval
          ∙ rw h.found refl

  kept :
      (db : Db)
      → IsKept approval.consumed db
      → (spent : Bool) (d : Db) → Executions approval db spent d
      → IsKept spent d
  kept db h spent d none_yet = h
  kept db h spent e
        (then_replay {spent = b} {d} before event_id outbox_id' approval_id key' actor now result
          done) =
      replay_kept b d e (kept db h b d before) event_id outbox_id' approval_id key' actor now result
        done

-- An approval that is asked for again, with the same key, message and reason, by anyone at any time
-- and after any executions of replays, is answered with the approval that was given first, shown as
-- consumed exactly if it was then or has been executed since, and changes nothing.
pub approve_again :
    (sha256 : String → String) (approval_id event_id outbox_id : Uuid) (reason : String)
    (key : Uuid) (actor : AdminActor) (now : Instant) (db : Db) (approval : ReplayApproval)
    (db' d : Db) (spent : Bool) (approval_id' event_id' : Uuid) (actor' : AdminActor)
    (now' : Instant)
    → approve_replay sha256 approval_id event_id outbox_id reason key actor now db
      ≡ ok (approval, db')
    → Executions approval db' spent d
    → approve_replay sha256 approval_id' event_id' outbox_id reason key actor' now' d
      ≡ ok (record approval { consumed = spent }, d)
approve_again sha256 approval_id event_id outbox_id reason key actor now db approval db' d spent
      approval_id' event_id' actor' now' e run =
    let first =
      first_kept sha256 outbox_id reason key approval approval_id event_id actor now db db' e in
    answered sha256 outbox_id reason key approval spent d
      (kept sha256 outbox_id reason key approval db' first spent d run) approval_id' event_id'
      actor' now'
