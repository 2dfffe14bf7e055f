-- ===== src/Urge/Scan.antt =====
-- The scan with the transaction that queues its urges (`UrgeScanHandler.__call__` and
-- `SqlUrgeCommandSink.enqueue` of sd-agent/sd_agent/jobs/urge.py).
use sd_platform.Common.{
  ℕ, ◌+◌, ◌-◌, ℤ, pos, String, Bool, List, [], ◌∷◌, ◌++◌, none, if◌then◌else◌, length, ok, Datetime,
  exists_where, text_take, text_append,
}
use sd_platform.Common.Actions.{Exec, pure, lift, ◌>>=◌, ◌>>◌}
use sd_platform.Db.{
  Uuid, Scalar, DedupKey, same_key, Db, OutboxMessage, MessageState, AuditEvent, Who,
}
use sd_platform.World.{World, outside, on_tables}
use sd_platform.Rules.{level_value}
use sd_platform.Urge.{
  UrgeSnapshot, UrgeCommand, UrgeScan, require_coverage, all_commands, evaluated,
}

-- `UrgeSource`
pub record UrgeSource (W : Type 0) : Type 0 where
  pub load : (as_of : ℕ) → Exec W UrgeSnapshot

abbrev pub urge_message : Uuid → UrgeCommand → OutboxMessage
urge_message outbox_id c = record {
  outbox_id = outbox_id;
  kind = "oa.send_urge";
  dedup_key = c.dedup_key;
  payload =
      ("task_id", Scalar.num c.task_id)
      ∷ ("target_id", Scalar.num c.target_id)
      ∷ ("level", Scalar.text (level_value c.level))
      ∷ ("content", Scalar.text c.content)
      ∷ ("planned_at", Scalar.iso c.planned_at)
      ∷ [];
  state = MessageState.pending;
  available_at = c.planned_at.instant;
  lease_until = none;
  attempt_count = 0;
  last_error_code = none;
  created_at = c.planned_at.instant;
  updated_at = c.planned_at.instant;
}

abbrev pub urge_event : UrgeScan → (event_id outbox_id : Uuid) → UrgeCommand → AuditEvent
urge_event scan event_id outbox_id c = record {
  event_id = event_id;
  request_id = text_take 64 (text_append "job:" (scan.key_text c.dedup_key));
  who = Who.scheduler;
  role = none;
  what = "urge.plan";
  target_type = "task";
  target_id = Scalar.num c.task_id;
  result = "success";
  ip = none;
  user_agent = none;
  details =
      ("outbox_id", Scalar.uuid outbox_id)
      ∷ ("target_id", Scalar.num c.target_id)
      ∷ ("level", Scalar.text (level_value c.level))
      ∷ ("dedup_key", Scalar.text (scan.key_text c.dedup_key))
      ∷ [];
  created_at = c.planned_at.instant;
}

module _ (scan : UrgeScan) (outbox_id event_id : Db → Uuid) where
  abbrev pub queue_urge : UrgeCommand → Db → Db
  queue_urge c db = record db {
    outbox_message = db.outbox_message ++ urge_message (outbox_id db) c ∷ [];
    audit_event = db.audit_event ++ urge_event scan (event_id db) (outbox_id db) c ∷ [];
  }

  abbrev pub is_queued : DedupKey → Db → Bool
  is_queued key db = exists_where (λ m. same_key m.dedup_key key) db.outbox_message

  -- `SqlUrgeCommandSink.enqueue`: a command whose key is in the outbox is passed over.
  unfoldable pub enqueue : List UrgeCommand → ℕ × Db → ℕ × Db
  enqueue [] (inserted, db) = (inserted, db)
  enqueue (c ∷ cs) (inserted, db) =
      enqueue cs
        (if is_queued c.dedup_key db then (inserted, db) else (inserted + 1, queue_urge c db))

  -- `UrgeScanHandler.__call__`
  unfoldable pub scan_tasks :
      {W : Type 0} → UrgeSource W → Datetime → Exec (World W) (List (String × ℤ))
  scan_tasks source scheduled_for = do
    let as_of = scan.date_of scheduled_for
    snapshot ← outside (source.load as_of)
    lift (require_coverage snapshot as_of)
    commands ← lift (all_commands scan snapshot as_of scheduled_for snapshot.tasks)
    inserted ← on_tables λ db. ok (enqueue commands (0, db))
    pure (
        ("tasks", pos (length snapshot.tasks))
        ∷ ("evaluated", pos (evaluated snapshot.tasks))
        ∷ ("eligible", pos (length commands))
        ∷ ("enqueued", pos inserted)
        ∷ ("duplicates", pos (length commands - inserted))
        ∷ [])
