-- ===== src/ReplayStore/Samples.antt =====
-- A dead letter, its approval by one person and its replay by another, for the tests.
use sd_platform.Common.{
  false, ◌≡◌, ℕ, refl, String, [], ◌∷◌, none, some, ok, first_where, update_where,
}
use sd_platform.Db.{
  Db, Scalar, OutboxMessage, OutboxReplayApproval, MessageState, DedupKey, empty_db,
}
use sd_platform.Admin.{AdminActor, ReplayResult}
use sd_platform.ReplayStore.{
  approve_replay, approve_new, replay, replay_new, approval_of, consumed, requeued, audit,
  new_approval,
}

abbrev pub admin : ℕ → AdminActor
admin id = record {
  person_id = id;
  roles = "supervision_admin" ∷ [];
  request_id = "req_1";
  ip = none;
  user_agent = none;
}

abbrev pub dead : OutboxMessage
dead = record {
  outbox_id = 4;
  kind = "oa.send_urge";
  dedup_key = DedupKey.submission 4;
  payload = [];
  state = MessageState.dead_letter;
  available_at = 1;
  lease_until = none;
  attempt_count = 6;
  last_error_code = some "OA_UNAVAILABLE";
  created_at = 0;
  updated_at = 9;
}

abbrev pub start : Db
start = record empty_db { outbox_message = dead ∷ [] }

-- A hash for the runs: the text itself.
abbrev pub hash : String → String
hash s = s

abbrev pub waiting : OutboxReplayApproval
waiting = new_approval hash 100 4 "network is back" 500 (admin 1) 20

abbrev pub approved : Db
approved = record start {
  outbox_replay_approval = waiting ∷ [];
  audit_event =
      audit 200 (admin 1) "outbox.replay.approve" 4 "approved"
        (("approval_id", Scalar.uuid 100) ∷ ("reason_hash", Scalar.text "network is back") ∷ []) 20
      ∷ [];
}

pub approves :
    approve_replay hash 100 200 4 "network is back" 500 (admin 1) 20 start
    ≡ ok (approval_of waiting, approved)
unfolding approve_replay approve_new first_where
approves = refl

abbrev pub operator : AdminActor
operator = record (admin 2) { roles = "leader" ∷ "ops_admin" ∷ [] }

abbrev pub replayed : Db
replayed = record approved {
  outbox_message = requeued 40 dead ∷ [];
  outbox_replay_approval = consumed operator 600 40 waiting ∷ [];
  audit_event =
      audit 200 (admin 1) "outbox.replay.approve" 4 "approved"
        (("approval_id", Scalar.uuid 100) ∷ ("reason_hash", Scalar.text "network is back") ∷ []) 20
      ∷ audit 202 operator "outbox.replay.execute" 4 "queued"
          (("approval_id", Scalar.uuid 100) ∷ []) 40
      ∷ [];
}

abbrev pub queued : ReplayResult
queued = record { outbox_id = 4; approval_id = 100; idempotent = false }

pub replays : replay 202 4 100 600 operator 40 approved ≡ ok (queued, replayed)
unfolding replay replay_new first_where update_where
replays = refl
