-- ===== src/SsoStore.antt =====
-- Pending logins in PostgreSQL (sd-agent/sd_agent/persistence/sso.py). Each function is one
-- transaction over the tables; the UUIDs that the code draws are arguments.
use sd_platform.Common.{
  ℕ, String, Bool, not, ◌&&◌, ◌||◌, List, [], ◌∷◌, ◌++◌, Option, none, some, ltb, leb, ◌==◌, str_eq,
  if◌then◌else◌, is_none, Instant, first_where, update_where, exists_where, text_take,
}
use sd_platform.Db.{Uuid, Scalar, Db, AuthSession, SsoLoginAttempt, AuditEvent, Who, is_text}

-- `PendingSsoAttempt`
pub record PendingSsoAttempt : Type 0 where
  pub state_hash : String
  pub nonce_hash : String
  pub redirect_path : String
  pub created_at : Instant
  pub expires_at : Instant
  pub consumed_at : Option Instant

-- `SqlSsoPersistence.create_attempt`
unfoldable pub create_attempt : Uuid → PendingSsoAttempt → Db → Db
create_attempt attempt_id attempt db = record db {
  sso_login_attempt =
      db.sso_login_attempt
      ++ record {
        attempt_id = attempt_id;
        state_hash = attempt.state_hash;
        nonce_hash = attempt.nonce_hash;
        redirect_path = attempt.redirect_path;
        ticket_hash = none;
        created_at = attempt.created_at;
        expires_at = attempt.expires_at;
        consumed_at = none;
      }
        ∷ [];
}

-- `_attempt`
unfoldable pub attempt_of : SsoLoginAttempt → PendingSsoAttempt
attempt_of row = record {
  state_hash = row.state_hash;
  nonce_hash = row.nonce_hash;
  redirect_path = row.redirect_path;
  created_at = row.created_at;
  expires_at = row.expires_at;
  consumed_at = row.consumed_at;
}

abbrev pub with_state : String → SsoLoginAttempt → Bool
with_state state_hash row = str_eq row.state_hash state_hash

abbrev pub with_ticket : String → SsoLoginAttempt → Bool
with_ticket ticket_hash row = is_text row.ticket_hash ticket_hash

abbrev pub is_pending_login : Instant → SsoLoginAttempt → Bool
is_pending_login now row = is_none row.consumed_at && ltb now row.expires_at

abbrev pub attempt_in : Option SsoLoginAttempt → Option PendingSsoAttempt
attempt_in none = none
attempt_in (some row) = some (attempt_of row)

-- `SqlSsoPersistence.get_pending_attempt`
unfoldable pub get_pending_attempt : (state_hash : String) → Instant → Db → Option PendingSsoAttempt
get_pending_attempt state_hash now db = attempt_in (
    first_where (λ row. with_state state_hash row && is_pending_login now row) db.sso_login_attempt)

-- What the callback brings to the transaction that ends a login.
pub record LoginFacts : Type 0 where
  pub state_hash : String
  pub ticket_hash : String
  pub person_id : ℕ
  pub sid : String
  pub kid : String
  pub expires_at : Instant
  pub request_id : String

abbrev pub zeros : String
zeros = "0000000000000000000000000000000000000000000000000000000000000000"

abbrev pub new_session : LoginFacts → Instant → AuthSession
new_session facts now = record {
  sid = facts.sid;
  person_id = facts.person_id;
  kid = facts.kid;
  csrf_hash = zeros;
  expires_at = facts.expires_at;
  revoked_at = none;
  last_seen_at = now;
  created_at = now;
}

abbrev pub login_event : Uuid → LoginFacts → Instant → AuditEvent
login_event event_id facts now = record {
  event_id = event_id;
  request_id = facts.request_id;
  who = Who.person facts.person_id;
  role = none;
  what = "auth.sso.login";
  target_type = "auth_session";
  target_id = Scalar.text facts.sid;
  result = "success";
  ip = none;
  user_agent = none;
  details = ("provider", Scalar.text "oa") ∷ [];
  created_at = now;
}

abbrev pub spent : String → Instant → SsoLoginAttempt → SsoLoginAttempt
spent ticket_hash now row = record row { ticket_hash = some ticket_hash; consumed_at = some now }

abbrev pub logged_in : Uuid → LoginFacts → Instant → SsoLoginAttempt → Db → Db
logged_in event_id facts now row db = record db {
  sso_login_attempt =
      update_where (λ r. r.attempt_id == row.attempt_id) (spent facts.ticket_hash now)
        db.sso_login_attempt;
  auth_session = db.auth_session ++ new_session facts now ∷ [];
  audit_event = db.audit_event ++ login_event event_id facts now ∷ [];
}

-- `SqlSsoPersistence.consume_and_create_session`
unfoldable pub consume_and_create_session :
    (event_id : Uuid) → LoginFacts → Instant → Db → Option String × Db
consume_and_create_session event_id facts now db =
    if exists_where (with_ticket facts.ticket_hash) db.sso_login_attempt
    then (none, db)
    else elim (first_where (with_state facts.state_hash) db.sso_login_attempt) [
      | none ↦ (none, db)
      | some row ↦
          if not (is_none row.consumed_at) || leb row.expires_at now
          then (none, db)
          else (some row.redirect_path, logged_in event_id facts now row db)
    ]

abbrev pub failure_event : Uuid → (state_hash request_id error_code : String) → Instant → AuditEvent
failure_event event_id state_hash request_id error_code now = record {
  event_id = event_id;
  request_id = request_id;
  who = Who.anonymous;
  role = none;
  what = "auth.sso.login";
  target_type = "sso_state";
  target_id = Scalar.text (text_take 16 state_hash);
  result = "failed";
  ip = none;
  user_agent = none;
  details = ("error_code", Scalar.text error_code) ∷ ("provider", Scalar.text "oa") ∷ [];
  created_at = now;
}

-- A pending attempt of the state is closed.
abbrev pub closed_attempts : String → Instant → List SsoLoginAttempt → List SsoLoginAttempt
closed_attempts state_hash now rows = elim (first_where (with_state state_hash) rows) [
  | none ↦ rows
  | some row ↦
      if is_pending_login now row
      then update_where (λ r. r.attempt_id == row.attempt_id)
          (λ r. record r { consumed_at = some now }) rows
      else rows
]

-- `SqlSsoPersistence.record_failure`
unfoldable pub record_failure :
    (event_id : Uuid) (state_hash request_id error_code : String) → Instant → Db → Db
record_failure event_id state_hash request_id error_code now db = record db {
  sso_login_attempt = closed_attempts state_hash now db.sso_login_attempt;
  audit_event = db.audit_event ++ failure_event event_id state_hash request_id error_code now ∷ [];
}
