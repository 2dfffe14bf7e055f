-- ===== src/Sessions.antt =====
-- Sessions: the tokens that name them (`TokenService` of sd-agent/sd_agent/auth/security.py),
-- their table (sd-agent/sd_agent/persistence/sessions.py), and who a token stands for
-- (`AuthService` of sd-agent/sd_agent/auth/service.py). The JWT library reads a token's header and
-- its claims, and the store of identities says who a person is: both are arguments. A token that
-- the library refuses, or whose claims are not the five of the service in their types, reads as
-- `none`.
use sd_platform.Common.{
  ℕ, String, Bool, true, false, not, ◌&&◌, ◌||◌, List, [], ◌∷◌, Option, none, some, ◌==◌, ltb, leb,
  str_eq, if◌then◌else◌, is_none, Exn, other, Result, ok, err, or_raise, ◌>>=◌, ◌>>◌, Instant,
  seconds, Datetime, require_utc, first_where, update_where, exists_where, is_empty, minutes, ◌+◌,
}
use sd_platform.Common.{require as check}
use sd_platform.Db.{Db, AuthSession}
use sd_platform.Report.{RoleScope}
mod Access
mod Tokens
mod Csrf
mod Tests

pub record Principal : Type 0 where
  pub person_id : ℕ
  pub sid : String
  pub kid : String
  pub issued_at : Instant
  pub expires_at : Instant

-- The claims of a token, with its times in seconds.
pub record Claims : Type 0 where
  pub sub : ℕ
  pub sid : String
  pub kid : String
  pub iat : ℕ
  pub exp : ℕ

pub record PersonIdentity : Type 0 where
  pub person_id : ℕ
  pub name : String
  pub unit_id : ℕ
  pub active : Bool
  pub authz_version : ℕ

pub record AuthenticatedUser : Type 0 where
  pub principal : Principal
  pub session : AuthSession
  pub person : PersonIdentity
  pub roles : List RoleScope

-- `IdentityStore`
pub record IdentityStore : Type 0 where
  pub get_person : ℕ → Result (Option PersonIdentity)
  pub get_active_roles : ℕ → Instant → Result (List RoleScope)

-- The JWT library.
pub record Jwt : Type 0 where
  pub header_kid : String → Option String
  pub claims : (token key : String) → Option Claims
  -- a token for a person and a session under a key's id, with the time of issue and of expiry
  pub encode :
      (person_id : ℕ) (sid kid : String) (issued_at expires_at : Instant) (key : String) → String

abbrev pub bad_token : Exn
bad_token = other "AuthTokenError"

abbrev pub no_session : Exn
no_session = other "AuthenticationError"

abbrev pub key_of : String → List (String × String) → Option String
key_of kid [] = none
key_of kid ((k, key) ∷ keys) = let rest = key_of kid keys in if str_eq k kid then some key else rest

-- `TokenService.issue`
unfoldable pub issue :
    Jwt
    → (active_kid : String) (keys : List (String × String)) (expire_minutes person_id : ℕ)
      (sid : String)
    → Datetime
    → Result String
issue jwt active_kid keys expire_minutes person_id sid now = do
  issued_at ← require_utc now
  key ← or_raise (key_of active_kid keys) (other "KeyError")
  ok (jwt.encode person_id sid active_kid issued_at (issued_at + minutes expire_minutes) key)

-- `TokenService.verify`, at a time in UTC
unfoldable pub verify :
    Jwt → (keys : List (String × String)) → (token : String) → Instant → Result Principal
verify jwt keys token now = do
  kid ← or_raise (jwt.header_kid token) bad_token
  key ← or_raise (key_of kid keys) bad_token
  claims ← or_raise (jwt.claims token key) bad_token
  check (str_eq claims.kid kid) bad_token
  check (not (claims.sub == 0)) bad_token
  check (not (is_empty claims.sid)) bad_token
  check (leb (seconds claims.iat) now) bad_token
  check (ltb now (seconds claims.exp)) bad_token
  ok (record {
    person_id = claims.sub;
    sid = claims.sid;
    kid = kid;
    issued_at = seconds claims.iat;
    expires_at = seconds claims.exp;
  })

-- except ValueError: the token's error is hidden behind the service's own
abbrev pub hidden : Result Principal → Result Principal
hidden (ok p) = ok p
hidden (err e) = err no_session

abbrev pub with_sid : String → AuthSession → Bool
with_sid sid row = str_eq row.sid sid

abbrev pub is_live : String → AuthSession → Bool
is_live sid row = str_eq row.sid sid && is_none row.revoked_at

-- `AuthService.authenticate`
unfoldable pub authenticate :
    Jwt
    → (keys : List (String × String)) → IdentityStore
    → (token : String) → Datetime
    → Db
    → Result AuthenticatedUser
authenticate jwt keys identities token now db = do
  current_time ← require_utc now
  principal ← hidden (verify jwt keys token current_time)
  session ← or_raise (first_where (with_sid principal.sid) db.auth_session) no_session
  check (session.person_id == principal.person_id) no_session
  check (str_eq session.kid principal.kid) no_session
  check (is_none session.revoked_at) no_session
  check (ltb current_time session.expires_at) no_session
  check (leb principal.expires_at session.expires_at) no_session
  found ← identities.get_person principal.person_id
  person ← or_raise found no_session
  check person.active no_session
  roles ← identities.get_active_roles person.person_id current_time
  ok (record { principal = principal; session = session; person = person; roles = roles })

abbrev pub revoked : Instant → AuthSession → AuthSession
revoked now row = record row { revoked_at = some now; last_seen_at = now }

-- `SqlSessionStore.revoke`
unfoldable pub revoke : String → Instant → Db → Bool × Db
revoke sid now db = (
  exists_where (is_live sid) db.auth_session,
  record db { auth_session = update_where (is_live sid) (revoked now) db.auth_session },
)

abbrev pub refreshed : String → Instant → AuthSession → AuthSession
refreshed csrf_hash now row = record row { csrf_hash = csrf_hash; last_seen_at = now }

-- `SqlSessionStore.update_csrf`
unfoldable pub update_csrf : (sid csrf_hash : String) → Instant → Db → Bool × Db
update_csrf sid csrf_hash now db = (
  exists_where (is_live sid) db.auth_session,
  record db { auth_session = update_where (is_live sid) (refreshed csrf_hash now) db.auth_session },
)

-- `AuthService.issue_csrf`, for the token that is drawn. `digest` is the keyed hash of a session's
-- id and a token (`CsrfProtector.digest`).
unfoldable pub issue_csrf :
    (digest : (sid token : String) → String)
    → (token : String) → AuthenticatedUser
    → Datetime
    → Db
    → Result (String × Db)
issue_csrf digest token user now db = do
  current_time ← require_utc now
  (let (updated, db') =
        update_csrf user.session.sid (digest user.session.sid token) current_time db in
      (check updated no_session >> ok (token, db')))

-- `AuthService.verify_csrf`
unfoldable pub verify_csrf :
    (digest : (sid token : String) → String) → AuthenticatedUser → Option String → Result (Unit {0})
verify_csrf digest user none = err no_session
verify_csrf digest user (some token) =
    if not (is_empty token) && str_eq (digest user.session.sid token) user.session.csrf_hash
    then ok tt
    else err no_session

-- `AuthService.logout`
unfoldable pub logout : AuthenticatedUser → Datetime → Db → Result Db
logout user now db = do
  current_time ← require_utc now
  ok ((revoke user.session.sid current_time db).1)
