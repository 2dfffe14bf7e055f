-- ===== src/Sso.antt =====
-- Single sign-on through the OA (`SsoService` of sd-agent/sd_agent/sso/service.py) and the check of
-- the path that a login returns to (`validate_redirect_path` of sd-agent/sd_agent/auth/security.py),
-- over the tables, the tokens and the identities of Sessions. The provider acts on a state `W` of
-- its own. SHA-256 and the functions of urllib are parameters, and the random texts that the code
-- draws are arguments.
pub mod Mock
pub mod Login
pub mod Once
mod Session
mod Tests
use sd_platform.Common.{
  ℕ, ◌+◌, String, Bool, true, false, not, ◌&&◌, ◌||◌, List, [], ◌∷◌, Option, none, some, ltb, leb,
  ◌==◌, str_eq, if◌then◌else◌, Exn, value_error, app_error, Result, ok, err, or_raise, Instant,
  Datetime, utc, require_utc, minutes, text_length, text_take, is_empty, mem_text,
}
use sd_platform.Common.{require as check}
use sd_platform.Common.Actions.{Exec, pure, lift, raise, ◌>>=◌, ◌>>◌}
use sd_platform.Db.{Uuid, Db}
use sd_platform.World.{World, outside}
use sd_platform.Sessions.{Jwt, IdentityStore, PersonIdentity, Principal, issue, verify}
use sd_platform.SsoStore.{
  PendingSsoAttempt, LoginFacts, create_attempt, get_pending_attempt, consume_and_create_session,
  record_failure,
}
use Prim.Native.Char.{Char, code}

pub record SsoExternalIdentity : Type 0 where
  pub person_id : ℕ
  pub nonce : String

pub record SsoStartResult : Type 0 where
  pub state : String
  pub nonce : String
  pub authorization_url : String

pub record SsoCallbackResult : Type 0 where
  pub token : String
  pub redirect_path : String
  pub expires_at : Instant

abbrev pub sso_error : String → Exn
sso_error code = app_error "SsoError" code 0 false

-- `SsoProvider`
pub record SsoProvider (W : Type 0) : Type 0 where
  pub authorization_url : (state nonce : String) → String
  pub exchange_ticket : String → Exec W SsoExternalIdentity

-- What `urlsplit` says of a text.
pub record UrlParts : Type 0 where
  pub scheme : String
  pub netloc : String
  pub query : String
  pub fragment : String

-- ord(character) < 32, "%" or "\\", anywhere in the text
abbrev pub has_unsafe : String → Bool
has_unsafe String.[] = false
has_unsafe (String.◌∷◌ c s) = let n = code c in (ltb n 32 || (n == 37 || n == 92)) || has_unsafe s

abbrev pub starts_with_slash : String → Bool
starts_with_slash String.[] = false
starts_with_slash (String.◌∷◌ c s) = code c == 47

abbrev pub starts_with_slashes : String → Bool
starts_with_slashes String.[] = false
starts_with_slashes (String.◌∷◌ c s) = code c == 47 && starts_with_slash s

-- `validate_redirect_path`
unfoldable pub validate_redirect_path :
    (unquote : String → String) (urlsplit : String → UrlParts) (allowed_paths : List String)
    (raw : String)
    → Result String
validate_redirect_path unquote urlsplit allowed_paths raw =
    let decoded = unquote raw in
    let parsed = urlsplit decoded in
    if is_empty raw || has_unsafe raw
    then err (value_error "redirect path is invalid")
    else if starts_with_slashes decoded
        || (not (starts_with_slash decoded)
            || (not (is_empty parsed.scheme)
                || (not (is_empty parsed.netloc)
                    || (not (is_empty parsed.query) || not (is_empty parsed.fragment)))))
    then err (value_error "redirect path is invalid")
    else if not (mem_text decoded allowed_paths)
    then err (value_error "redirect path is not allowed")
    else ok decoded

-- The service with what its constructor is given.
pub record SsoService (W : Type 0) : Type 0 where
  pub provider : SsoProvider W
  pub identities : IdentityStore
  pub jwt : Jwt
  pub active_kid : String
  pub keys : List (String × String)
  pub expire_minutes : ℕ
  pub attempt_minutes : ℕ
  pub validate : String → Result String
  pub sha256 : String → String

-- The guard of `SsoService.__init__`
unfoldable pub lifetime_guard : (attempt_minutes : ℕ) → Result (Unit {0})
lifetime_guard attempt_minutes =
    check (leb 1 attempt_minutes && leb attempt_minutes 15)
      (value_error "SSO attempt lifetime must be between 1 and 15 minutes")

-- except ValueError: a redirect that is refused is an error of the login
abbrev pub redirect_checked : Result String → Result String
redirect_checked (ok path) = ok path
redirect_checked (err e) = err (sso_error "SSO_REDIRECT_INVALID")

-- One callback: what it is called with, and what it draws.
pub record Callback : Type 0 where
  pub ticket : String
  pub state : String
  pub request_id : String
  pub now : Datetime
  pub sid : String
  pub event_id : Uuid
  pub failure_id : Uuid

module _ {W : Type 0} (service : SsoService W) where
  -- `SsoService.start`
  unfoldable pub start :
      (attempt_id : Uuid) (state nonce redirect : String) → Datetime → Exec (World W) SsoStartResult
  start attempt_id state nonce redirect now = do
    current_time ← lift (require_utc now)
    redirect_path ← lift (redirect_checked (service.validate redirect))
    let attempt : PendingSsoAttempt = record {
      state_hash = service.sha256 state;
      nonce_hash = service.sha256 nonce;
      redirect_path = redirect_path;
      created_at = current_time;
      expires_at = current_time + minutes service.attempt_minutes;
      consumed_at = none;
    }
    λ s. (
      ok (record {
        state = state;
        nonce = nonce;
        authorization_url = service.provider.authorization_url state nonce;
      }),
      record s { db = create_attempt attempt_id attempt s.db },
    )

  -- safe_state
  abbrev pub safe_state : String → String
  safe_state state = if leb (text_length state) 512 then state else text_take 512 state

  abbrev pub is_ticket : Callback → Bool
  is_ticket c = not (
      is_empty c.ticket
      || (ltb 512 (text_length c.ticket) || (is_empty c.state || ltb 512 (text_length c.state))))

  abbrev pub facts_of : Callback → (state_hash : String) → ℕ → Principal → LoginFacts
  facts_of c state_hash person_id principal = record {
    state_hash = state_hash;
    ticket_hash = service.sha256 c.ticket;
    person_id = person_id;
    sid = c.sid;
    kid = principal.kid;
    expires_at = principal.expires_at;
    request_id = c.request_id;
  }

  abbrev pub pending_login : (state_hash : String) → Instant → Exec (World W) PendingSsoAttempt
  pending_login state_hash now s =
      (or_raise (get_pending_attempt state_hash now s.db) (sso_error "SSO_STATE_INVALID"), s)

  -- The person of an identity that belongs to the attempt.
  unfoldable pub recognised :
      PendingSsoAttempt → SsoExternalIdentity → Exec (World W) PersonIdentity
  recognised attempt identity = do
    lift (
        check (str_eq attempt.nonce_hash (service.sha256 identity.nonce))
          (sso_error "SSO_NONCE_INVALID"))
    found ← lift (service.identities.get_person identity.person_id)
    person ← lift (or_raise found (sso_error "SSO_PERSON_INACTIVE"))
    lift (check person.active (sso_error "SSO_PERSON_INACTIVE"))
    pure person

  -- The first part of the `try` of `SsoService.callback`: who the ticket stands for.
  unfoldable pub identified :
      Callback → (state_hash : String) → Instant → Exec (World W) PersonIdentity
  identified c state_hash now = do
    lift (check (is_ticket c) (sso_error "SSO_TICKET_INVALID"))
    attempt ← pending_login state_hash now
    identity ← outside (service.provider.exchange_ticket c.ticket)
    recognised attempt identity

  abbrev pub redirected :
      (token : String)
      → Principal
      → Option String × Db
      → World W
      → Result SsoCallbackResult × World W
  redirected token principal (none, db) s =
      (err (sso_error "SSO_STATE_INVALID"), record s { db = db })
  redirected token principal (some path, db) s = (
    ok (record { token = token; redirect_path = path; expires_at = principal.expires_at }),
    record s { db = db },
  )

  -- The end of a login: its attempt is consumed and its session written.
  unfoldable pub consuming :
      Callback
      → (state_hash : String) → Instant
      → (person_id : ℕ) (token : String) → Principal
      → Exec (World W) SsoCallbackResult
  consuming c state_hash now person_id token principal s =
      redirected token principal
        (consume_and_create_session c.event_id (facts_of c state_hash person_id principal) now s.db)
        s

  -- Its second part: the person's token and session.
  unfoldable pub admitted :
      Callback → (state_hash : String) → Instant → PersonIdentity → Exec (World W) SsoCallbackResult
  admitted c state_hash now person = do
    token ← lift (
        issue service.jwt service.active_kid service.keys service.expire_minutes person.person_id
          c.sid (utc now))
    principal ← lift (verify service.jwt service.keys token now)
    consuming c state_hash now person.person_id token principal

  unfoldable pub log_in :
      Callback → (state_hash : String) → Instant → Exec (World W) SsoCallbackResult
  log_in c state_hash now =
      identified c state_hash now >>= λ person. admitted c state_hash now person

  -- except SsoError: the failure is recorded, and the error raised again
  abbrev pub recording :
      Callback
      → (state_hash : String) → Instant
      → Result SsoCallbackResult × World W
      → Result SsoCallbackResult × World W
  recording c state_hash now (ok r, s) = (ok r, s)
  recording c state_hash now (err (app_error class_name code status retryable), s) =
      if str_eq class_name "SsoError"
      then (
        err (app_error class_name code status retryable),
        record s { db = record_failure c.failure_id state_hash c.request_id code now s.db },
      )
      else (err (app_error class_name code status retryable), s)
  recording c state_hash now (err e, s) = (err e, s)

  -- `SsoService.callback`
  unfoldable pub callback : Callback → Exec (World W) SsoCallbackResult
  callback c = do
    current_time ← lift (require_utc c.now)
    let state_hash = service.sha256 (safe_state c.state)
    λ s. recording c state_hash current_time (log_in c state_hash current_time s)
