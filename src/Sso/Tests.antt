-- ===== src/Sso/Tests.antt =====
-- One login through the stand-in for the OA, and the theorems on logins at it.
use sd_platform.Common.{
  ◌≡◌, ◌≢◌, refl, inl, ℕ, String, [], ◌∷◌, some, none, ok, true, Instant, utc, require_utc, seconds,
  if◌then◌else◌, ◌==◌, Bool-cases, inr, arith, eq_iff, false, first_where, update_where, Result,
}
use sd_platform.Db.{AuthSession, SsoLoginAttempt, empty_db}
use sd_platform.World.{World}
use sd_platform.Sessions.{Jwt, PersonIdentity, Principal, authenticate, issue, verify}
use sd_platform.SsoStore.{consume_and_create_session, get_pending_attempt, attempt_of}
use sd_platform.Sso.{
  SsoService, SsoCallbackResult, Callback, callback, log_in, identified, recognised, admitted,
  consuming,
}
use sd_platform.Sso.Mock.{Tickets, mock_provider, exchange_ticket}
use sd_platform.Sso.Once.{callback_once}
use sd_platform.Sso.Session.{callback_authenticates}

-- A library whose tokens are their session's id.
abbrev jwt : Jwt
jwt = record {
  header_kid = λ token. some "k1";
  claims = λ token key. some (record { sub = 7; sid = "sid_1"; kid = "k1"; iat = 10; exp = 910 });
  encode = λ person sid kid issued_at expires_at key. if person == 7 then sid else "other";
}

abbrev person : PersonIdentity
person = record { person_id = 7; name = "Li"; unit_id = 12; active = true; authz_version = 1 }

abbrev service : SsoService Tickets
service = record {
  provider = mock_provider λ state nonce. "/api/sso/stub/authorize";
  identities = record { get_person = λ id. ok (some person); get_active_roles = λ id now. ok [] };
  jwt = jwt;
  active_kid = "k1";
  keys = ("k1", "secret") ∷ [];
  expire_minutes = 15;
  attempt_minutes = 5;
  validate = λ path. ok path;
  sha256 = λ t. t;
}

abbrev attempt : SsoLoginAttempt
attempt = record {
  attempt_id = 1;
  state_hash = "state_1";
  nonce_hash = "nonce_1";
  redirect_path = "/home";
  ticket_hash = none;
  created_at = seconds 10;
  expires_at = seconds 310;
  consumed_at = none;
}

abbrev start : World Tickets
start = record {
  db = record empty_db { sso_login_attempt = attempt ∷ [] };
  outside = ("ticket_1", record { person_id = 7; nonce = "nonce_1" }) ∷ [];
}

abbrev call : ℕ → Callback
call n = record {
  ticket = "ticket_1";
  state = "state_1";
  request_id = "req_1";
  now = utc (seconds n);
  sid = "sid_1";
  event_id = 2;
  failure_id = 3;
}

abbrev answer : SsoCallbackResult
answer = record { token = "sid_1"; redirect_path = "/home"; expires_at = seconds 910 }

abbrev final : World Tickets
final = (callback service (call 20) start).1

logs_in : callback service (call 20) start ≡ (ok answer, final)
unfolding callback log_in identified recognised admitted consuming consume_and_create_session
    get_pending_attempt attempt_of exchange_ticket issue verify require_utc first_where update_where
logs_in = refl

callback_once_example : callback service (call 30) final ≢ (ok answer, final)
callback_once_example =
    callback_once service (call 20) (call 30) answer answer start final final final logs_in
      (inl refl) refl

abbrev principal : Principal
principal = record {
  person_id = 7;
  sid = "sid_1";
  kid = "k1";
  issued_at = seconds 10;
  expires_at = seconds 910;
}

ok_same : (a b : String) → ◌≡◌ {A = Result String} (ok a) (ok b) → a ≡ b
ok_same a b e = cc

other_text : ◌≢◌ {A = Result String} (ok "other") (ok "sid_1")
other_text e = let bad : false ≡ true = (eq_iff "other" "sid_1").1 (ok_same "other" "sid_1" e) in cc

reads_back :
    (person_id : ℕ) (at now : Instant) (p : Principal)
    → issue jwt "k1" (("k1", "secret") ∷ []) 15 person_id "sid_1" (utc at) ≡ ok "sid_1"
    → verify jwt (("k1", "secret") ∷ []) "sid_1" now ≡ ok p
    → (p.person_id ≡ person_id) × (p.sid ≡ "sid_1")
unfolding issue verify require_utc
reads_back person_id at now p issued verified = elim (Bool-cases (person_id == 7)) [
  | inl own ↦ (ground (arith, own, verified), ground (arith, verified))
  | inr other ↦ absurd (other_text (rw other at issued))
]

callback_authenticates_example :
    (session : AuthSession) × (authenticate jwt
        (("k1", "secret") ∷ [])
        service.identities
        "sid_1"
        (utc (seconds 60))
        final.db
      ≡ ok (record { principal = principal; session = session; person = person; roles = [] }))
unfolding require_utc verify first_where
callback_authenticates_example =
    callback_authenticates service (call 20) answer start final (utc (seconds 60)) (seconds 60)
      principal person [] reads_back logs_in refl refl refl refl refl refl
