-- ===== src/Sessions/Tests.antt =====
-- Two sessions of one person, of which one logs out.
use sd_platform.Common.{
  ◌≡◌, ◌≢◌, String, refl, true, [], ◌∷◌, none, some, ok, utc, seconds, require_utc, first_where,
  update_where, arith,
}
use sd_platform.Db.{Db, AuthSession, empty_db}
use sd_platform.Sessions.{
  Jwt, IdentityStore, AuthenticatedUser, PersonIdentity, authenticate, verify, revoke, logout,
  revoked, issue, issue_csrf, verify_csrf, update_csrf, refreshed,
}
use sd_platform.Sessions.Access.{IsLive, authenticate-IsLive, logout_ends}
use sd_platform.Sessions.Tokens.{issue_verifies}
use sd_platform.Sessions.Csrf.{csrf_accepted}

-- A library whose tokens are their session's id.
abbrev jwt : Jwt
jwt = record {
  header_kid = λ token. some "k1";
  claims = λ token key. some (record { sub = 7; sid = token; kid = "k1"; iat = 10; exp = 910 });
  encode = λ person sid kid issued_at expires_at key. sid;
}

abbrev person : PersonIdentity
person = record { person_id = 7; name = "Li"; unit_id = 12; active = true; authz_version = 1 }

abbrev identities : IdentityStore
identities = record { get_person = λ id. ok (some person); get_active_roles = λ id now. ok [] }

abbrev session : String → AuthSession
session sid = record {
  sid = sid;
  person_id = 7;
  kid = "k1";
  csrf_hash = "";
  expires_at = seconds 1000;
  revoked_at = none;
  last_seen_at = seconds 10;
  created_at = seconds 10;
}

abbrev start : Db
start = record empty_db { auth_session = session "phone" ∷ session "desk" ∷ [] }

abbrev user_of : String → AuthenticatedUser
user_of sid = record {
  principal = record {
    person_id = 7;
    sid = sid;
    kid = "k1";
    issued_at = seconds 10;
    expires_at = seconds 910;
  };
  session = session sid;
  person = person;
  roles = [];
}

abbrev after_logout : Db
after_logout = record empty_db {
  auth_session = revoked (seconds 50) (session "phone") ∷ session "desk" ∷ [];
}

gets_in :
    authenticate jwt (("k1", "secret") ∷ []) identities "phone" (utc (seconds 20)) start
    ≡ ok (user_of "phone")
unfolding authenticate verify require_utc first_where
gets_in = refl

logs_out : logout (user_of "phone") (utc (seconds 50)) start ≡ ok after_logout
unfolding logout revoke require_utc update_where
logs_out = refl

desk_stays :
    authenticate jwt (("k1", "secret") ∷ []) identities "desk" (utc (seconds 60)) after_logout
    ≡ ok (user_of "desk")
unfolding authenticate verify require_utc first_where
desk_stays = refl

authenticate-IsLive_example : IsLive (user_of "phone") (seconds 20) start
authenticate-IsLive_example =
    authenticate-IsLive jwt (("k1", "secret") ∷ []) identities "phone" (utc (seconds 20)) start
      (user_of "phone") gets_in

abbrev desk : String
desk = "desk"

abbrev phone : String
phone = "phone"

logout_ends_example : desk ≢ phone
logout_ends_example =
    logout_ends jwt (("k1", "secret") ∷ []) identities "desk" (user_of "phone") (user_of "desk")
      (utc (seconds 50)) (utc (seconds 60)) start after_logout logs_out desk_stays

positive : person.person_id ≢ 0
positive e = omega arith

issue_verifies_example :
    verify jwt (("k1", "secret") ∷ []) "phone" (seconds 800)
    ≡ ok (record {
      person_id = 7;
      sid = "phone";
      kid = "k1";
      issued_at = seconds 10;
      expires_at = seconds 910;
    })
unfolding issue require_utc
issue_verifies_example =
    issue_verifies jwt "k1" "secret" (("k1", "secret") ∷ []) 15 7 "phone" (utc (seconds 10)) "phone"
      (seconds 800) refl refl refl refl positive refl (omega arith) (omega arith)

abbrev with_csrf : Db
with_csrf = record empty_db {
  auth_session = refreshed "phone" (seconds 30) (session "phone") ∷ session "desk" ∷ [];
}

-- A digest for the runs: the session's id.
abbrev digest : (sid token : String) → String
digest sid token = sid

abbrev phone_user : AuthenticatedUser
phone_user = record (user_of "phone") { session = refreshed "phone" (seconds 30) (session "phone") }

issues :
    issue_csrf digest "fresh" (user_of "phone") (utc (seconds 30)) start ≡ ok ("fresh", with_csrf)
unfolding issue_csrf update_csrf require_utc first_where update_where
issues = refl

gets_in_again :
    authenticate jwt (("k1", "secret") ∷ []) identities "phone" (utc (seconds 40)) with_csrf
    ≡ ok phone_user
unfolding authenticate verify require_utc first_where
gets_in_again = refl

csrf_accepted_example : verify_csrf digest phone_user (some "fresh") ≡ ok tt
csrf_accepted_example =
    csrf_accepted jwt (("k1", "secret") ∷ []) identities digest "phone" "fresh" (user_of "phone")
      phone_user (utc (seconds 30)) (utc (seconds 40)) start with_csrf refl issues gets_in_again
      refl
