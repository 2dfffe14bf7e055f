-- ===== src/Sessions/Access.antt =====
-- Who gets in, and for how long (`AuthService`).
use sd_platform.Common.{
  ◌≡◌, ◌≢◌, ◌≤◌, ◌<◌, refl, sym, ap, subst, ◌∙◌, String, true, false, List, some, ok, arith,
  Instant, Datetime, require_utc, first_where, first_where-update, first_where-test, Option-cases,
  inl, inr, update_where, is_none, Bool-cases,
}
use sd_platform.Db.{Db, AuthSession}
use sd_platform.Sessions.{
  Jwt, IdentityStore, AuthenticatedUser, authenticate, with_sid, is_live, revoked, revoke, logout,
}

-- The session is stored under the token's id, is the person's, and is neither revoked nor over.
pub record IsLive (user : AuthenticatedUser) (now : Instant) (db : Db) : Type 0 where
  pub stored : first_where (with_sid user.principal.sid) db.auth_session ≡ some user.session
  pub person : user.session.person_id ≡ user.principal.person_id
  pub unrevoked : is_none user.session.revoked_at ≡ true
  pub unexpired : now < user.session.expires_at
  pub within : user.principal.expires_at ≤ user.session.expires_at
  pub active : user.person.active ≡ true

module _ (jwt : Jwt) (keys : List (String × String)) (identities : IdentityStore) (token : String)
    (now : Datetime) (db : Db) where
  -- A token lets in only a person who is active, with a session that is stored under the token's
  -- id, is that person's, is not revoked, is not over, and lasts at least as long as the token.
  pub authenticate-IsLive :
      (user : AuthenticatedUser)
      → authenticate jwt keys identities token now db ≡ ok user
      → IsLive user now.instant db
  unfolding authenticate require_utc
  authenticate-IsLive user e = record {
    stored = ground arith;
    person = ground arith;
    unrevoked = ground arith;
    unexpired = ground arith;
    within = ground arith;
    active = ground arith;
  }

-- The row of a session that was revoked has a time of revocation.
revoked_stays :
    (sid : String) (now : Instant) (rows : List AuthSession) (row : AuthSession)
    → first_where (with_sid sid) (update_where (is_live sid) (revoked now) rows) ≡ some row
    → is_none row.revoked_at ≡ false
revoked_stays sid now rows row found =
    let same = first_where-update (with_sid sid) (is_live sid) (revoked now) (λ r. refl) rows in
    elim (Option-cases (first_where (with_sid sid) rows)) [
      | inl absent ↦ let gone = rw absent at same in cc
      | inr (r, there) ↦
          let hit = first_where-test (with_sid sid) rows r there in
          let now_there = rw there at same in
          elim (Bool-cases (is_none r.revoked_at)) [
            | inl live ↦ ground (arith, now_there, found, hit)
            | inr over ↦ ground (arith, now_there, found, hit)
          ]
    ]

-- After a logout no token gets in with that session, whatever the token says and whenever it comes.
pub logout_ends :
    (jwt : Jwt) (keys : List (String × String)) (identities : IdentityStore) (token : String)
    (user user' : AuthenticatedUser) (now now' : Datetime) (db db' : Db)
    → logout user now db ≡ ok db'
    → authenticate jwt keys identities token now' db' ≡ ok user'
    → user'.principal.sid ≢ user.session.sid
unfolding logout revoke require_utc
logout_ends jwt keys identities token user user' now now' db db' out e same =
    let live = authenticate-IsLive jwt keys identities token now' db' user' e in
    let rows : db'.auth_session
        ≡ update_where (is_live user.session.sid) (revoked now.instant) db.auth_session =
      ground arith in
    let found =
      subst (λ sid. first_where (with_sid sid) db'.auth_session ≡ some user'.session) same
        live.stored in
    let over =
      revoked_stays user.session.sid now.instant db.auth_session user'.session
        (ap (first_where (with_sid user.session.sid)) (sym rows) ∙ found) in
    ground (arith, over, live.unrevoked)
