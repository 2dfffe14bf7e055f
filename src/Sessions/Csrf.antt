-- ===== src/Sessions/Csrf.antt =====
-- CSRF tokens of a session (`AuthService.issue_csrf` and `verify_csrf`).
use sd_platform.Common.{
  ◌≡◌, ap, sym, subst, ◌∙◌, refl, String, true, false, List, some, ok, arith, Instant, Datetime,
  first_where, first_where-update, first_where-test, update_where, Option-cases, Bool-cases, inl,
  inr, is_none, is_empty, eq_iff, require_utc,
}
use sd_platform.Db.{Db, AuthSession}
use sd_platform.Sessions.{
  Jwt, IdentityStore, AuthenticatedUser, authenticate, with_sid, is_live, refreshed, update_csrf,
  issue_csrf, verify_csrf,
}
use sd_platform.Sessions.Access.{authenticate-IsLive}

-- A live session has the digest that was written last.
refreshed_found :
    (sid hash : String) (now : Instant) (rows : List AuthSession) (row : AuthSession)
    → first_where (with_sid sid) (update_where (is_live sid) (refreshed hash now) rows) ≡ some row
    → is_none row.revoked_at ≡ true
    → row.csrf_hash ≡ hash
refreshed_found sid hash now rows row found live =
    let same =
      first_where-update (with_sid sid) (is_live sid) (refreshed hash now) (λ r. refl) rows in
    elim (Option-cases (first_where (with_sid sid) rows)) [
      | inl absent ↦ let gone = rw absent at same in cc
      | inr (r, there) ↦
          let hit = first_where-test (with_sid sid) rows r there in
          let there_now = rw there at same in
          elim (Bool-cases (is_none r.revoked_at)) [
            | inl open_one ↦ ground (arith, there_now, found, hit)
            | inr over ↦ ground (arith, there_now, found, hit, live)
          ]
    ]

-- The token that was issued last for a session is accepted from whoever gets in with the session.
pub csrf_accepted :
    (jwt : Jwt) (keys : List (String × String)) (identities : IdentityStore)
    (digest : (sid token : String) → String) (session_token token : String)
    (user user' : AuthenticatedUser) (now now' : Datetime) (db db' : Db)
    → is_empty token ≡ false
    → issue_csrf digest token user now db ≡ ok (token, db')
    → authenticate jwt keys identities session_token now' db' ≡ ok user'
    → user'.principal.sid ≡ user.session.sid
    → verify_csrf digest user' (some token) ≡ ok tt
unfolding issue_csrf update_csrf verify_csrf require_utc
csrf_accepted jwt keys identities digest session_token token user user' now now' db db' nonempty
      issued e same =
    let live = authenticate-IsLive jwt keys identities session_token now' db' user' e in
    let sid = user.session.sid in
    let rows : db'.auth_session
        ≡ update_where (is_live sid) (refreshed (digest sid token) now.instant) db.auth_session =
      ground arith in
    let found =
      subst (λ s. first_where (with_sid s) db'.auth_session ≡ some user'.session) same
        live.stored in
    let hash =
      refreshed_found sid (digest sid token) now.instant db.auth_session user'.session
        (ap (first_where (with_sid sid)) (sym rows) ∙ found) live.unrevoked in
    let own : user'.session.sid ≡ sid =
      (eq_iff user'.session.sid sid).0
        (first_where-test (with_sid sid) db'.auth_session user'.session found) in
    rw nonempty (rw own (rw hash (rw ((eq_iff (digest sid token) (digest sid token)).1 refl))))
