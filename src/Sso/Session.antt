-- ===== src/Sso/Session.antt =====
-- The token that a callback gives lets its person in (`SsoService.callback` with
-- `AuthService.authenticate`).
use sd_platform.Common.{
  ◌≡◌, refl, ap, sym, ◌∙◌, ℕ, String, true, List, [], ◌∷◌, none, some, arith, Instant, Datetime,
  utc, require_utc, ok, eq_iff, first_where, first_where-append, is_none, leb, ltb, eq→==,
}
use sd_platform.Db.{Db, AuthSession}
use sd_platform.World.{World}
use sd_platform.Report.{RoleScope}
use sd_platform.Sessions.{
  Jwt, issue, Principal, IdentityStore, PersonIdentity, authenticate, verify, with_sid,
}
use sd_platform.SsoStore.{new_session}
use sd_platform.Sso.{SsoService, SsoCallbackResult, Callback, callback, safe_state, facts_of}
use sd_platform.Sso.Login.{IsLogin, callback_ok}
use sd_platform.Sso.Once.{consumed_facts}

-- A token says the same at each time at which it verifies, and does so before its expiry only.
verified_same :
    (jwt : Jwt) (keys : List (String × String)) (token : String) (at now : Instant)
    (p q : Principal)
    → verify jwt keys token at ≡ ok p
    → verify jwt keys token now ≡ ok q
    → p ≡ q
unfolding verify
verified_same jwt keys token at now p q e f = ground (arith, e, f)

verified_running :
    (jwt : Jwt) (keys : List (String × String)) (token : String) (now : Instant) (p : Principal)
    → verify jwt keys token now ≡ ok p
    → ltb now p.expires_at ≡ true
unfolding verify
verified_running jwt keys token now p e = ground (arith, e)

lets_in :
    (jwt : Jwt) (keys : List (String × String)) (identities : IdentityStore) (token : String)
    (later : Datetime) (now : Instant) (db : Db) (principal : Principal) (session : AuthSession)
    (person : PersonIdentity) (roles : List RoleScope)
    → require_utc later ≡ ok now
    → verify jwt keys token now ≡ ok principal
    → first_where (with_sid principal.sid) db.auth_session ≡ some session
    → session.person_id ≡ principal.person_id
    → session.kid ≡ principal.kid
    → session.revoked_at ≡ none
    → session.expires_at ≡ principal.expires_at
    → identities.get_person principal.person_id ≡ ok (some person)
    → person.active ≡ true
    → identities.get_active_roles person.person_id now ≡ ok roles
    → authenticate jwt keys identities token later db
      ≡ ok (record { principal = principal; session = session; person = person; roles = roles })
unfolding authenticate
lets_in jwt keys identities token later now db principal session person roles at_now verified found
      owner kid unrevoked expiry known active granted =
    let same_person = eq→== session.person_id principal.person_id owner in
    let same_kid = (eq_iff session.kid principal.kid).1 kid in
    let running : ltb now session.expires_at ≡ true =
      ap (ltb now) expiry ∙ verified_running jwt keys token now principal verified in
    let lasting : leb principal.expires_at session.expires_at ≡ true = ground (arith, expiry) in
    let open_session : is_none session.revoked_at ≡ true = ap is_none unrevoked in
    rw at_now (
      rw verified (
        rw found (
          rw (same_person, same_kid)
            (rw (open_session, running) (rw lasting (rw known (rw active (rw granted))))))))

module _ {W : Type 0} (service : SsoService W) (c : Callback) (r : SsoCallbackResult)
    (s t : World W) where
  abbrev row_of_login : IsLogin service c r s t → AuthSession
  row_of_login h =
      new_session
        (facts_of service c (service.sha256 (safe_state service c.state)) h.person.person_id
          h.principal)
        h.at

  session_found :
      (h : IsLogin service c r s t)
      → first_where (with_sid c.sid) s.db.auth_session ≡ none
      → first_where (with_sid c.sid) t.db.auth_session ≡ some (row_of_login h)
  unfolding first_where
  session_found h fresh =
      let facts =
        facts_of service c (service.sha256 (safe_state service c.state)) h.person.person_id
          h.principal in
      let one = consumed_facts c.event_id facts h.at s.db r.redirect_path t.db h.consumed in
      ap (λ (d : Db). first_where (with_sid c.sid) d.auth_session) one.after
      ∙ first_where-append (with_sid c.sid) s.db.auth_session (new_session facts h.at ∷ [])
      ∙ rw fresh (rw ((eq_iff c.sid c.sid).1 refl))

  -- The token of a callback that let a person in gets that person in, with the session that the
  -- callback wrote, as long as the token verifies and the person is active. The JWT library reads
  -- back the person and the session that a token was issued for, and the session's id was new.
  pub callback_authenticates :
      (later : Datetime) (now : Instant) (principal : Principal) (person : PersonIdentity)
      (roles : List RoleScope)
      → ((person_id : ℕ) (at now : Instant) (p : Principal)
          → issue service.jwt service.active_kid service.keys service.expire_minutes person_id c.sid
              (utc at)
            ≡ ok r.token
          → verify service.jwt service.keys r.token now ≡ ok p
          → (p.person_id ≡ person_id) × (p.sid ≡ c.sid))
      → callback service c s ≡ (ok r, t)
      → first_where (with_sid c.sid) s.db.auth_session ≡ none
      → require_utc later ≡ ok now
      → verify service.jwt service.keys r.token now ≡ ok principal
      → service.identities.get_person principal.person_id ≡ ok (some person)
      → person.active ≡ true
      → service.identities.get_active_roles person.person_id now ≡ ok roles
      → (session : AuthSession) × (authenticate service.jwt service.keys service.identities r.token
            later t.db
          ≡ ok
              (record { principal = principal; session = session; person = person; roles = roles }))
  callback_authenticates later now principal person roles reads let_in fresh at_now verified known
        active granted =
      let h = callback_ok service c r s t let_in in
      let (owner, named) = reads h.person.person_id h.at now principal h.issued verified in
      let same : h.principal ≡ principal =
        verified_same service.jwt service.keys r.token h.at now h.principal principal h.verified
          verified in
      (
        row_of_login h,
        lets_in service.jwt service.keys service.identities r.token later now t.db principal
            (row_of_login h) person roles at_now verified
            (ap (λ x. first_where (with_sid x) t.db.auth_session) named ∙ session_found h fresh)
            (sym owner) (ap (λ (p : Principal). p.kid) same) refl
            (ap (λ (p : Principal). p.expires_at) same) known active granted,
      )
