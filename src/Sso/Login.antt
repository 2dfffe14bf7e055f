-- ===== src/Sso/Login.antt =====
-- What a callback that logs a person in has found and done (`SsoService.callback`).
use sd_platform.Common.{
  ◌≡◌, ap, sym, ◌∙◌, String, true, Option, none, some, Result, ok, err, Instant, utc, require_utc,
  arith, app_error, value_error, runtime_error, other,
}
use sd_platform.Common.{require as check}
use sd_platform.Common.Actions.{bind_ok, lift_ok}
use sd_platform.Db.{Db}
use sd_platform.World.{World, outside, world_of}
use sd_platform.Sessions.{Principal, PersonIdentity, issue, verify}
use sd_platform.SsoStore.{PendingSsoAttempt, consume_and_create_session}
use sd_platform.Sso.{
  SsoService, SsoCallbackResult, SsoExternalIdentity, Callback, sso_error, safe_state, is_ticket,
  facts_of, redirected, consuming, pending_login, recognised, identified, admitted, log_in,
  recording, callback,
}

outside_db :
    {W A : Type 0} (db : Db) (r : Result A × W) (a : Result A) (t : World W)
    → world_of db r ≡ (a, t)
    → t.db ≡ db
outside_db db (r, w) a t e = ap (λ (p : Result _ × World _). p.1.db) (sym e)

module _ {W : Type 0} (service : SsoService W) (c : Callback) where
  pub record IsLogin (r : SsoCallbackResult) (s t : World W) : Type 0 where
    pub at : Instant
    pub read : require_utc c.now ≡ ok at
    pub identity : SsoExternalIdentity
    pub person : PersonIdentity
    pub known : service.identities.get_person identity.person_id ≡ ok (some person)
    pub active : person.active ≡ true
    pub principal : Principal
    pub issued :
        issue service.jwt service.active_kid service.keys service.expire_minutes person.person_id
          c.sid
          (utc at)
        ≡ ok r.token
    pub verified : verify service.jwt service.keys r.token at ≡ ok principal
    pub consumed :
        consume_and_create_session c.event_id
          (facts_of service c
            (service.sha256 (safe_state service c.state))
            person.person_id
            principal)
          at
          s.db
        ≡ (some r.redirect_path, t.db)

  recognised_ok :
      (attempt : PendingSsoAttempt) (identity : SsoExternalIdentity) (person : PersonIdentity)
      (s t : World W)
      → recognised service attempt identity s ≡ (ok person, t)
      → (t.db ≡ s.db)
        × (service.identities.get_person identity.person_id ≡ ok (some person))
        × (person.active ≡ true)
  unfolding recognised
  recognised_ok attempt identity person s t e = (ground arith, ground arith, ground arith)

  -- The first part reads the tables only, and gives an active person.
  identified_ok :
      (state_hash : String) (now : Instant) (person : PersonIdentity) (s t : World W)
      → identified service c state_hash now s ≡ (ok person, t)
      → (t.db ≡ s.db)
        × (identity : SsoExternalIdentity) × (service.identities.get_person identity.person_id
            ≡ ok (some person))
        × (person.active ≡ true)
  unfolding identified
  identified_ok state_hash now person s t e =
      let (u1, ticket, e1) =
        lift_ok (check (is_ticket service c) (sso_error "SSO_TICKET_INVALID")) _ s person t e in
      let (attempt, s2, f2, e2) = bind_ok (pending_login service state_hash now) _ s person t e1 in
      let (identity, s4, f4, e4) =
        bind_ok (outside (service.provider.exchange_ticket c.ticket)) _ s2 person t e2 in
      let (same, known, active) = recognised_ok attempt identity person s4 t e4 in
      (
        same
            ∙ outside_db s2.db (service.provider.exchange_ticket c.ticket s2.outside) (ok identity)
                s4 f4
            ∙ ap (λ (p : Result PendingSsoAttempt × World W). p.1.db) (sym f2),
        identity,
        known,
        active,
      )

  redirected_ok :
      (token : String) (principal : Principal) (q : Option String × Db) (r : SsoCallbackResult)
      (s t : World W)
      → redirected service token principal q s ≡ (ok r, t)
      → (token ≡ r.token) × (q ≡ (some r.redirect_path, t.db))
  redirected_ok token principal (none, db) r s t e = cc
  redirected_ok token principal (some path, db) r s t e = (ground (arith, e), ground (arith, e))

  admitted_ok :
      (state_hash : String) (now : Instant) (person : PersonIdentity) (r : SsoCallbackResult)
      (s t : World W)
      → admitted service c state_hash now person s ≡ (ok r, t)
      → (principal : Principal) × (issue service.jwt service.active_kid service.keys
            service.expire_minutes person.person_id c.sid
            (utc now)
          ≡ ok r.token)
        × (verify service.jwt service.keys r.token now ≡ ok principal)
        × (consume_and_create_session c.event_id
              (facts_of service c state_hash person.person_id principal)
              now
              s.db
            ≡ (some r.redirect_path, t.db))
  unfolding admitted consuming
  admitted_ok state_hash now person r s t e =
      let (token, issued, e1) =
        lift_ok
          (issue service.jwt service.active_kid service.keys service.expire_minutes person.person_id
            c.sid (utc now))
          _ s r t e in
      let (principal, verified, e2) =
        lift_ok (verify service.jwt service.keys token now) _ s r t e1 in
      let (same, consumed) =
        redirected_ok token principal
          (consume_and_create_session c.event_id
            (facts_of service c state_hash person.person_id principal) now s.db)
          r s t e2 in
      (
        principal,
        issued ∙ ap ok same,
        ap (λ x. verify service.jwt service.keys x now) (sym same) ∙ verified,
        consumed,
      )

  recording_ok :
      (state_hash : String) (now : Instant) (q : Result SsoCallbackResult × World W)
      (r : SsoCallbackResult) (t : World W)
      → recording service c state_hash now q ≡ (ok r, t)
      → q ≡ (ok r, t)
  recording_ok state_hash now (ok a, s) r t e = e
  recording_ok state_hash now (err (app_error n code status retryable), s) r t e = ground (arith, e)
  recording_ok state_hash now (err (value_error m), s) r t e = cc
  recording_ok state_hash now (err (runtime_error m), s) r t e = cc
  recording_ok state_hash now (err (other m), s) r t e = cc

  pub callback_ok :
      (r : SsoCallbackResult) (s t : World W) → callback service c s ≡ (ok r, t) → IsLogin r s t
  unfolding callback log_in
  callback_ok r s t e =
      let (now, read, e1) = lift_ok (require_utc c.now) _ s r t e in
      let hash = service.sha256 (safe_state service c.state) in
      let e2 = recording_ok hash now (log_in service c hash now s) r t e1 in
      let (person, s1, e3, e4) = bind_ok (identified service c hash now) _ s r t e2 in
      let (same, identity, known, active) = identified_ok hash now person s s1 e3 in
      let (principal, issued, verified, consumed) = admitted_ok hash now person r s1 t e4 in
      record {
        at = now;
        read = read;
        identity = identity;
        person = person;
        known = known;
        active = active;
        principal = principal;
        issued = issued;
        verified = verified;
        consumed =
            ap
              (consume_and_create_session c.event_id
                (facts_of service c hash person.person_id principal) now)
              (sym same)
            ∙ consumed;
      }
