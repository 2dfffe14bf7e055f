-- ===== src/Sso/Once.antt =====
-- A state and a ticket let in once (`SqlSsoPersistence.consume_and_create_session` under
-- `SsoService.callback`).
use sd_platform.Common.{
  ◌≡◌, ◌≢◌, ◌⊎◌, refl, ap, sym, ◌∙◌, String, Bool, true, false, not, ◌||◌, List, [], ◌∷◌, Option,
  none, some, arith, inl, inr, Instant, leb, ◌==◌, eq→==, eq_iff, Option-cases, Bool-cases,
  first_where, first_where-update, first_where-update_new, update_where, is_none, ok, if◌then◌else◌,
}
use sd_platform.Db.{Uuid, Db, SsoLoginAttempt}
use sd_platform.World.{World}
use sd_platform.SsoStore.{
  LoginFacts, with_state, with_ticket, spent, logged_in, consume_and_create_session,
}
use sd_platform.Sso.{SsoService, SsoCallbackResult, Callback, callback, safe_state, facts_of}
use sd_platform.Sso.Login.{callback_ok}

-- A table with a row that passes a test has a first such row.
first_such {ℓ} :
    {A : Type ℓ} (key test : A → Bool) (rows : List A) (r : A)
    → first_where key rows ≡ some r
    → test r ≡ true
    → (r' : A) × (first_where test rows ≡ some r')
unfolding first_where
first_such key test [] r found hit = cc
first_such key test (s ∷ rows) r found hit = elim (Bool-cases (test s)) [
  | inl yep ↦ (s, rw (yep, first_where))
  | inr nope ↦ elim (Bool-cases (key s)) [
    | inl own ↦ absurd (ground (arith, rw (own, first_where) at found))
    | inr other ↦
        let (r', there) = first_such key test rows r (rw (other, first_where) at found) hit in
        (r', rw (nope, first_where) there)
  ]
]

both_false : (a b : Bool) → (not a || b) ≡ false → (a ≡ true) × (b ≡ false)
both_false true b e = (refl, e)
both_false false b e = cc

-- What an end of a login found and wrote.
pub record IsConsumed (event_id : Uuid) (facts : LoginFacts) (now : Instant) (db : Db)
    (path : String) (db' : Db) : Type 0 where
  pub row : SsoLoginAttempt
  pub found : first_where (with_state facts.state_hash) db.sso_login_attempt ≡ some row
  pub unspent : is_none row.consumed_at ≡ true
  pub running : leb row.expires_at now ≡ false
  pub fresh : first_where (with_ticket facts.ticket_hash) db.sso_login_attempt ≡ none
  pub after : db' ≡ logged_in event_id facts now row db

module _ (event_id : Uuid) (facts : LoginFacts) (now : Instant) (db : Db) where
  taken :
      (row : SsoLoginAttempt)
      → first_where (with_ticket facts.ticket_hash) db.sso_login_attempt ≡ none
      → first_where (with_state facts.state_hash) db.sso_login_attempt ≡ some row
      → (path : String) (db' : Db)
      → ◌≡◌ {A = Option String × Db}
          (if not (is_none row.consumed_at) || leb row.expires_at now
            then (none, db)
            else (some row.redirect_path, logged_in event_id facts now row db))
          (some path, db')
      → IsConsumed event_id facts now db path db'
  taken row fresh found path db' e =
      elim (Bool-cases (not (is_none row.consumed_at) || leb row.expires_at now)) [
        | inl over ↦ cc (rw over at e)
        | inr pending ↦
            let (unspent, running) =
              both_false (is_none row.consumed_at) (leb row.expires_at now) pending in
            record {
              row = row;
              found = found;
              unspent = unspent;
              running = running;
              fresh = fresh;
              after = ap (λ (p : Option String × Db). p.1) (sym (rw pending at e));
            }
      ]

  pub consumed_facts :
      (path : String) (db' : Db)
      → consume_and_create_session event_id facts now db ≡ (some path, db')
      → IsConsumed event_id facts now db path db'
  unfolding consume_and_create_session
  consumed_facts path db' e =
      elim (Option-cases (first_where (with_ticket facts.ticket_hash) db.sso_login_attempt)) [
        | inr (r, used) ↦ cc (rw (used, consume_and_create_session) at e)
        | inl fresh ↦
            elim (Option-cases (first_where (with_state facts.state_hash) db.sso_login_attempt)) [
              | inl absent ↦ cc (rw absent at (rw (fresh, consume_and_create_session) at e))
              | inr (row, found) ↦
                  taken row fresh found path db'
                    (rw found at (rw (fresh, consume_and_create_session) at e))
            ]
      ]

  -- A state that is spent, and a ticket that is used, end no further login.
  refused_state :
      (row : SsoLoginAttempt) (path : String) (db' : Db)
      → first_where (with_state facts.state_hash) db.sso_login_attempt ≡ some row
      → is_none row.consumed_at ≡ false
      → consume_and_create_session event_id facts now db ≢ (some path, db')
  refused_state row path db' found over e =
      let h = consumed_facts path db' e in
      let same : row ≡ h.row = cc (found, h.found) in
      cc (ap (λ (r : SsoLoginAttempt). is_none r.consumed_at) same, over, h.unspent)

  refused_ticket :
      (row : SsoLoginAttempt) (path : String) (db' : Db)
      → first_where (with_ticket facts.ticket_hash) db.sso_login_attempt ≡ some row
      → consume_and_create_session event_id facts now db ≢ (some path, db')
  refused_ticket row path db' used e = cc (used, (consumed_facts path db' e).fresh)

module _ (event_id : Uuid) (facts : LoginFacts) (now : Instant) (db : Db) (path : String) (db' : Db)
    (h : IsConsumed event_id facts now db path db') where
  attempts :
      db'.sso_login_attempt
      ≡ update_where
          (λ r. r.attempt_id == h.row.attempt_id)
          (spent facts.ticket_hash now)
          db.sso_login_attempt
  attempts = ap (λ (d : Db). d.sso_login_attempt) h.after

  spent_state :
      first_where (with_state facts.state_hash) db'.sso_login_attempt
      ≡ some (spent facts.ticket_hash now h.row)
  spent_state =
      ap (first_where (with_state facts.state_hash)) attempts
      ∙ first_where-update (with_state facts.state_hash) (λ r. r.attempt_id == h.row.attempt_id)
          (spent facts.ticket_hash now) (λ r. refl) db.sso_login_attempt
      ∙ rw h.found (rw (eq→== h.row.attempt_id h.row.attempt_id refl))

  used_ticket :
      (row : SsoLoginAttempt) × (first_where (with_ticket facts.ticket_hash) db'.sso_login_attempt
        ≡ some row)
  used_ticket =
      let (r, there) =
        first_such (with_state facts.state_hash) (λ r. r.attempt_id == h.row.attempt_id)
          db.sso_login_attempt h.row h.found (eq→== h.row.attempt_id h.row.attempt_id refl) in
      (
        spent facts.ticket_hash now r,
        ap (first_where (with_ticket facts.ticket_hash)) attempts
            ∙ first_where-update_new (with_ticket facts.ticket_hash)
                (λ r. r.attempt_id == h.row.attempt_id) (spent facts.ticket_hash now) r
                ((eq_iff facts.ticket_hash facts.ticket_hash).1 refl) db.sso_login_attempt h.fresh
                there,
      )

module _ {W : Type 0} (service : SsoService W) where
  -- A login uses its state and its ticket up: after a callback that let a person in, no callback
  -- with the same state or with the same ticket lets anyone in, whatever the provider answers, and
  -- at any later time at which the table of pending logins is as the first callback left it.
  pub callback_once :
      (c c' : Callback) (r r' : SsoCallbackResult) (s t u v : World W)
      → callback service c s ≡ (ok r, t)
      → (c'.state ≡ c.state) ⊎ (c'.ticket ≡ c.ticket)
      → u.db.sso_login_attempt ≡ t.db.sso_login_attempt
      → callback service c' u ≢ (ok r', v)
  callback_once c c' r r' s t u v first same kept second =
      let one = callback_ok service c r s t first in
      let two = callback_ok service c' r' u v second in
      let facts =
        facts_of service c (service.sha256 (safe_state service c.state)) one.person.person_id
          one.principal in
      let facts' =
        facts_of service c' (service.sha256 (safe_state service c'.state)) two.person.person_id
          two.principal in
      let h = consumed_facts c.event_id facts one.at s.db r.redirect_path t.db one.consumed in
      elim same [
        | inl state ↦
            refused_state c'.event_id facts' two.at u.db (spent facts.ticket_hash one.at h.row)
              r'.redirect_path v.db
              (ap (first_where (with_state facts'.state_hash)) kept
                ∙ ap
                    (λ x.
                      first_where (with_state (service.sha256 (safe_state service x)))
                        t.db.sso_login_attempt)
                    state
                ∙ spent_state c.event_id facts one.at s.db r.redirect_path t.db h)
              refl two.consumed
        | inr ticket ↦
            let (row, used) = used_ticket c.event_id facts one.at s.db r.redirect_path t.db h in
            refused_ticket c'.event_id facts' two.at u.db row r'.redirect_path v.db
              (ap (first_where (with_ticket facts'.ticket_hash)) kept
                ∙ ap (λ x. first_where (with_ticket (service.sha256 x)) t.db.sso_login_attempt)
                    ticket
                ∙ used)
              two.consumed
      ]
