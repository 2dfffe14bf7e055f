-- ===== src/Sessions/Tokens.antt =====
-- Tokens from their issue to their expiry (`TokenService`).
use sd_platform.Common.{
  ◌≡◌, ◌≢◌, ◌≤◌, ◌<◌, ◌+◌, ◌/◌, ℕ, String, false, List, some, ok, arith, Instant, seconds, minutes,
  Datetime, require_utc, is_empty, eq_iff, refl, subst,
}
use sd_platform.Sessions.{Jwt, issue, verify, key_of}

module _ (jwt : Jwt) (active_kid key : String) (keys : List (String × String))
    (expire_minutes person_id : ℕ) (sid : String) (now : Datetime) where
  abbrev expiry : Instant
  expiry = now.instant + minutes expire_minutes

  abbrev made : String
  made = jwt.encode person_id sid active_kid now.instant expiry key

  issue-made :
      (token : String)
      → key_of active_kid keys ≡ some key
      → issue jwt active_kid keys expire_minutes person_id sid now ≡ ok token
      → made ≡ token
  unfolding issue require_utc
  issue-made token stored issued = ground arith

  -- A token that was issued for a person and a session is verified as theirs from the second of its
  -- issue until the second of its expiry, if the library reads it back under its key with its times
  -- cut to seconds.
  pub issue_verifies :
      (token : String) (later : Instant)
      → key_of active_kid keys ≡ some key
      → issue jwt active_kid keys expire_minutes person_id sid now ≡ ok token
      → jwt.header_kid (jwt.encode person_id sid active_kid now.instant expiry key)
        ≡ some active_kid
      → jwt.claims (jwt.encode person_id sid active_kid now.instant expiry key) key
        ≡ some (record {
          sub = person_id;
          sid = sid;
          kid = active_kid;
          iat = now.instant / 1000000;
          exp = expiry / 1000000;
        })
      → person_id ≢ 0
      → is_empty sid ≡ false
      → seconds (now.instant / 1000000) ≤ later
      → later < seconds (expiry / 1000000)
      → verify jwt keys token later
        ≡ ok (record {
          person_id = person_id;
          sid = sid;
          kid = active_kid;
          issued_at = seconds (now.instant / 1000000);
          expires_at = seconds (expiry / 1000000);
        })
  unfolding verify
  issue_verifies token later stored issued header claims known named begun running =
      let same = issue-made token stored issued in
      rw (subst (λ t. jwt.header_kid t ≡ some active_kid) same header) (
        rw stored (
          rw
            (subst
              (λ t.
                jwt.claims t key
                ≡ some (record {
                  sub = person_id;
                  sid = sid;
                  kid = active_kid;
                  iat = now.instant / 1000000;
                  exp = expiry / 1000000;
                }))
              same claims)
            (rw ((eq_iff active_kid active_kid).1 refl) (ground arith))))
