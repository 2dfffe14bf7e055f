-- ===== src/Oa/Again.antt =====
-- A command that the stand-in for the OA accepted is not accepted twice (`MockOaGateway._accept`).
use sd_platform.Common.{
  ◌≡◌, refl, ap, sym, ◌∙◌, inl, inr, String, Option, none, some, Option-cases, str_eq, ◌||◌,
  is_none, Bool, true, false, Bool-cases, eq_iff,
}
use sd_platform.Db.{DedupKey, same_key_refl}
use sd_platform.Oa.{
  OaGatewayResult, MockBehavior, Accepted, timeout_after_accept, rate_limit, unavailable, reject,
  accepted_under, gateway_success, accept, accept_new, gateway_failure,
}

module _ (receipt : DedupKey → String) (behaviors : DedupKey → Option MockBehavior) (hash : String)
    (key : DedupKey) where
  answers_again :
      (id : String) (accepted : Accepted)
      → accepted_under key accepted ≡ some (hash, id)
      → accept receipt behaviors hash key accepted ≡ (gateway_success id, accepted)
  unfolding accept
  answers_again id accepted there = rw (there, accept) (rw ((eq_iff hash hash).1 refl) refl)

  abbrev is_accepted : OaGatewayResult → Bool
  is_accepted r = r.success || is_none r.status_code

  -- What a new key leaves, when it is accepted.
  new_accepted :
      (behavior : Option MockBehavior) (accepted : Accepted)
      → is_accepted (accept_new receipt behavior hash key accepted).0 ≡ true
      → accepted_under key (accept_new receipt behavior hash key accepted).1
        ≡ some (hash, receipt key)
  unfolding accept_new
  new_accepted none accepted e = rw (same_key_refl key) refl
  new_accepted (some timeout_after_accept) accepted e = rw (same_key_refl key) refl
  new_accepted (some rate_limit) accepted e = cc e
  new_accepted (some unavailable) accepted e = cc e
  new_accepted (some reject) accepted e = cc e

  was_accepted :
      (accepted after : Accepted) (r : OaGatewayResult)
      → accept receipt behaviors hash key accepted ≡ (r, after)
      → is_accepted r ≡ true
      → (id : String) × (accepted_under key after ≡ some (hash, id))
  unfolding accept
  was_accepted accepted after r e good = elim (Option-cases (accepted_under key accepted)) [
    | inl new ↦
        let called : accept_new receipt (behaviors key) hash key accepted ≡ (r, after) =
          rw (new, accept) at e in
        (
          receipt key,
          ap (λ (p : OaGatewayResult × Accepted). accepted_under key p.1) (sym called)
              ∙ new_accepted (behaviors key) accepted
                  (ap (λ (p : OaGatewayResult × Accepted). is_accepted p.0) called ∙ good),
        )
    | inr ((existing, id), there) ↦ elim (Bool-cases (str_eq existing hash)) [
      | inl same ↦
          let called : ◌≡◌ {A = OaGatewayResult × Accepted} (gateway_success id, accepted)
              (r, after) =
            rw same at (rw (there, accept) at e) in
          (
            id,
            ap (λ (p : OaGatewayResult × Accepted). accepted_under key p.1) (sym called)
                ∙ rw there (rw ((eq_iff existing hash).0 same) refl),
          )
      | inr differs ↦
          let called : ◌≡◌ {A = OaGatewayResult × Accepted}
              (gateway_failure 409 "OA_IDEMPOTENCY_CONFLICT" false, accepted) (r, after) =
            rw differs at (rw (there, accept) at e) in
          cc (ap (λ (p : OaGatewayResult × Accepted). is_accepted p.0) called ∙ good)
    ]
  ]

  -- A call that the OA accepts, also one whose answer is lost, is answered with a receipt when it is
  -- made again with the same command, and then changes nothing.
  pub accept_again :
      (accepted after : Accepted) (r : OaGatewayResult)
      → accept receipt behaviors hash key accepted ≡ (r, after)
      → is_accepted r ≡ true
      → (id : String) × (accept receipt behaviors hash key after ≡ (gateway_success id, after))
  accept_again accepted after r e good =
      let (id, there) = was_accepted accepted after r e good in (id, answers_again id after there)
