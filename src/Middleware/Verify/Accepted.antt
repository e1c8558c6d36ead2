-- ===== src/Middleware/Verify/Accepted.antt =====
-- Which tokens authenticate a request, and as whom (middleware/verifyCore.ts).
use axiam_typescript_sdk.Prelude.{
  ◌≡◌, ◌≢◌, ◌↔◌, ◌∙◌, inl, inr, refl, sym, subst, String, true, false, not, List, Option, none,
  some, arith, Option-cases, or_else,
}
use axiam_typescript_sdk.Prelude.Results.{
  Result, ok, ◌>>◌, ensure, ensure_iff, ensure_alone, then_iff, Result-cases,
}
use axiam_typescript_sdk.Json.{Json, null, str, property, as_string}
use axiam_typescript_sdk.Node.Jwks.{Thrown, PresentedProofs, assert_tenant_claim, is_truthy}
use axiam_typescript_sdk.Node.Jwks.Access.{assert_tenant_claim_iff}
use axiam_typescript_sdk.Middleware.Verify.{
  VerifiableSession, AxiamIdentity, expectations, rethrown, is_revoked, roles_of, identity,
  authenticate_request,
}

-- The claims stand for the identity.
abbrev pub StandsFor : VerifiableSession → Json → AxiamIdentity → Type 0
StandsFor session claims who =
    (is_truthy (property "sub" claims) ≡ true)
    × (session.tenant_header_value ≢ "")
    × (property "tenant_id" claims ≡ some (str session.tenant_header_value))
    × (is_revoked session claims ≡ false)
    × (property "sub" claims ≡ some who.user_id)
    × (who.tenant_id ≡ session.tenant_header_value)
    × (roles_of (property "scope" claims) ≡ some who.roles)

truthy_there : (v : Option Json) → is_truthy v ≡ true → v ≡ some (or_else v null)
truthy_there none h = cc
truthy_there (some v) h = refl

same_identity :
    (session : VerifiableSession) (claims : Json) (roles : List String) (who : AxiamIdentity)
    → is_truthy (property "sub" claims) ≡ true
    → property "tenant_id" claims ≡ some (str session.tenant_header_value)
    → roles_of (property "scope" claims) ≡ some roles
    → (◌≡◌ {A = Result Thrown AxiamIdentity}
        (ok (record {
          user_id = or_else (property "sub" claims) null;
          tenant_id = or_else (as_string (property "tenant_id" claims)) "";
          roles = roles;
        }))
        (ok who))
      ↔ ((property "sub" claims ≡ some who.user_id)
          × (who.tenant_id ≡ session.tenant_header_value)
          × (roles_of (property "scope" claims) ≡ some who.roles))
same_identity session claims roles who sub tenant scope =
    let there = truthy_there (property "sub" claims) sub in
    let text : or_else (as_string (property "tenant_id" claims)) "" ≡ session.tenant_header_value =
      rw tenant refl in
    (
      λ h. (ground (arith, there, h), ground (arith, text, h), ground (arith, scope, h)),
      λ h. ground (arith, there, text, scope, h.0, h.1, h.2),
    )

identity_iff :
    (session : VerifiableSession) (claims : Json) (who : AxiamIdentity)
    → is_truthy (property "sub" claims) ≡ true
    → property "tenant_id" claims ≡ some (str session.tenant_header_value)
    → (identity claims ≡ ok who) ↔ (
        (property "sub" claims ≡ some who.user_id)
        × (who.tenant_id ≡ session.tenant_header_value)
        × (roles_of (property "scope" claims) ≡ some who.roles))
unfolding identity
identity_iff session claims who sub tenant =
    elim (Option-cases (roles_of (property "scope" claims))) [
      | inl unreadable ↦ rw unreadable (λ h. cc, λ h. cc (h.2))
      | inr (roles, scope) ↦
          let read : identity claims
              ≡ ok (record {
                user_id = or_else (property "sub" claims) null;
                tenant_id = or_else (as_string (property "tenant_id" claims)) "";
                roles = roles;
              }) =
            rw (scope, identity) refl in
          let same = same_identity session claims roles who sub tenant scope in
          (λ h. same.0 (sym read ∙ h), λ h. read ∙ same.1 h)
    ]

-- The checks that follow the verifier.
checked_iff :
    (session : VerifiableSession) (claims : Json) (who : AxiamIdentity) (no_sub revoked : Thrown)
    → ((ensure (is_truthy (property "sub" claims)) no_sub
          >> (assert_tenant_claim (property "tenant_id" claims) session.tenant_header_value
              >> (ensure (not (is_revoked session claims)) revoked >> identity claims)))
        ≡ ok who)
      ↔ ((is_truthy (property "sub" claims) ≡ true)
          × (((session.tenant_header_value ≢ "")
                × (property "tenant_id" claims ≡ some (str session.tenant_header_value)))
              × ((is_revoked session claims ≡ false)
                  × ((property "sub" claims ≡ some who.user_id)
                      × (who.tenant_id ≡ session.tenant_header_value)
                      × (roles_of (property "scope" claims) ≡ some who.roles)))))
checked_iff session claims who no_sub revoked =
    then_iff (ensure (is_truthy (property "sub" claims)) no_sub) _ (ensure_alone _ _) (λ sub.
      then_iff (assert_tenant_claim (property "tenant_id" claims) session.tenant_header_value) _
        (assert_tenant_claim_iff _ _)
        (λ tenant.
          ensure_iff _ _ _ (λ h. ground (arith, h), λ h. rw h refl)
            (identity_iff session claims who sub tenant.1)))

-- A request is authenticated, as somebody, exactly if the verifier accepts the token with the session's
-- expectations and the presented proofs; the claims name a subject and the configured tenant, whatever
-- the verifier made of it; the session behind them is not known to be revoked; and the identity is
-- the subject, that tenant and the words of the scope.
pub authenticate_request_iff :
    (session : VerifiableSession) (token : String) (proofs : PresentedProofs) (who : AxiamIdentity)
    → (authenticate_request session token proofs ≡ ok who) ↔ (
        (claims : Json) × (session.verify_access_token token (expectations session) proofs
          ≡ ok claims)
        × StandsFor session claims who)
unfolding authenticate_request rethrown
authenticate_request_iff session token proofs who =
    elim (Result-cases (session.verify_access_token token (expectations session) proofs)) [
      | inr (e, refused) ↦ rw refused (λ h. cc, λ h. cc (h.1))
      | inl (claims, accepted) ↦ rw accepted (
        λ h.
            let c = (checked_iff session claims who _ _).0 h in
            let (sub, tenant, roles) = c.1.1.1 in
            (claims, refl, (c.0, c.1.0.0, c.1.0.1, c.1.1.0, sub, tenant, roles)),
        λ h.
            let same : h.0 ≡ claims = cc (h.1) in
            let (sub, given, tenant, live, who_is, where_is, roles) =
              subst (λ c. StandsFor session c who) same h.2 in
            (checked_iff session claims who _ _).1
              (sub, ((given, tenant), (live, (who_is, where_is, roles)))),
      )
    ]
