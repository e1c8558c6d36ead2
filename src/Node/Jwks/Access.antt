-- ===== src/Node/Jwks/Access.antt =====
-- Which access tokens pass (node/jwks.ts, `verifyAccessToken`).
use axiam_typescript_sdk.Prelude.{
  ◌≡◌, ◌≢◌, ◌↔◌, inl, inr, refl, ap, String, Option, none, some, str_eq, eq_iff, Bool-cases,
}
use axiam_typescript_sdk.Prelude.Texts.{is_empty, is_empty_iff}
use axiam_typescript_sdk.Prelude.Results.{Result, ok, err, ◌>>◌, Result-cases}
use axiam_typescript_sdk.Json.{Json, str, property, as_string_iff}
use axiam_typescript_sdk.Node.Jwks.{
  Jose, PresentedProofs, AccessTokenExpectations, access_options, confirmation, check_tenant,
  assert_tenant_claim, verify_access_token,
}
use axiam_typescript_sdk.Node.Jwks.Binding.{Bound, verify_token_binding_iff}

check_tenant_iff :
    (claim : Option String) (expected : String)
    → expected ≢ ""
    → (check_tenant claim expected ≡ ok tt) ↔ (claim ≡ some expected)
unfolding check_tenant
check_tenant_iff none expected given = (λ h. cc, λ h. cc)
check_tenant_iff (some claim) expected given = elim (Bool-cases (is_empty claim)) [
  | inl blank ↦ rw blank (
    λ h. cc,
    λ h. cc (ap is_empty (let e : claim ≡ expected = cc in e), (is_empty_iff expected).1 given),
  )
  | inr filled ↦ rw filled (elim (Bool-cases (str_eq claim expected)) [
    | inl same ↦ rw same (λ h. ap some ((eq_iff claim expected).0 same), λ h. refl)
    | inr other ↦ rw other (λ h. cc, λ h. cc ((eq_iff claim expected).1 (cc)))
  ])
]

-- The tenant is let through exactly if one is configured, and the claim is its text.
pub assert_tenant_claim_iff :
    (claim : Option Json) (expected : String)
    → (assert_tenant_claim claim expected ≡ ok tt)
      ↔ ((expected ≢ "") × (claim ≡ some (str expected)))
unfolding assert_tenant_claim
assert_tenant_claim_iff claim expected = elim (Bool-cases (is_empty expected)) [
  | inl blank ↦ rw blank (λ h. cc, λ h. cc ((is_empty_iff expected).1 h.0))
  | inr filled ↦
      let given = (is_empty_iff expected).0 filled in
      rw filled (
        λ h. (given, (as_string_iff claim expected).0 ((check_tenant_iff _ expected given).0 h)),
        λ h. (check_tenant_iff _ expected given).1 ((as_string_iff claim expected).1 h.1),
      )
]

-- Two checks of a value before it is handed on.
pub handed_on_iff {ℓ κ} :
    {E : Type ℓ} {A : Type κ} (first second : Result E (Unit {0})) (a b : A)
    → ((first >> (second >> ok a)) ≡ ok b) ↔ ((first ≡ ok tt) × (second ≡ ok tt) × (a ≡ b))
handed_on_iff (ok u) (ok v) a b = (λ h. (refl, refl, cc), λ h. ap ok h.2)
handed_on_iff (ok u) (err e) a b = (λ h. cc, λ h. cc (h.1))
handed_on_iff (err e) second a b = (λ h. cc, λ h. cc (h.0))

-- An access token passes, with a payload, exactly if `jose` verifies it to that payload under the pinned
-- algorithm, with the expiry required, the leeway of a minute and the expected issuer and audience; a
-- tenant is configured and the payload names it; and whatever the token is bound to was presented.
pub verify_access_token_iff :
    (jose : Jose) (token : String) (expected : AccessTokenExpectations) (proofs : PresentedProofs)
    (payload : Json)
    → (verify_access_token jose token expected proofs ≡ ok payload) ↔ (
        (jose.jwt_verify token (access_options expected) ≡ ok payload)
        × (expected.expected_tenant_id ≢ "")
        × (property "tenant_id" payload ≡ some (str expected.expected_tenant_id))
        × Bound (confirmation payload) proofs)
unfolding verify_access_token
verify_access_token_iff jose token expected proofs payload =
    elim (Result-cases (jose.jwt_verify token (access_options expected))) [
      | inl (p, verified) ↦ rw verified (
        λ h.
            let (tenant, binding, same) = (handed_on_iff _ _ p payload).0 h in
            let named = (assert_tenant_claim_iff _ _).0 tenant in
            (
              ap ok same,
              named.0,
              rw (← same) named.1,
              rw (← same) ((verify_token_binding_iff p proofs).0 binding),
            ),
        λ h.
            let same : p ≡ payload = cc (h.0) in
            (handed_on_iff _ _ p payload).1 (
              (assert_tenant_claim_iff _ _).1 (h.1, rw same h.2),
              (verify_token_binding_iff p proofs).1 (rw same h.3),
              same,
            ),
      )
      | inr (e, refused) ↦ rw refused (λ h. cc, λ h. cc (h.0))
    ]
