-- ===== src/Node/Jwks/Identity.antt =====
-- Which ID tokens pass (node/jwks.ts, `verifyIdToken`).
use axiam_typescript_sdk.Prelude.{
  ℕ, ◌≡◌, ◌↔◌, ◌∙◌, inl, inr, refl, sym, ap, subst, String, true, List, Option, none, some, arith,
  Bool-cases,
}
use axiam_typescript_sdk.Prelude.Int.{ℤ, pos}
use axiam_typescript_sdk.Prelude.Results.{ok, Result-cases}
use axiam_typescript_sdk.Json.{Json, str, property}
use axiam_typescript_sdk.Node.IdToken.{
  IdTokenExpectations, is_text, resolve_clock_skew_sec, check_id_token_claims, assert_id_token_alg,
  id_token_alg,
}
use axiam_typescript_sdk.Node.IdToken.Claims.{is_text_iff}
use axiam_typescript_sdk.Node.Jwks.{
  Jose, id_options, check_header, mapped, verify_id_token, is_truthy,
}

-- The clamp of the skew can be made twice.
resolve_twice :
    (s : Option ℤ)
    → resolve_clock_skew_sec (some (pos (resolve_clock_skew_sec s))) ≡ resolve_clock_skew_sec s
unfolding resolve_clock_skew_sec
resolve_twice none = omega arith
resolve_twice (some s) = omega arith

clamped_claims :
    (utf8 : String → List ℕ) (now : ℕ) (expected : IdTokenExpectations) (claims : Json)
    → check_id_token_claims utf8
        (record expected {
          clock_skew_sec = some (pos (resolve_clock_skew_sec expected.clock_skew_sec));
        })
        now
        claims
      ≡ check_id_token_claims utf8 expected now claims
unfolding check_id_token_claims
clamped_claims utf8 now expected claims = rw (resolve_twice expected.clock_skew_sec) refl

-- The claims that pass are handed on as they are.
same_claims :
    (utf8 : String → List ℕ) (expected : IdTokenExpectations) (now : ℕ) (claims : Json) {a : Json}
    → check_id_token_claims utf8 expected now claims ≡ ok a
    → claims ≡ a
unfolding check_id_token_claims
same_claims utf8 expected now claims h = ground arith

-- A header that passes: it could be read, names EdDSA, and names a key.
abbrev pub HeaderHolds : Option Json → Type 0
HeaderHolds none = ⊥
HeaderHolds (some header) =
    (property "alg" header ≡ some (str "EdDSA")) × (is_truthy (property "kid" header) ≡ true)

check_header_iff :
    (jose : Jose) (header : Option Json) → (check_header jose header ≡ ok tt) ↔ HeaderHolds header
unfolding check_header assert_id_token_alg
check_header_iff jose none = (λ h. cc, λ h. absurd h)
check_header_iff jose (some header) =
    elim (Bool-cases (is_text id_token_alg (property "alg" header))) [
      | inl pinned ↦ rw pinned (elim (Bool-cases (is_truthy (property "kid" header))) [
        | inl keyed ↦ rw keyed (λ h. ((is_text_iff _ _).0 pinned, refl), λ h. refl)
        | inr keyless ↦ rw keyless (λ h. cc, λ h. cc (h.1))
      ])
      | inr foreign ↦ rw foreign (λ h. cc, λ h. cc ((is_text_iff "EdDSA" _).1 h.0))
    ]

-- An ID token passes, with claims, exactly if its header can be read, names EdDSA and a key, `jose`
-- verifies it to those claims under EdDSA with the clamped skew, and the claims pass their checks.
pub verify_id_token_iff :
    (jose : Jose) (utf8 : String → List ℕ) (now : ℕ) (token : String)
    (expected : IdTokenExpectations) (claims : Json)
    → (verify_id_token jose utf8 now token expected ≡ ok claims) ↔ (
        HeaderHolds (jose.decode_protected_header token)
        × (jose.jwt_verify token (id_options (resolve_clock_skew_sec expected.clock_skew_sec))
            ≡ ok claims)
        × (check_id_token_claims utf8 expected now claims ≡ ok claims))
unfolding verify_id_token mapped
verify_id_token_iff jose utf8 now token expected claims =
    elim (Result-cases (check_header jose (jose.decode_protected_header token))) [
      | inl (u, headed) ↦
          rw headed
            (elim (Result-cases (
              jose.jwt_verify token
                (id_options (resolve_clock_skew_sec expected.clock_skew_sec)))) [
                  | inl (p, verified) ↦ rw verified (
                    λ h.
                        let kept = clamped_claims utf8 now expected p in
                        let passed : check_id_token_claims utf8 expected now p ≡ ok claims =
                          sym kept ∙ h in
                        let same = same_claims utf8 expected now p passed in
                        (
                          (check_header_iff jose _).0 headed,
                          ap ok same,
                          subst (λ c. check_id_token_claims utf8 expected now c ≡ ok claims) same
                              passed,
                        ),
                    λ h.
                        let same : claims ≡ p = cc (h.1) in
                        clamped_claims utf8 now expected p
                        ∙ subst (λ c. check_id_token_claims utf8 expected now c ≡ ok claims) same
                            h.2,
                  )
                  | inr (e, refused) ↦ rw refused (λ h. cc, λ h. cc (h.1))
                ])
      | inr (e, refused) ↦ rw refused (λ h. cc, λ h. cc ((check_header_iff jose _).1 h.0))
    ]
