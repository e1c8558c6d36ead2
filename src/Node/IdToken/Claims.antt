-- ===== src/Node/IdToken/Claims.antt =====
-- Which ID tokens pass (node/oidcIdToken.ts).
use axiam_typescript_sdk.Prelude.{
  ℕ, ◌+◌, ◌≤◌, ◌<◌, ◌≡◌, ◌↔◌, ◌⊎◌, inl, inr, refl, ap, String, true, not, ◌||◌, List, [], ◌∷◌,
  Option, none, some, arith, eq_iff, ltb, ltb→lt, lt→ltb, Bool-cases, length, any,
}
use axiam_typescript_sdk.Prelude.Int.{ℤ, pos_part, neg_part}
use axiam_typescript_sdk.Prelude.Results.{Result, ok, ◌>>◌, ensure_iff, ensure_ok_iff}
use axiam_typescript_sdk.Json.{Json, null, bool, num, real, str, arr, obj, property}
use axiam_typescript_sdk.Core.Errors.{AxiamError}
use axiam_typescript_sdk.Amqp.Hmac.RoundTrip.{same_bytes_iff}
use axiam_typescript_sdk.Node.IdToken.{
  IdTokenExpectations, is_text, audiences, as_number, check_exp, check_iat, check_nbf, nonce_holds,
  constant_time_equals, check_id_token_claims, resolve_clock_skew_sec, max_clock_skew_sec,
}

pub is_text_iff : (t : String) (v : Option Json) → (is_text t v ≡ true) ↔ (v ≡ some (str t))
is_text_iff t none = (λ h. cc, λ h. cc)
is_text_iff t (some null) = (λ h. cc, λ h. cc)
is_text_iff t (some (bool b)) = (λ h. cc, λ h. cc)
is_text_iff t (some (num z)) = (λ h. cc, λ h. cc)
is_text_iff t (some (real z s)) = (λ h. cc, λ h. cc)
is_text_iff t (some (str s)) =
    (λ h. ap (λ x. some (str x)) ((eq_iff s t).0 h), λ h. (eq_iff s t).1 (cc))
is_text_iff t (some (arr xs)) = (λ h. cc, λ h. cc)
is_text_iff t (some (obj fs)) = (λ h. cc, λ h. cc)

-- The value stands in the list.
abbrev pub Among : Option Json → List (Option Json) → Type 0
Among v [] = ⊥
Among v (w ∷ ws) = (w ≡ v) ⊎ Among v ws

any-Among :
    (t : String) (vs : List (Option Json)) → (any (is_text t) vs ≡ true) ↔ Among (some (str t)) vs
any-Among t [] = (λ h. cc, λ h. absurd h)
any-Among t (v ∷ vs) = elim (Bool-cases (is_text t v)) [
  | inl hit ↦ (λ h. inl ((is_text_iff t v).0 hit), λ h. rw hit refl)
  | inr miss ↦ (
    λ h. inr ((any-Among t vs).0 (rw miss at h)),
    λ h.
        rw miss
          (elim h [ inl e ↦ cc ((is_text_iff t v).1 e) | inr later ↦ (any-Among t vs).1 later ]),
  )
]

-- The three instants, against the clock and the skew.
abbrev pub Unexpired : Option ℤ → ℕ → ℕ → Type 0
Unexpired none skew now = ⊥
Unexpired (some n) skew now = now + neg_part n < pos_part n + skew

abbrev pub Issued : Option ℤ → ℕ → ℕ → Type 0
Issued none skew now = ⊥
Issued (some n) skew now = pos_part n ≤ now + skew + neg_part n

abbrev pub Begun : Option ℤ → ℕ → ℕ → Type 0
Begun none skew now = Unit {0}
Begun (some n) skew now = pos_part n ≤ now + skew + neg_part n

abbrev pub NonceHolds : Option String → Option Json → Type 0
NonceHolds none claim = Unit {0}
NonceHolds (some n) claim = claim ≡ some (str n)

module _ {A : Type 0} (skew now : ℕ) (rest : Result AxiamError A) {a : A} {Q : Type 0}
    (after : (rest ≡ ok a) ↔ Q) where
  check_exp_iff :
      (n : Option ℤ) → ((check_exp n skew now >> rest) ≡ ok a) ↔ (Unexpired n skew now × Q)
  unfolding check_exp
  check_exp_iff none = (λ h. cc, λ h. absurd h.0)
  check_exp_iff (some n) = ensure_iff _ _ rest (λ h. ground arith, λ h. ground arith) after

  check_iat_iff : (n : Option ℤ) → ((check_iat n skew now >> rest) ≡ ok a) ↔ (Issued n skew now × Q)
  unfolding check_iat
  check_iat_iff none = (λ h. cc, λ h. absurd h.0)
  check_iat_iff (some n) = ensure_iff _ _ rest (λ h. ground arith, λ h. ground arith) after

  check_nbf_iff : (n : Option ℤ) → ((check_nbf n skew now >> rest) ≡ ok a) ↔ (Begun n skew now × Q)
  unfolding check_nbf
  check_nbf_iff none = (λ h. (tt, after.0 h), λ h. after.1 h.1)
  check_nbf_iff (some n) = ensure_iff _ _ rest (λ h. ground arith, λ h. ground arith) after

nonce_holds_iff :
    (utf8 : String → List ℕ)
    → ((s t : String) → utf8 s ≡ utf8 t → s ≡ t)
    → (n : Option String) (claim : Option Json)
    → (nonce_holds utf8 n claim ≡ true) ↔ NonceHolds n claim
unfolding nonce_holds constant_time_equals
nonce_holds_iff utf8 inj none claim = (λ h. tt, λ h. refl)
nonce_holds_iff utf8 inj (some n) none = (λ h. cc, λ h. cc)
nonce_holds_iff utf8 inj (some n) (some null) = (λ h. cc, λ h. cc)
nonce_holds_iff utf8 inj (some n) (some (bool b)) = (λ h. cc, λ h. cc)
nonce_holds_iff utf8 inj (some n) (some (num z)) = (λ h. cc, λ h. cc)
nonce_holds_iff utf8 inj (some n) (some (real z s)) = (λ h. cc, λ h. cc)
nonce_holds_iff utf8 inj (some n) (some (str s)) = (
  λ h. ap (λ x. some (str x)) (inj s n ((same_bytes_iff (utf8 s) (utf8 n)).0 h)),
  λ h. (same_bytes_iff (utf8 s) (utf8 n)).1 (ap utf8 (cc)),
)
nonce_holds_iff utf8 inj (some n) (some (arr xs)) = (λ h. cc, λ h. cc)
nonce_holds_iff utf8 inj (some n) (some (obj fs)) = (λ h. cc, λ h. cc)

sole_or_azp_iff :
    (n : ℕ) (t : String) (azp : Option Json)
    → ((not (ltb 1 n) || is_text t azp) ≡ true) ↔ (1 < n → azp ≡ some (str t))
sole_or_azp_iff n t azp = (
  λ h many. (is_text_iff t azp).0 (rw (lt→ltb 1 n many) at h),
  λ h. elim (Bool-cases (ltb 1 n)) [
    | inl many ↦ rw many ((is_text_iff t azp).1 (h (ltb→lt 1 n many)))
    | inr sole ↦ rw sole refl
  ],
)

skew-le : (s : Option ℤ) → resolve_clock_skew_sec s ≤ max_clock_skew_sec
unfolding resolve_clock_skew_sec
skew-le none = omega arith
skew-le (some s) = omega arith

-- Where distinct texts have distinct encodings, the claims of an ID token pass, unchanged, exactly if
-- the issuer is the expected one, the client is among the audiences and is also the authorized party
-- where there are several, the token has not expired, was issued, and has begun where it says when,
-- each within the skew, and its nonce is the expected one, if one is expected. The skew is at most a
-- minute.
pub check_id_token_claims_iff :
    (utf8 : String → List ℕ)
    → ((s t : String) → utf8 s ≡ utf8 t → s ≡ t)
    → (expected : IdTokenExpectations) (now : ℕ) (claims : Json)
    → ((check_id_token_claims utf8 expected now claims ≡ ok claims) ↔ (
        (property "iss" claims ≡ some (str expected.issuer))
        × (Among (some (str expected.client_id)) (audiences (property "aud" claims))
            × ((1 < length (audiences (property "aud" claims))
                  → property "azp" claims ≡ some (str expected.client_id))
                × (Unexpired
                      (as_number (property "exp" claims))
                      (resolve_clock_skew_sec expected.clock_skew_sec)
                      now
                    × (Issued
                          (as_number (property "iat" claims))
                          (resolve_clock_skew_sec expected.clock_skew_sec)
                          now
                        × (Begun
                              (as_number (property "nbf" claims))
                              (resolve_clock_skew_sec expected.clock_skew_sec)
                              now
                            × NonceHolds expected.nonce (property "nonce" claims))))))))
      × (resolve_clock_skew_sec expected.clock_skew_sec ≤ max_clock_skew_sec)
unfolding check_id_token_claims
check_id_token_claims_iff utf8 inj expected now claims =
    let skew = resolve_clock_skew_sec expected.clock_skew_sec in
    (
      ensure_iff _ _ _ (is_text_iff _ _) (
          ensure_iff _ _ _ (any-Among _ _) (
            ensure_iff _ _ _ (sole_or_azp_iff _ _ _) (
              check_exp_iff skew now _
                (check_iat_iff skew now _
                  (check_nbf_iff skew now _ (ensure_ok_iff _ _ _ (nonce_holds_iff utf8 inj _ _))
                    (as_number (property "nbf" claims)))
                  (as_number (property "iat" claims)))
                (as_number (property "exp" claims))))),
      skew-le expected.clock_skew_sec,
    )
