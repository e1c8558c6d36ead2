-- ===== src/Node/Jwks/Binding.antt =====
-- Who may use a bound token (node/jwks.ts).
use axiam_typescript_sdk.Prelude.{
  ℕ, ◌≡◌, ◌↔◌, inl, inr, refl, sym, ap, String, true, false, ◌||◌, List, [], ◌∷◌, Option, none,
  some, arith, ◌==◌, ==_iff, Bool-cases, Option-cases, is_some, length,
}
use axiam_typescript_sdk.Prelude.Texts.{codes, codes_injective, text_length}
use axiam_typescript_sdk.Prelude.Results.{ok, ensure_iff, then_iff}
use axiam_typescript_sdk.Json.{Json}
use axiam_typescript_sdk.Node.Jwks.{
  PresentedProofs, confirmation, named, check_proof, check_confirmation, check_certificate, differ,
  constant_time_equal, verify_token_binding, verify_certificate_binding,
}

differ_iff : (xs ys : List ℕ) → length xs ≡ length ys → (differ xs ys ≡ false) ↔ (xs ≡ ys)
unfolding differ
differ_iff [] [] e = (λ h. refl, λ h. refl)
differ_iff [] (y ∷ ys) e = absurd (omega (arith, e))
differ_iff (x ∷ xs) [] e = absurd (omega (arith, e))
differ_iff (x ∷ xs) (y ∷ ys) e =
    let e' : length xs ≡ length ys = omega (arith, e) in
    (
      λ h. ground (arith, differ_iff xs ys e', ==_iff x y),
      λ h. ground (arith, differ_iff xs ys e', ==_iff x y),
    )

text_length-eq : (s : String) → text_length s ≡ length (codes s)
text_length-eq String.[] = refl
text_length-eq (String.◌∷◌ c s) = omega (arith, text_length-eq s)

-- The comparison that runs to the end of both texts answers whether they are equal.
pub constant_time_equal_iff : (a b : String) → (constant_time_equal a b ≡ true) ↔ (a ≡ b)
unfolding constant_time_equal
constant_time_equal_iff a b = elim (Bool-cases (text_length a == text_length b)) [
  | inl same ↦
      let lengths : length (codes a) ≡ length (codes b) =
        omega (arith, text_length-eq a, text_length-eq b, (==_iff _ _).0 same) in
      rw same (
        λ h. codes_injective a b ((differ_iff _ _ lengths).0 (ground arith)),
        λ h. rw ((differ_iff _ _ lengths).1 (ap codes h)) refl,
      )
  | inr other ↦
      rw other (λ h. cc, λ h. cc ((==_iff (text_length a) (text_length b)).1 (ap text_length h)))
]

-- A method that the token names is met by what was presented.
abbrev pub Met : Option String → Option String → Type 0
Met none presented = Unit {0}
Met (some expected) presented = presented ≡ some expected

-- A confirmation names a method, and each that it names is met.
abbrev pub Bound : Option Json → PresentedProofs → Type 0
Bound none proofs = Unit {0}
Bound (some cnf) proofs =
    ((is_some (named "x5t#S256" cnf) || is_some (named "jkt" cnf)) ≡ true)
    × (Met (named "x5t#S256" cnf) proofs.certificate_thumbprint
        × Met (named "jkt" cnf) proofs.dpop_thumbprint)

check_proof_iff :
    (expected presented : Option String) (missing different : String) {u : Unit {0}}
    → (check_proof expected presented missing different ≡ ok u) ↔ Met expected presented
unfolding check_proof
check_proof_iff none presented missing different = (λ h. tt, λ h. refl)
check_proof_iff (some e) none missing different = (λ h. cc, λ h. cc)
check_proof_iff (some e) (some p) missing different = elim (Bool-cases (constant_time_equal e p)) [
  | inl same ↦ rw same (λ h. ap some (sym ((constant_time_equal_iff e p).0 same)), λ h. refl)
  | inr other ↦ rw other (λ h. cc, λ h. cc ((constant_time_equal_iff e p).1 (cc)))
]

check_confirmation_iff :
    (cnf : Option Json) (proofs : PresentedProofs)
    → (check_confirmation cnf proofs ≡ ok tt) ↔ Bound cnf proofs
unfolding check_confirmation
check_confirmation_iff none proofs = (λ h. tt, λ h. refl)
check_confirmation_iff (some cnf) proofs =
    ensure_iff _ _ _ (λ h. h, λ h. h)
      (then_iff _ _ (check_proof_iff (named "x5t#S256" cnf) _ _ _)
        (λ _. check_proof_iff (named "jkt" cnf) _ _ _))

-- A token may be used exactly if it has no confirmation, or its confirmation names a certificate or a
-- DPoP key, and each that it names is the one that was presented.
pub verify_token_binding_iff :
    (claims : Json) (proofs : PresentedProofs)
    → (verify_token_binding claims proofs ≡ ok tt) ↔ Bound (confirmation claims) proofs
unfolding verify_token_binding
verify_token_binding_iff claims proofs = check_confirmation_iff (confirmation claims) proofs

check_certificate-Bound :
    (cnf : Option Json) (presented dpop : Option String)
    → check_certificate cnf presented ≡ ok tt
    → check_confirmation cnf (record { certificate_thumbprint = presented; dpop_thumbprint = dpop })
      ≡ ok tt
unfolding check_certificate check_confirmation
check_certificate-Bound none presented dpop h = refl
check_certificate-Bound (some cnf) presented dpop h = elim (Option-cases (named "x5t#S256" cnf)) [
  | inl unnamed ↦ cc (rw unnamed at h)
  | inr (t, bound) ↦ elim (Option-cases (named "jkt" cnf)) [
    | inl sole ↦
        rw (bound, sole)
          ((then_iff _ _ (check_proof_iff (some t) presented _ _)
              (λ _. check_proof_iff none dpop "" "")).1
            ((check_proof_iff (some t) presented _ _).0 (rw (bound, sole) at h), tt))
    | inr (k, both) ↦ cc (rw (bound, both) at h)
  ]
]

-- What the older entry point lets through with a certificate, the current one does, whatever DPoP key
-- comes with it.
pub verify_certificate_binding-implies :
    (claims : Json) (presented dpop : Option String)
    → verify_certificate_binding claims presented ≡ ok tt
    → verify_token_binding claims
        (record { certificate_thumbprint = presented; dpop_thumbprint = dpop })
      ≡ ok tt
unfolding verify_certificate_binding verify_token_binding
verify_certificate_binding-implies claims presented dpop h =
    check_certificate-Bound (confirmation claims) presented dpop h
