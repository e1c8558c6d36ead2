-- ===== src/Node/Jwks.antt =====
-- node/jwks.ts: the verification of access and ID tokens. The library `jose` and its key set are a
-- parameter: what it answers on a token, at the moment of the call. The warning about a tenant
-- slug, which is only logged, is left out.
pub mod Binding
pub mod Access
pub mod Identity
mod Tests
use axiam_typescript_sdk.Prelude.{
  ℕ, zero, suc, ◌+◌, ◌-◌, ◌*◌, ◌^◌, ◌≤◌, ◌<◌, min, max, ◌≡◌, ◌≢◌, ◌↔◌, ◌∙◌, ◌⊎◌, inl, inr, refl,
  sym, ap, subst, String, Bool, true, false, not, ◌&&◌, ◌||◌, List, [], ◌∷◌, ◌++◌, map, Option,
  none, some, arith, str_eq, eq_iff, ltb, leb, ◌==◌, if◌then◌else◌, ltb→lt, lt→ltb, leb→le, le→leb,
  ==_iff, Bool-cases, Option-cases, or_else, is_some, length, length-append, All, All-append, any,
  contains,
}
use axiam_typescript_sdk.Prelude.Int.{pos, pos_part, neg_part}
use axiam_typescript_sdk.Prelude.Texts.{codes, text_length, is_empty}
use axiam_typescript_sdk.Prelude.Results.{Result, ok, err, ◌>>=◌, ◌>>◌, ensure}
use axiam_typescript_sdk.Json.{Json, null, bool, num, str, property, as_string}
use axiam_typescript_sdk.Core.Errors.{AxiamError, auth}
use axiam_typescript_sdk.Node.IdToken.{
  IdTokenExpectations, assert_id_token_alg, check_id_token_claims, id_token_alg,
  id_token_auth_error, resolve_clock_skew_sec,
}
use Prim.Native.String

-- What is thrown: an `Error` with its message and `code`, one of the SDK's, or another value.
pub data Thrown : Type 0 where
  plain : (message : String) (code : Option String) → Thrown
  sdk : AxiamError → Thrown
  value : Thrown

-- `jose`'s `JWTVerifyOptions`.
pub record VerifyOptions : Type 0 where
  pub algorithms : List String
  pub required_claims : List String
  pub clock_tolerance : ℕ
  pub issuer : Option String
  pub audience : Option String

pub record Jose : Type 0 where
  -- `jwtVerify` with the remote key set: the payload, or what it throws.
  pub jwt_verify : String → VerifyOptions → Result Thrown Json
  -- `decodeProtectedHeader`: `none` where it throws.
  pub decode_protected_header : String → Option Json

pub record PresentedProofs : Type 0 where
  pub certificate_thumbprint : Option String
  pub dpop_thumbprint : Option String

pub record AccessTokenExpectations : Type 0 where
  pub expected_tenant_id : String
  pub expected_issuer : Option String
  pub expected_audience : Option String

abbrev pub clock_skew_leeway_sec : ℕ
clock_skew_leeway_sec = 60

-- `diff !== 0` after the loop.
differ : List ℕ → List ℕ → Bool
differ [] ys = false
differ (x ∷ xs) [] = true
differ (x ∷ xs) (y ∷ ys) = not (x == y) || differ xs ys

pub constant_time_equal : String → String → Bool
unfolding differ
constant_time_equal a b =
    if not (text_length a == text_length b) then false else not (differ (codes a) (codes b))

abbrev error : String → Thrown
error message = plain message none

-- A confirmation is one that is neither absent nor null.
abbrev pub confirmation : Json → Option Json
confirmation claims = elim (property "cnf" claims) [
  | none ↦ none
  | some c ↦ elim c [ null ↦ none | other ↦ some other ]
]

-- A non-empty text under the name.
abbrev pub named : String → Json → Option String
named k cnf = elim (as_string (property k cnf)) [
  | none ↦ none
  | some t ↦ if is_empty t then none else some t
]

-- One method that the token may name: what it expects against what was presented.
check_proof : Option String → Option String → String → String → Result Thrown (Unit {0})
check_proof none presented missing different = ok tt
check_proof (some expected) none missing different = err (error missing)
check_proof (some expected) (some presented) missing different =
    ensure (constant_time_equal expected presented) (error different)

check_confirmation : Option Json → PresentedProofs → Result Thrown (Unit {0})
unfolding check_proof
check_confirmation none proofs = ok tt
check_confirmation (some cnf) proofs =
    let cert = named "x5t#S256" cnf in
    let jkt = named "jkt" cnf in
    do
      ensure (is_some cert || is_some jkt) (
          error
            "token carries a cnf confirmation naming no method this SDK can verify (CONTRACT.md §10.1 rule 9 — an unverifiable constraint is not an absent one)")
      check_proof cert proofs.certificate_thumbprint
          "token is certificate-bound but no client certificate was presented"
          "token is bound to a different client certificate than the one presented"
      check_proof jkt proofs.dpop_thumbprint
          "token is DPoP-bound but no verified DPoP proof was presented"
          "token is bound to a different DPoP key than the one presented"

pub verify_token_binding : Json → PresentedProofs → Result Thrown (Unit {0})
unfolding check_confirmation
verify_token_binding claims proofs = check_confirmation (confirmation claims) proofs

check_certificate : Option Json → Option String → Result Thrown (Unit {0})
unfolding check_proof
check_certificate none presented = ok tt
check_certificate (some cnf) presented = do
  ensure (is_some (named "x5t#S256" cnf)) (
      error
        "token carries a cnf confirmation naming a method this entry point cannot verify (CONTRACT.md §10.1 rule 9 — an unverifiable constraint is not an absent one; use verifyTokenBinding for DPoP)")
  ensure (not (is_some (named "jkt" cnf))) (
      error
        "token names both a certificate and a DPoP key; both must hold (CONTRACT.md §10.1 rule 9) — use verifyTokenBinding")
  check_proof (named "x5t#S256" cnf) presented
      "token is certificate-bound but no client certificate was presented"
      "token is bound to a different client certificate than the one presented"

pub verify_certificate_binding : Json → Option String → Result Thrown (Unit {0})
unfolding check_certificate
verify_certificate_binding claims presented = check_certificate (confirmation claims) presented

abbrev auth_error : String → Thrown
auth_error message = sdk (auth message none)

-- The claim is `none` where it is not a text.
check_tenant : Option String → String → Result Thrown (Unit {0})
check_tenant none expected = err (auth_error "invalid tenant_id claim")
check_tenant (some claim) expected = do
  ensure (not (is_empty claim)) (auth_error "invalid tenant_id claim")
  ensure (str_eq claim expected) (auth_error "token tenant_id does not match configured tenant")

unfoldable pub assert_tenant_claim : Option Json → String → Result Thrown (Unit {0})
unfolding check_tenant
assert_tenant_claim claim expected = do
  ensure (not (is_empty expected)) (
      auth_error
        "no configured tenant to verify the token against; refusing the request (CONTRACT.md §10.1 rule 4 fails closed)")
  check_tenant (as_string claim) expected

abbrev pub access_options : AccessTokenExpectations → VerifyOptions
access_options expected = record {
  algorithms = "EdDSA" ∷ [];
  required_claims = "exp" ∷ [];
  clock_tolerance = clock_skew_leeway_sec;
  issuer = expected.expected_issuer;
  audience = expected.expected_audience;
}

abbrev pub id_options : ℕ → VerifyOptions
id_options skew = record {
  algorithms = id_token_alg ∷ [];
  required_claims = [];
  clock_tolerance = skew;
  issuer = none;
  audience = none;
}

abbrev code_of : Thrown → String
code_of (plain message (some code)) = code
code_of _ = ""

pub map_jose_verify_error : Thrown → AxiamError
map_jose_verify_error e =
    if str_eq (code_of e) "ERR_JWKS_NO_MATCHING_KEY"
    then id_token_auth_error "unknown_kid" "no JWKS key matches the token kid"
    else if str_eq (code_of e) "ERR_JWT_EXPIRED"
    then id_token_auth_error "token_expired" "exp is in the past"
    else if str_eq (code_of e) "ERR_JWT_CLAIM_VALIDATION_FAILED"
    then id_token_auth_error "token_expired" "a time-based claim (nbf/iat) is not yet valid"
    else id_token_auth_error "invalid_signature" "signature verification failed"

-- `catch (err) { throw mapJoseVerifyError(err); }`
mapped : Result Thrown Json → Result AxiamError Json
unfolding map_jose_verify_error
mapped (ok payload) = ok payload
mapped (err e) = err (map_jose_verify_error e)

-- The truth value of what a property holds.
abbrev pub is_truthy : Option Json → Bool
is_truthy none = false
is_truthy (some null) = false
is_truthy (some (bool b)) = b
is_truthy (some (num z)) = not (pos_part z == neg_part z)
is_truthy (some (str s)) = not (is_empty s)
is_truthy (some _) = true

module _ (jose : Jose) where
  open jose use {jwt_verify, decode_protected_header}

  unfoldable pub verify_access_token :
      String → AccessTokenExpectations → PresentedProofs → Result Thrown Json
  unfolding verify_token_binding assert_tenant_claim
  verify_access_token token expected proofs = do
    payload ← jwt_verify token (access_options expected)
    assert_tenant_claim (property "tenant_id" payload) expected.expected_tenant_id
    verify_token_binding payload proofs
    ok payload

  -- No required claims, no tolerance and no tenant.
  pub verify_signature_only_unchecked : String → Result Thrown Json
  verify_signature_only_unchecked token = jwt_verify token (record {
    algorithms = "EdDSA" ∷ [];
    required_claims = [];
    clock_tolerance = 0;
    issuer = none;
    audience = none;
  })

  check_header : Option Json → Result AxiamError (Unit {0})
  check_header none = err (id_token_auth_error "invalid_alg" "token is not a well-formed JWS")
  check_header (some header) = do
    assert_id_token_alg (property "alg" header)
    ensure (is_truthy (property "kid" header))
        (id_token_auth_error "unknown_kid" "token carries no kid header")

  -- `utf8` and the clock are those of the claim checks.
  pub verify_id_token :
      (String → List ℕ) → ℕ → String → IdTokenExpectations → Result AxiamError Json
  unfolding check_header mapped
  verify_id_token utf8 now token expected = do
    let skew = resolve_clock_skew_sec expected.clock_skew_sec
    check_header (decode_protected_header token)
    claims ← mapped (jwt_verify token (id_options skew))
    check_id_token_claims utf8 (record expected { clock_skew_sec = some (pos skew) }) now claims
