-- ===== src/Node/Jwks/Tests.antt =====
-- A token bound to a certificate, and an ID token (node/jwks.ts), with a `jose` that takes one token.
use axiam_typescript_sdk.Prelude.{◌≡◌, ◌≢◌, ◌↔◌, refl, [], ◌∷◌, none, some, str_eq, if◌then◌else◌}
use axiam_typescript_sdk.Prelude.Int.{pos}
use axiam_typescript_sdk.Prelude.Texts.{codes}
use axiam_typescript_sdk.Prelude.Results.{ok, err}
use axiam_typescript_sdk.Json.{Json, num, str, obj, from_list, property}
use axiam_typescript_sdk.Node.IdToken.{
  assert_id_token_alg, IdTokenExpectations, check_id_token_claims, resolve_clock_skew_sec,
}
use axiam_typescript_sdk.Node.Jwks.{
  plain, Jose, PresentedProofs, AccessTokenExpectations, access_options, id_options, confirmation,
  verify_certificate_binding, constant_time_equal, verify_access_token, verify_id_token,
}
use axiam_typescript_sdk.Node.Jwks.Binding.{Bound}
use axiam_typescript_sdk.Node.Jwks.Access.{verify_access_token_iff}
use axiam_typescript_sdk.Node.Jwks.Identity.{HeaderHolds, verify_id_token_iff}

abbrev payload : Json
payload = obj (
    from_list (
      ("sub", str "u-1")
      ∷ ("tenant_id", str "t-1")
      ∷ ("exp", num (pos 1000))
      ∷ ("cnf", obj (from_list (("x5t#S256", str "thumb") ∷ [])))
      ∷ []))

abbrev claims : Json
claims = obj (
    from_list (
      ("iss", str "https://iam.test")
      ∷ ("aud", str "app")
      ∷ ("exp", num (pos 1000))
      ∷ ("iat", num (pos 400))
      ∷ []))

abbrev jose : Jose
jose = record {
  jwt_verify = λ token options.
      if str_eq token "access"
      then ok payload
      else if str_eq token "id"
      then ok claims
      else err
          (plain "signature verification failed" (some "ERR_JWS_SIGNATURE_VERIFICATION_FAILED"));
  decode_protected_header =
      λ token. some (obj (from_list (("alg", str "EdDSA") ∷ ("kid", str "k-1") ∷ [])));
}

abbrev expected : AccessTokenExpectations
expected = record {
  expected_tenant_id = "t-1";
  expected_issuer = none;
  expected_audience = some "axiam:user";
}

abbrev id_expected : IdTokenExpectations
id_expected = record {
  issuer = "https://iam.test";
  client_id = "app";
  nonce = none;
  clock_skew_sec = some (pos 500);
}

abbrev certified : PresentedProofs
certified = record { certificate_thumbprint = some "thumb"; dpop_thumbprint = none }

abbrev bare : PresentedProofs
bare = record { certificate_thumbprint = none; dpop_thumbprint = none }

bearer_refused :
    verify_access_token jose "access" expected bare
    ≡ err (plain "token is certificate-bound but no client certificate was presented" none)
unfolding verify_access_token
bearer_refused = refl

verify_access_token_iff_example :
    (verify_access_token jose "access" expected certified ≡ ok payload) ↔ (
      (jose.jwt_verify "access" (access_options expected) ≡ ok payload)
      × (expected.expected_tenant_id ≢ "")
      × (property "tenant_id" payload ≡ some (str expected.expected_tenant_id))
      × Bound (confirmation payload) certified)
verify_access_token_iff_example = verify_access_token_iff jose "access" expected certified payload

verify_id_token_iff_example : (verify_id_token jose codes 1059 "id" id_expected ≡ ok claims) ↔ (
    HeaderHolds (jose.decode_protected_header "id")
    × (jose.jwt_verify "id" (id_options (resolve_clock_skew_sec id_expected.clock_skew_sec))
        ≡ ok claims)
    × (check_id_token_claims codes id_expected 1059 claims ≡ ok claims))
verify_id_token_iff_example = verify_id_token_iff jose codes 1059 "id" id_expected claims

id_token_passes : verify_id_token jose codes 1059 "id" id_expected ≡ ok claims
unfolding verify_id_token assert_id_token_alg check_id_token_claims
id_token_passes = refl

certificate_passes : verify_certificate_binding payload (some "thumb") ≡ ok tt
unfolding verify_certificate_binding constant_time_equal
certificate_passes = refl
