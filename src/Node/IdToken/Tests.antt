-- ===== src/Node/IdToken/Tests.antt =====
-- An ID token at the edge of its life (node/oidcIdToken.ts).
use axiam_typescript_sdk.Prelude.{◌≤◌, ◌<◌, ◌≡◌, ◌↔◌, refl, [], ◌∷◌, none, some, length}
use axiam_typescript_sdk.Prelude.Int.{pos}
use axiam_typescript_sdk.Prelude.Texts.{codes, codes_injective}
use axiam_typescript_sdk.Prelude.Results.{ok, err}
use axiam_typescript_sdk.Json.{Json, num, str, obj, from_list, property}
use axiam_typescript_sdk.Node.IdToken.{
  IdTokenExpectations, audiences, as_number, check_id_token_claims, id_token_auth_error,
  resolve_clock_skew_sec, max_clock_skew_sec,
}
use axiam_typescript_sdk.Node.IdToken.Claims.{
  Among, Unexpired, Issued, Begun, NonceHolds, check_id_token_claims_iff,
}

abbrev expected : IdTokenExpectations
expected = record {
  issuer = "https://iam.test";
  client_id = "app";
  nonce = some "n-1";
  clock_skew_sec = none;
}

abbrev claims : Json
claims = obj (
    from_list (
      ("iss", str "https://iam.test")
      ∷ ("aud", str "app")
      ∷ ("exp", num (pos 1000))
      ∷ ("iat", num (pos 400))
      ∷ ("nonce", str "n-1")
      ∷ []))

passes : check_id_token_claims codes expected 1059 claims ≡ ok claims
unfolding check_id_token_claims
passes = refl

expired :
    check_id_token_claims codes expected 1060 claims
    ≡ err (id_token_auth_error "token_expired" "exp is in the past")
unfolding check_id_token_claims
expired = refl

check_id_token_claims_iff_example :
    ((check_id_token_claims codes expected 1059 claims ≡ ok claims) ↔ (
      (property "iss" claims ≡ some (str expected.issuer))
      × (Among (some (str expected.client_id)) (audiences (property "aud" claims))
          × ((1 < length (audiences (property "aud" claims))
                → property "azp" claims ≡ some (str expected.client_id))
              × (Unexpired
                    (as_number (property "exp" claims))
                    (resolve_clock_skew_sec expected.clock_skew_sec)
                    1059
                  × (Issued
                        (as_number (property "iat" claims))
                        (resolve_clock_skew_sec expected.clock_skew_sec)
                        1059
                      × (Begun
                            (as_number (property "nbf" claims))
                            (resolve_clock_skew_sec expected.clock_skew_sec)
                            1059
                          × NonceHolds expected.nonce (property "nonce" claims))))))))
    × (resolve_clock_skew_sec expected.clock_skew_sec ≤ max_clock_skew_sec)
check_id_token_claims_iff_example =
    check_id_token_claims_iff codes codes_injective expected 1059 claims
