-- ===== src/Node/IdToken.antt =====
-- node/oidcIdToken.ts: the checks of an ID token's claims. The claims are the parsed payload; the
-- clock and the skew are whole seconds. `utf8` is `Buffer.from(text, 'utf8')`.
pub mod Claims
mod Tests
use axiam_typescript_sdk.Prelude.{
  ℕ, zero, suc, ◌+◌, ◌-◌, ◌*◌, ◌^◌, ◌≤◌, ◌<◌, min, max, ◌≡◌, ◌≢◌, ◌↔◌, ◌∙◌, ◌⊎◌, inl, inr, refl,
  sym, ap, subst, String, Bool, true, false, not, ◌&&◌, ◌||◌, List, [], ◌∷◌, ◌++◌, map, Option,
  none, some, arith, str_eq, eq_iff, ltb, leb, ◌==◌, if◌then◌else◌, ltb→lt, lt→ltb, leb→le, le→leb,
  ==_iff, Bool-cases, Option-cases, or_else, is_some, length, length-append, All, All-append, any,
  contains,
}
use axiam_typescript_sdk.Prelude.Int.{ℤ, pos_part, neg_part}
use axiam_typescript_sdk.Prelude.Results.{Result, ok, err, ◌>>=◌, ◌>>◌, ensure}
use axiam_typescript_sdk.Json.{Json, null, bool, num, real, str, arr, obj, items, property}
use axiam_typescript_sdk.Core.Errors.{AxiamError, auth}
use axiam_typescript_sdk.Amqp.Hmac.{same_bytes}
use Prim.Native.String

pub record IdTokenExpectations : Type 0 where
  pub issuer : String
  pub client_id : String
  pub nonce : Option String
  pub clock_skew_sec : Option ℤ

abbrev pub max_clock_skew_sec : ℕ
max_clock_skew_sec = 60

-- `AuthError` with the reason code.
unfoldable pub id_token_auth_error : String → String → AxiamError
id_token_auth_error reason message =
    auth
      (String.◌++◌ "id_token validation failed (" (String.◌++◌ reason (String.◌++◌ "): " message)))
      (some reason)

unfoldable pub resolve_clock_skew_sec : Option ℤ → ℕ
resolve_clock_skew_sec none = max_clock_skew_sec
resolve_clock_skew_sec (some s) = min (pos_part s) max_clock_skew_sec

pub constant_time_equals : (String → List ℕ) → String → String → Bool
constant_time_equals utf8 a b = same_bytes (utf8 a) (utf8 b)

abbrev pub id_token_alg : String
id_token_alg = "EdDSA"

-- `v === text`
abbrev pub is_text : String → Option Json → Bool
is_text t (some (str s)) = str_eq s t
is_text t _ = false

abbrev pub quoted_alg : Option Json → String
quoted_alg (some (str s)) = String.◌++◌ "\"" (String.◌++◌ s "\"")
quoted_alg _ = "no alg header"

unfoldable pub assert_id_token_alg : Option Json → Result AxiamError (Unit {0})
assert_id_token_alg alg = ensure (is_text id_token_alg alg) (
    id_token_auth_error "invalid_alg" (String.◌++◌ "expected alg \"EdDSA\", got " (quoted_alg alg)))

-- `Array.isArray(aud) ? aud : [aud]`
unfoldable pub audiences : Option Json → List (Option Json)
audiences (some (arr xs)) = map some (items xs)
audiences aud = aud ∷ []

-- The number at or above the claim's, where the claim is one.
abbrev pub as_number : Option Json → Option ℤ
as_number (some (num z)) = some z
as_number (some (real z text)) = some z
as_number _ = none

-- `n + skew <= now` and `n - skew > now`, for a number whose ceiling is `n`: beside whole numbers, a
-- number and its ceiling compare alike.
abbrev pub is_over : ℤ → ℕ → ℕ → Bool
is_over n skew now = leb (pos_part n + skew) (now + neg_part n)

abbrev pub is_ahead : ℤ → ℕ → ℕ → Bool
is_ahead n skew now = ltb (now + skew + neg_part n) (pos_part n)

check_exp : Option ℤ → ℕ → ℕ → Result AxiamError (Unit {0})
check_exp none skew now =
    err (id_token_auth_error "token_expired" "exp claim is missing or not a number")
check_exp (some n) skew now =
    ensure (not (is_over n skew now)) (id_token_auth_error "token_expired" "exp is in the past")

check_iat : Option ℤ → ℕ → ℕ → Result AxiamError (Unit {0})
check_iat none skew now =
    err (id_token_auth_error "token_expired" "iat claim is missing or not a number")
check_iat (some n) skew now =
    ensure (not (is_ahead n skew now)) (id_token_auth_error "token_expired" "iat is in the future")

check_nbf : Option ℤ → ℕ → ℕ → Result AxiamError (Unit {0})
check_nbf none skew now = ok tt
check_nbf (some n) skew now =
    ensure (not (is_ahead n skew now)) (id_token_auth_error "token_expired" "nbf is in the future")

-- A nonce is asked for only where one is expected.
nonce_holds : (String → List ℕ) → Option String → Option Json → Bool
nonce_holds utf8 none claim = true
nonce_holds utf8 (some n) (some (str s)) = constant_time_equals utf8 s n
nonce_holds utf8 (some n) _ = false

unfoldable pub check_id_token_claims :
    (String → List ℕ) → IdTokenExpectations → ℕ → Json → Result AxiamError Json
unfolding check_exp check_iat check_nbf nonce_holds constant_time_equals id_token_auth_error
    resolve_clock_skew_sec audiences
check_id_token_claims utf8 expected now claims =
    let skew = resolve_clock_skew_sec expected.clock_skew_sec in
    let auds = audiences (property "aud" claims) in
    do
      ensure (is_text expected.issuer (property "iss" claims))
          (id_token_auth_error "invalid_issuer" "iss does not equal the discovery document issuer")
      ensure (any (is_text expected.client_id) auds)
          (id_token_auth_error "invalid_audience" "aud does not contain this client_id")
      ensure (not (ltb 1 (length auds)) || is_text expected.client_id (property "azp" claims)) (
          id_token_auth_error "invalid_audience"
            "aud holds multiple audiences and azp is absent or does not equal this client_id")
      check_exp (as_number (property "exp" claims)) skew now
      check_iat (as_number (property "iat" claims)) skew now
      check_nbf (as_number (property "nbf" claims)) skew now
      ensure (nonce_holds utf8 expected.nonce (property "nonce" claims)) (
          id_token_auth_error "nonce_mismatch"
            "nonce claim is absent or does not match the request nonce")
      ok claims
