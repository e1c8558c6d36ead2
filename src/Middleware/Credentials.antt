-- ===== src/Middleware/Credentials.antt =====
-- middleware/cookieHeader.ts: the cookies, the bearer credential and the double-submit check. Header
-- texts are code points; `utf8` is `Buffer.from(text, 'utf8')`.
pub mod Sources
pub mod RoundTrip
mod Tests
use axiam_typescript_sdk.Prelude.{
  ℕ, zero, suc, ◌+◌, ◌-◌, ◌*◌, ◌^◌, ◌≤◌, ◌<◌, min, max, ◌≡◌, ◌≢◌, ◌↔◌, ◌∙◌, ◌⊎◌, inl, inr, refl,
  sym, ap, subst, String, Bool, true, false, not, ◌&&◌, ◌||◌, List, [], ◌∷◌, ◌++◌, map, Option,
  none, some, arith, str_eq, eq_iff, ltb, leb, ◌==◌, if◌then◌else◌, ltb→lt, lt→ltb, leb→le, le→leb,
  ==_iff, Bool-cases, Option-cases, or_else, is_some, length, length-append, All, All-append, any,
  contains,
}
use axiam_typescript_sdk.Prelude.Dict
use axiam_typescript_sdk.Prelude.Texts.{
  codes, is_empty, trim, cut, split_on, lower, upper, same_codes,
}
use axiam_typescript_sdk.Amqp.Hmac.{same_bytes}

-- One pair of the header. The name `__proto__` of an object literal takes no text.
add_pair : String → List (String × String) → List (String × String)
add_pair pair cookies = elim (cut b'=' (trim pair)) [
  | none ↦ cookies
  | some parts ↦
      let name = trim parts.0 in
      if is_empty name || str_eq name "__proto__"
      then cookies
      else Dict.set name (trim parts.1) cookies
]

add_pairs : List String → List (String × String) → List (String × String)
unfolding add_pair
add_pairs [] cookies = cookies
add_pairs (pair ∷ pairs) cookies = add_pairs pairs (add_pair pair cookies)

-- An absent header has no pairs; nor does an empty one.
unfoldable pub parse_cookie_header : Option String → List (String × String)
unfolding add_pairs
parse_cookie_header none = []
parse_cookie_header (some header) = add_pairs (split_on b';' header) []

abbrev pub access_cookie_name : String
access_cookie_name = "axiam_access"

abbrev pub csrf_cookie_name : String
csrf_cookie_name = "axiam_csrf"

pub data CredentialSource : Type 0 where
  cookie header : CredentialSource

pub record ExtractedCredential : Type 0 where
  pub token : String
  pub source : CredentialSource

-- A text that is there and not empty.
abbrev pub filled : Option String → Option String
filled none = none
filled (some s) = if is_empty s then none else some s

is_bearer : String → Bool
is_bearer scheme = same_codes (map lower (codes scheme)) (codes "bearer")

-- `Authorization: Bearer <token>`.
pub bearer_token : Option String → Option String
unfolding is_bearer
bearer_token none = none
bearer_token (some text) = elim (cut b' ' (trim text)) [
  | none ↦ none
  | some parts ↦ if is_bearer parts.0 then filled (some (trim parts.1)) else none
]

-- The cookie's token first, then the header's.
either_source : Option String → Option String → Option ExtractedCredential
either_source (some token) bearer = some (record { token = token; source = cookie })
either_source none none = none
either_source none (some token) = some (record { token = token; source = header })

unfoldable pub extract_credential : Option String → Option String → Option ExtractedCredential
unfolding either_source bearer_token
extract_credential cookie_header auth_header =
    either_source (filled (Dict.get access_cookie_name (parse_cookie_header cookie_header)))
      (bearer_token auth_header)

unfoldable pub extract_token : Option String → Option String → Option String
extract_token cookie_header auth_header = elim (extract_credential cookie_header auth_header) [
  | none ↦ none
  | some credential ↦ some credential.token
]

among : List ℕ → List String → Bool
among verb [] = false
among verb (m ∷ ms) = same_codes verb (codes m) || among verb ms

unfoldable pub is_safe_method : Option String → Bool
unfolding among
is_safe_method method = elim (filled method) [
  | none ↦ true
  | some m ↦ among (map upper (codes m)) ("GET" ∷ "HEAD" ∷ "OPTIONS" ∷ [])
]

-- The length test and `timingSafeEqual`, where both are there.
same_submitted : (String → List ℕ) → Option String → Option String → Bool
same_submitted utf8 (some received) (some expected) = same_bytes (utf8 received) (utf8 expected)
same_submitted utf8 _ _ = false

unfoldable pub is_csrf_valid : (String → List ℕ) → Option String → Option String → Bool
unfolding same_submitted
is_csrf_valid utf8 cookie_header csrf_header =
    same_submitted utf8 (filled csrf_header)
      (filled (Dict.get csrf_cookie_name (parse_cookie_header cookie_header)))
