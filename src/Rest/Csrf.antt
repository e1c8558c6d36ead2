-- ===== src/Rest/Csrf.antt =====
-- core/csrf.ts, the CSRF interceptor of rest/interceptors.ts, and the two tests of a URL that it makes.
pub mod Forwarded
mod Tests
use Prim.Native.Char.{code}
use Prim.Native.String
use text.Mathlib.Text.{starts_with}
use axiam_typescript_sdk.Prelude.{
  String, Bool, true, false, not, ◌&&◌, ◌||◌, List, [], ◌∷◌, map, Option, none, some, ◌==◌,
  if◌then◌else◌, or_else, str_eq,
}
use axiam_typescript_sdk.Prelude.Texts.{codes, is_empty, trim_start, lower, same_codes}
use axiam_typescript_sdk.Prelude.Results.{Result, ok, err, ◌>>=◌}

-- What is read of a `URL`.
pub record Url : Type 0 where
  pub host : String
  pub pathname : String

pub record Platform : Type 0 where
  -- `new URL(base)` and `new URL(url, base)`: `none` where it throws.
  pub parse_base : String → Option Url
  pub parse_url : (url base : String) → Option Url
  -- `decodeURIComponent`: `none` where it throws.
  pub decode_uri_component : String → Option String

-- What throws is a `URIError`.
pub data UriError : Type 0 where
  uri_error : UriError

abbrev strip : String → String → Option String
strip String.[] s = some s
strip (String.◌∷◌ c p) String.[] = none
strip (String.◌∷◌ c p) (String.◌∷◌ d s) = if code c == code d then strip p s else none

-- The text before the first semicolon.
abbrev pub up_to_semicolon : String → String
up_to_semicolon String.[] = ""
up_to_semicolon (String.◌∷◌ c s) = if code c == b';' then "" else String.◌∷◌ c (up_to_semicolon s)

abbrev found_or : Option String → Option String → Option String
found_or (some v) other = some (up_to_semicolon v)
found_or none other = other

-- The match past the start: at a semicolon, and white space after it.
abbrev after_semicolon : String → Option String
after_semicolon String.[] = none
after_semicolon (String.◌∷◌ c s) =
    let rest = after_semicolon s in
    if code c == b';' then found_or (strip "axiam_csrf=" (trim_start s)) rest else rest

-- `CSRF_COOKIE_REGEX`: the group of the first match.
pub csrf_cookie : String → Option String
csrf_cookie s = found_or (strip "axiam_csrf=" s) (after_semicolon s)

-- `CSRF_METHODS.has(method.toLowerCase())`
abbrev pub is_csrf_method : String → Bool
is_csrf_method method =
    let m = map lower (codes method) in
    same_codes m (codes "post")
    || same_codes m (codes "put")
    || same_codes m (codes "patch")
    || same_codes m (codes "delete")

abbrev decoded : Option String → Result UriError (Option String)
decoded (some v) = ok (some v)
decoded none = err uri_error

-- `replace(/\/+$/, '')`
drop_slashes : String → String
drop_slashes String.[] = ""
drop_slashes (String.◌∷◌ c s) =
    let rest = drop_slashes s in if is_empty rest && code c == b'/' then "" else String.◌∷◌ c rest

-- The cookies that the method's header is read from: `document.cookie`, or the session's own token.
abbrev pub cookies_of : Option String → Option String → String
cookies_of (some document) token = document
cookies_of none none = ""
cookies_of none (some token) = if is_empty token then "" else String.◌++◌ "axiam_csrf=" token

-- An empty token sets no header.
abbrev pub non_empty : Option String → Option String
non_empty none = none
non_empty (some t) = if is_empty t then none else some t

module _ (platform : Platform) where
  open platform use {parse_base, parse_url, decode_uri_component}

  pub read_csrf_cookie : String → Result UriError (Option String)
  unfolding csrf_cookie
  read_csrf_cookie cookies = elim (csrf_cookie cookies) [
    | none ↦ ok none
    | some v ↦ decoded (decode_uri_component v)
  ]

  pub csrf_header_for_method : String → String → Result UriError (Option String)
  unfolding read_csrf_cookie
  csrf_header_for_method method cookies =
      if is_csrf_method method then read_csrf_cookie cookies else ok none

  pub is_foreign_host : String → Option String → Bool
  is_foreign_host base none = false
  is_foreign_host base (some url) = if is_empty url then false else elim (parse_url url base) [
    | none ↦ true
    | some target ↦ elim (parse_base base) [
      | none ↦ true
      | some b ↦ not (str_eq target.host b.host)
    ]
  ]

  -- The path under the base's own path.
  abbrev path_under : String → String → String
  path_under prefix path = if is_empty prefix then path else elim (strip prefix path) [
    | none ↦ path
    | some rest ↦ if starts_with rest "/" then rest else path
  ]

  pub is_oauth2_endpoint : String → Option String → Bool
  unfolding drop_slashes
  is_oauth2_endpoint base none = false
  is_oauth2_endpoint base (some url) = if is_empty url then false else elim (parse_base base) [
    | none ↦ false
    | some b ↦ elim (parse_url url base) [
      | none ↦ false
      | some target ↦ starts_with (path_under (drop_slashes b.pathname) target.pathname) "/oauth2/"
    ]
  ]

  -- The `X-CSRF-Token` that the interceptor sets on a request.
  pub csrf_token_for :
      (base : String) (document_cookie token url method : Option String)
      → Result UriError (Option String)
  unfolding csrf_header_for_method is_foreign_host is_oauth2_endpoint
  csrf_token_for base document_cookie token url method =
      if is_foreign_host base url || is_oauth2_endpoint base url
      then ok none
      else (csrf_header_for_method (or_else method "get") (cookies_of document_cookie token)
          >>= λ header. ok (non_empty header))
