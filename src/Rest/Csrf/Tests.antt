-- ===== src/Rest/Csrf/Tests.antt =====
-- A session that holds a token, at a base of one host (core/csrf.ts, rest/interceptors.ts).
use axiam_typescript_sdk.Prelude.{
  ◌≡◌, ◌≢◌, ◌↔◌, refl, String, true, false, none, some, or_else, str_eq, if◌then◌else◌,
}
use axiam_typescript_sdk.Prelude.Results.{ok}
use axiam_typescript_sdk.Rest.Csrf.{
  Platform, csrf_cookie, is_csrf_method, is_foreign_host, is_oauth2_endpoint, csrf_token_for,
}
use axiam_typescript_sdk.Rest.Csrf.Forwarded.{Held, csrf_token_for_iff}

abbrev base : String
base = "https://iam.test"

abbrev platform : Platform
platform = record {
  parse_base = λ url. some (record { host = "iam.test"; pathname = "/" });
  parse_url = λ url base.
      if str_eq url "/oauth2/token"
      then some (record { host = "iam.test"; pathname = "/oauth2/token" })
      else if str_eq url "/api/v1/users"
      then some (record { host = "iam.test"; pathname = "/api/v1/users" })
      else some (record { host = "elsewhere.test"; pathname = "/" });
  decode_uri_component = some;
}

abbrev token : String
token = "tok"

third_cookie : csrf_cookie "a=1;axiam=2; \taxiam_csrf=tok;axiam_csrf=other" ≡ some "tok"
unfolding csrf_cookie
third_cookie = refl

no_cookie : csrf_cookie "my_axiam_csrf=tok" ≡ none
unfolding csrf_cookie
no_cookie = refl

mixed_case : is_csrf_method "PaTch" ≡ true
mixed_case = refl

is_foreign : is_foreign_host platform base (some "https://elsewhere.test/") ≡ true
unfolding is_foreign_host
is_foreign = refl

at_oauth2 : is_oauth2_endpoint platform base (some "/oauth2/token") ≡ true
unfolding is_oauth2_endpoint
at_oauth2 = refl

posted :
    csrf_token_for platform base none (some "tok") (some "/api/v1/users") (some "POST")
    ≡ ok (some "tok")
unfolding csrf_token_for
posted = refl

csrf_token_for_iff_example :
    (csrf_token_for platform base none (some token) (some "/api/v1/users") (some "POST")
      ≡ ok (some token))
    ↔ ((is_foreign_host platform base (some "/api/v1/users") ≡ false)
        × (is_oauth2_endpoint platform base (some "/api/v1/users") ≡ false)
        × (is_csrf_method (or_else (some "POST") "get") ≡ true)
        × Held platform (some token) token
        × (token ≢ ""))
csrf_token_for_iff_example =
    csrf_token_for_iff platform base (some token) (some "/api/v1/users") (some "POST") token
