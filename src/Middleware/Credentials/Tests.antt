-- ===== src/Middleware/Credentials/Tests.antt =====
-- Headers of a browser and of an API client (middleware/cookieHeader.ts).
use axiam_typescript_sdk.Prelude.{◌≡◌, refl, String, true, List, [], ◌∷◌, Option, none, some}
use axiam_typescript_sdk.Prelude.Dict
use axiam_typescript_sdk.Middleware.Credentials.{
  parse_cookie_header, ExtractedCredential, cookie, header, extract_credential, is_safe_method,
}
use axiam_typescript_sdk.Middleware.Credentials.RoundTrip.{
  AreCookies, print, last_value, get-parse-print,
}

abbrev cookies : Option String
cookies = some "theme=dark ;axiam_access= a=b; =x; axiam_csrf=c1;"

parsed :
    parse_cookie_header cookies
    ≡ ("theme", "dark") ∷ ("axiam_access", "a=b") ∷ ("axiam_csrf", "c1") ∷ []
unfolding parse_cookie_header
parsed = refl

abbrev browser : ExtractedCredential
browser = record { token = "a=b"; source = cookie }

api_client :
    extract_credential none (some "bEARER  t-1 ") ≡ some (record { token = "t-1"; source = header })
unfolding extract_credential parse_cookie_header
api_client = refl

abbrev pairs : List (String × String)
pairs = ("a", "1=2") ∷ ("b", "") ∷ ("a", "3") ∷ []

pairs-AreCookies : AreCookies pairs
pairs-AreCookies = (
  ((refl, refl, (refl, tt), (refl, tt), refl), (refl, refl, (refl, (refl, (refl, tt))))),
  (
    ((refl, refl, (refl, tt), (refl, tt), refl), (refl, refl, tt)),
    (((refl, refl, (refl, tt), (refl, tt), refl), (refl, refl, (refl, tt))), tt),
  ),
)

get-parse-print_example :
    Dict.get "a" (parse_cookie_header (some (print pairs))) ≡ last_value "a" pairs none
get-parse-print_example = get-parse-print pairs "a" pairs-AreCookies

safe_methods : is_safe_method (some "optıonſ") ≡ true
unfolding is_safe_method
safe_methods = refl
