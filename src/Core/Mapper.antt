-- ===== src/Core/Mapper.antt =====
-- core/errorMapper.ts: statuses to errors, and what of a transport error is kept as the cause.
-- The platform's URL parser is the parameter `pathname`: `none` where `new URL(url)` throws.
pub mod Table
pub mod Redaction
mod Tests
use Prim.Native.Char.{code}
use Prim.Native.String
use axiam_typescript_sdk.Prelude.{
  ℕ, ◌+◌, ◌≡◌, String, Bool, true, false, ◌&&◌, ◌||◌, List, [], ◌∷◌, ◌++◌, Option, none, some, ltb,
  leb, ◌==◌, if◌then◌else◌, is_some, str_eq, map,
}
use axiam_typescript_sdk.Prelude.Includes.{begins_with, includes}
use axiam_typescript_sdk.Prelude.Int.{ℤ}
use axiam_typescript_sdk.Prelude.Dict
use axiam_typescript_sdk.Json.{
  Json, null, bool, num, real, str, arr, obj, Fields, fields, from_list, property, as_string,
  is_object,
}
use axiam_typescript_sdk.Core.Errors.{AxiamError, auth, oauth_protocol, authz, network}

-- The members of `GrpcStatus` that the mapping reads.
abbrev pub permission_denied : ℕ
permission_denied = 7

abbrev pub unauthenticated : ℕ
unauthenticated = 16

-- An absent context has every field absent.
pub record HttpErrorContext : Type 0 where
  pub action : Option String
  pub resource_id : Option String
  pub cause : Option Json
  pub url : Option String
  pub body : Option Json

abbrev property_of : String → Option Json → Option Json
property_of k none = none
property_of k (some body) = property k body

pub extract_authz_fields_from_body : Option Json → Option String × Option String
extract_authz_fields_from_body body =
    (as_string (property_of "action" body), as_string (property_of "resource_id" body))

abbrev pub oauth2_path_prefix : String
oauth2_path_prefix = "/oauth2/"

unfoldable pub is_oauth2_endpoint_url : (String → Option String) → Option String → Bool
is_oauth2_endpoint_url pathname none = false
is_oauth2_endpoint_url pathname (some url) = if str_eq url "" then false else elim (pathname url) [
  | some path ↦ begins_with path oauth2_path_prefix
  | none ↦ begins_with url oauth2_path_prefix || includes url oauth2_path_prefix
]

abbrev both : Option String → Option String → Option (String × String)
both (some a) (some b) = some (a, b)
both _ _ = none

-- `isOAuth2ErrorBody`, with the two strings that the narrowing gives.
pub oauth2_error_body : Option Json → Option (String × String)
oauth2_error_body body =
    both (as_string (property_of "error" body)) (as_string (property_of "error_description" body))

-- The tolerant decoder. Arrays are refused; the description is optional.
pub oauth2_error_from_body : Option Json → Option ℕ → Option AxiamError
oauth2_error_from_body (some (obj fs)) retry_after_ms =
    elim (as_string (Dict.get "error" (fields fs))) [
      | none ↦ none
      | some error ↦
          if str_eq error ""
          then none
          else some (
              oauth_protocol error
                (elim (as_string (Dict.get "error_description" (fields fs))) [
                  | none ↦ ""
                  | some d ↦ d
                ])
                retry_after_ms)
    ]
oauth2_error_from_body _ retry_after_ms = none

abbrev codes : String → List ℕ
codes String.[] = []
codes (String.◌∷◌ c s) = code c ∷ codes s

-- `toLowerCase` on the ASCII letters: header names are ASCII.
abbrev lower : ℕ → ℕ
lower c = if leb b'A' c && leb c b'Z' then c + 32 else c

abbrev same_codes : List ℕ → List ℕ → Bool
same_codes [] [] = true
same_codes (a ∷ as_) (b ∷ bs) = (a == b) && same_codes as_ bs
same_codes _ _ = false

abbrev safe_response_headers : List String
safe_response_headers =
    "content-type" ∷ "content-length" ∷ "date" ∷ "server" ∷ "retry-after" ∷ "x-request-id"
    ∷ "x-tenant-id" ∷ []

abbrev any_same : List ℕ → List String → Bool
any_same key [] = false
any_same key (s ∷ ss) = same_codes key (codes s) || any_same key ss

-- `SAFE_RESPONSE_HEADERS.has(key.toLowerCase())`
pub is_safe_header : String → Bool
is_safe_header key = any_same (map lower (codes key)) safe_response_headers

abbrev pub redacted_header : Json
redacted_header = str "[REDACTED]"

pub redact_headers : List (String × Json) → List (String × Json)
redact_headers [] = []
redact_headers ((key, value) ∷ hs) =
    (key, if is_safe_header key then value else redacted_header) ∷ redact_headers hs

-- A property copied when it passes the type test.
abbrev copied : String → Option Json → List (String × Json)
copied key none = []
copied key (some v) = (key, v) ∷ []

abbrev if_string : Option Json → Option Json
if_string (some (str s)) = some (str s)
if_string _ = none

abbrev if_number : Option Json → Option Json
if_number (some (num n)) = some (num n)
if_number (some (real n s)) = some (real n s)
if_number _ = none

-- `Object.entries`. Of an array they would be its indices; none of the transports gives one.
abbrev pub if_headers : Option Json → Option Json
if_headers (some (obj hs)) = some (obj (from_list (redact_headers (fields hs))))
if_headers _ = none

-- The kept part of `response`.
pub sanitize_response : List (String × Json) → List (String × Json)
unfolding redact_headers
sanitize_response response =
    copied "status" (if_number (Dict.get "status" response))
    ++ (copied "statusText" (if_string (Dict.get "statusText" response))
        ++ (copied "headers" (if_headers (Dict.get "headers" response))
            ++ copied "data" (Dict.get "data" response)))

abbrev pub response_fields : Option Json → Option (List (String × Json))
response_fields (some (obj fs)) = some (fields fs)
response_fields (some (arr xs)) = some []
response_fields _ = none

abbrev is_true : Option Json → Bool
is_true (some (bool b)) = b
is_true _ = false

-- Whether the thrown value came from a request.
pub is_request_error : List (String × Json) → Bool
is_request_error e =
    is_some (response_fields (Dict.get "response" e))
    || (is_some (Dict.get "config" e)
        || (is_some (Dict.get "request" e) || is_true (Dict.get "isAxiosError" e)))

-- `sanitized.response`, where the error has a response.
pub kept_response : Option (List (String × Json)) → List (String × Json)
kept_response none = []
kept_response (some r) = ("response", obj (from_list (sanitize_response r))) ∷ []

pub sanitize_fields : List (String × Json) → List (String × Json)
sanitize_fields e =
    copied "name" (if_string (Dict.get "name" e))
    ++ (copied "message" (if_string (Dict.get "message" e))
        ++ (copied "code" (if_string (Dict.get "code" e))
            ++ (copied "status" (if_number (Dict.get "status" e))
                ++ kept_response (response_fields (Dict.get "response" e)))))

pub sanitize_axios_error : Json → Json
sanitize_axios_error (obj e) =
    if is_request_error (fields e) then obj (from_list (sanitize_fields (fields e))) else obj e
sanitize_axios_error other = other

abbrev map_option {ℓ κ} : {A : Type ℓ} {B : Type κ} → (A → B) → Option A → Option B
map_option f none = none
map_option f (some a) = some (f a)

abbrev first_of_two : Option String → Option String → Option String
first_of_two none b = b
first_of_two (some a) b = some a

-- The rows that no endpoint qualifies.
unfoldable pub generic_error : ℕ → String → HttpErrorContext → AxiamError
generic_error status message ctx =
    if status == 401
    then auth message none
    else if status == 403 || status == 409
    then (let (action, resource_id) = extract_authz_fields_from_body ctx.body in
        authz message (first_of_two action ctx.action) (first_of_two resource_id ctx.resource_id))
    else network message (map_option sanitize_axios_error ctx.cause)

unfoldable pub map_http_status_to_error :
    (String → Option String) → ℕ → String → HttpErrorContext → AxiamError
unfolding generic_error
map_http_status_to_error pathname status message ctx =
    if (status == 400 || status == 401) && is_oauth2_endpoint_url pathname ctx.url
    then elim (oauth2_error_body ctx.body) [
      | some (error, description) ↦ oauth_protocol error description none
      | none ↦ generic_error status message ctx
    ]
    else generic_error status message ctx

pub map_grpc_status_to_error : ℕ → String → AxiamError
map_grpc_status_to_error status message =
    if status == unauthenticated
    then auth message none
    else if status == permission_denied
    then authz message none none
    else network message none
