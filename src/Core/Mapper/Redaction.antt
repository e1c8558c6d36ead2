-- ===== src/Core/Mapper/Redaction.antt =====
-- What `sanitizeAxiosError` (core/errorMapper.ts) keeps of a failed request.
use axiam_typescript_sdk.Prelude.{◌≡◌, refl, ap, String, true, List, [], ◌∷◌, Option, some, arith}
use axiam_typescript_sdk.Prelude.Dict
use axiam_typescript_sdk.Json.{Json, obj, Fields, fields, from_list}
use axiam_typescript_sdk.Core.Mapper.{
  is_safe_header, redact_headers, sanitize_response, sanitize_fields, is_request_error,
  sanitize_axios_error, kept_response, if_headers, response_fields,
}

-- The same header names in the same order; the values agree where the name is on the allow-list.
abbrev pub SameHeaders : List (String × Json) → List (String × Json) → Type 0
SameHeaders [] [] = Unit
SameHeaders [] (_ ∷ _) = ⊥
SameHeaders (_ ∷ _) [] = ⊥
SameHeaders ((k, v) ∷ hs) ((j, w) ∷ gs) =
    (k ≡ j) × (is_safe_header k ≡ true → v ≡ w) × SameHeaders hs gs

redact_headers-eq :
    (hs gs : List (String × Json)) → SameHeaders hs gs → redact_headers hs ≡ redact_headers gs
unfolding redact_headers
redact_headers-eq [] [] h = refl
redact_headers-eq [] (_ ∷ _) h = elim h [ ]
redact_headers-eq (_ ∷ _) [] h = elim h [ ]
redact_headers-eq ((k, v) ∷ hs) ((j, w) ∷ gs) (name, value, rest) =
    ground (arith, redact_headers-eq hs gs rest)

-- The `headers` property: equal, or two objects with like headers.
pub data LikeHeaders : Option Json → Option Json → Type 0 where
  equal : (h : Option Json) → LikeHeaders h h
  alike :
      (hs gs : Fields)
      → SameHeaders (fields hs) (fields gs)
      → LikeHeaders (some (obj hs)) (some (obj gs))

-- Two responses that look alike to a reader of the status line, the body and the safe headers.
pub record SameResponse (r s : List (String × Json)) : Type 0 where
  pub status : Dict.get "status" r ≡ Dict.get "status" s
  pub status_text : Dict.get "statusText" r ≡ Dict.get "statusText" s
  pub payload : Dict.get "data" r ≡ Dict.get "data" s
  pub headers : LikeHeaders (Dict.get "headers" r) (Dict.get "headers" s)

if_headers-eq : {o p : Option Json} → LikeHeaders o p → if_headers o ≡ if_headers p
if_headers-eq (equal h) = refl
if_headers-eq (alike hs gs same) =
    ap (λ m. some (obj (from_list m))) (redact_headers-eq (fields hs) (fields gs) same)

sanitize_response-eq :
    (r s : List (String × Json)) → SameResponse r s → sanitize_response r ≡ sanitize_response s
unfolding sanitize_response
sanitize_response-eq r s h = rw (h.status, h.status_text, h.payload, if_headers-eq h.headers)

-- The `response` property: equal, or two objects that look alike.
pub data LikeResponse : Option Json → Option Json → Type 0 where
  equal : (r : Option Json) → LikeResponse r r
  alike :
      (r s : Fields)
      → SameResponse (fields r) (fields s)
      → LikeResponse (some (obj r)) (some (obj s))

kept_response-eq :
    {o p : Option Json}
    → LikeResponse o p
    → kept_response (response_fields o) ≡ kept_response (response_fields p)
unfolding kept_response
kept_response-eq (equal r) = refl
kept_response-eq (alike r s same) =
    ap (λ m. ("response", obj (from_list m)) ∷ []) (sanitize_response-eq (fields r) (fields s) same)

-- Two request errors that agree on the four scalar properties and whose responses look alike. What
-- they hold under `config`, `request`, `stack` or any other name is not compared.
pub record SameDiagnostics (e f : Fields) : Type 0 where
  pub from_request_e : is_request_error (fields e) ≡ true
  pub from_request_f : is_request_error (fields f) ≡ true
  pub name : Dict.get "name" (fields e) ≡ Dict.get "name" (fields f)
  pub message : Dict.get "message" (fields e) ≡ Dict.get "message" (fields f)
  pub code : Dict.get "code" (fields e) ≡ Dict.get "code" (fields f)
  pub status : Dict.get "status" (fields e) ≡ Dict.get "status" (fields f)
  pub response : LikeResponse (Dict.get "response" (fields e)) (Dict.get "response" (fields f))

-- The cause that is kept does not depend on the request: two request errors with like diagnostics
-- give the same cause, whatever their `config`, `request` and other properties are, and whatever
-- the values of the response headers that are not on the allow-list are.
pub sanitize_axios_error-eq :
    (e f : Fields)
    → SameDiagnostics e f
    → sanitize_axios_error (obj e) ≡ sanitize_axios_error (obj f)
unfolding sanitize_axios_error sanitize_fields
sanitize_axios_error-eq e f h = rw (
  h.from_request_e,
  h.from_request_f,
  h.name,
  h.message,
  h.code,
  h.status,
  kept_response-eq h.response,
)
