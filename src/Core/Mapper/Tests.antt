-- ===== src/Core/Mapper/Tests.antt =====
-- The error mapping (core/errorMapper.ts) at concrete inputs.
use axiam_typescript_sdk.Prelude.{◌≡◌, refl, String, true, [], ◌∷◌, Option, none, some}
use axiam_typescript_sdk.Prelude.Int.{pos}
use axiam_typescript_sdk.Json.{Json, num, str, bool, obj, Fields, from_list}
use axiam_typescript_sdk.Core.Mapper.{
  HttpErrorContext, is_oauth2_endpoint_url, is_request_error, is_safe_header, sanitize_axios_error,
}
use axiam_typescript_sdk.Core.Mapper.Redaction.{
  SameDiagnostics, SameResponse, alike, sanitize_axios_error-eq,
}

-- A platform whose URLs are all paths.
abbrev pathname : String → Option String
pathname url = some url

abbrev context : HttpErrorContext
context = record {
  action = none;
  resource_id = none;
  cause = none;
  url = some "/oauth2/token";
  body = some (
      obj (from_list (("error", str "invalid_grant") ∷ ("error_description", str "expired") ∷ [])));
}

-- A bare path has no host, so `new URL` throws on it.
federation_callback :
    is_oauth2_endpoint_url (λ url. none) (some "/api/v1/auth/federation/oauth2/callback") ≡ true
unfolding is_oauth2_endpoint_url
federation_callback = refl

abbrev response : String → Fields
response cookie = from_list (
    ("status", num (pos 503))
    ∷ ("headers", obj (from_list (("Retry-After", str "5") ∷ ("Set-Cookie", str cookie) ∷ [])))
    ∷ [])

-- Two failures of one call that differ in a secret of the request and in a cookie.
abbrev error : String → String → Fields
error token cookie =
    from_list
      (("message", str "m") ∷ ("config", str token) ∷ ("response", obj (response cookie)) ∷ [])

same_response :
    SameResponse
      (axiam_typescript_sdk.Json.fields (response "a"))
      (axiam_typescript_sdk.Json.fields (response "b"))
unfolding is_safe_header
same_response = record {
  status = refl;
  status_text = refl;
  payload = refl;
  headers = alike _ _ (refl, (λ h. refl), (refl, (λ h. cc h), tt));
}

same_diagnostics : SameDiagnostics (error "x" "a") (error "y" "b")
unfolding is_request_error
same_diagnostics = record {
  from_request_e = refl;
  from_request_f = refl;
  name = refl;
  message = refl;
  code = refl;
  status = refl;
  response = alike (response "a") (response "b") same_response;
}

sanitize_axios_error-eq_example :
    sanitize_axios_error (obj (error "x" "a")) ≡ sanitize_axios_error (obj (error "y" "b"))
sanitize_axios_error-eq_example =
    sanitize_axios_error-eq (error "x" "a") (error "y" "b") same_diagnostics
