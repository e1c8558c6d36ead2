-- ===== src/Middleware/Express/Tests.antt =====
-- A request through both guards (middleware/express.ts).
use axiam_typescript_sdk.Prelude.{◌≡◌, ◌↔◌, ◌⊎◌, refl, true, false, [], ◌∷◌, Option, none, some}
use axiam_typescript_sdk.Prelude.Results.{ok}
use axiam_typescript_sdk.Json.{Json, str, property}
use axiam_typescript_sdk.Node.Jwks.{
  verify_access_token, access_options, confirmation, assert_tenant_claim,
}
use axiam_typescript_sdk.Node.Jwks.Binding.{Bound}
use axiam_typescript_sdk.Node.Revocation.{answer}
use axiam_typescript_sdk.Middleware.Credentials.{
  ExtractedCredential, extract_credential, parse_cookie_header, is_csrf_valid, is_safe_method,
}
use axiam_typescript_sdk.Middleware.Verify.{
  AxiamIdentity, expectations, is_revoked, authenticate_request, roles_of,
}
use axiam_typescript_sdk.Middleware.Authz.{resolve_resource_id, evaluate_access}
use axiam_typescript_sdk.Middleware.Challenges.{is_metadata_document_request}
use axiam_typescript_sdk.Middleware.Express.{
  responds, logs, axiam_middleware, require_access, require_role, needs_csrf, presented,
}
use axiam_typescript_sdk.Middleware.Express.Answers.{Ends, guards-Ends}
use axiam_typescript_sdk.Middleware.Express.Route.{Lets, Admitted, axiam_middleware_iff}
use axiam_typescript_sdk.Middleware.Express.Access.{Allowed, protected_route}
use axiam_typescript_sdk.Middleware.Samples.{jose, session, identity, platform, req, guard}

first : Lets (axiam_middleware platform session none req) (some identity)
unfolding axiam_middleware is_metadata_document_request extract_credential parse_cookie_header
    needs_csrf is_safe_method is_csrf_valid authenticate_request verify_access_token
    assert_tenant_claim answer roles_of
first = refl

second : Lets (require_access guard (record req { axiam_user = some identity })) (some identity)
unfolding require_access resolve_resource_id evaluate_access
second = refl

forged :
    axiam_middleware platform session none (record req { csrf_token = none })
    ≡ responds 403 "authorization_denied" "csrf validation failed" ∷ []
unfolding axiam_middleware is_metadata_document_request extract_credential parse_cookie_header
    needs_csrf is_safe_method is_csrf_valid
forged = refl

unavailable_check :
    require_access guard (record req { axiam_user = some identity; params = ("id", "d-2") ∷ [] })
    ≡ logs "authz check unavailable" "documents:read" "d-2"
      ∷ responds 503 "authz_unavailable" "connection refused"
      ∷ []
unfolding require_access resolve_resource_id evaluate_access
unavailable_check = refl

guards-Ends_example :
    Ends false (axiam_middleware platform session none req)
    × Ends false (require_access guard req)
    × Ends false (require_role none ("admin" ∷ []) req)
guards-Ends_example = guards-Ends platform session none guard ("admin" ∷ []) req

axiam_middleware_iff_example : Lets (axiam_middleware platform session none req) (some identity) ↔ (
    ((is_metadata_document_request none req.method req.url ≡ true)
      × (◌≡◌ {A = Option AxiamIdentity} (some identity) req.axiam_user))
    ⊎ ((is_metadata_document_request none req.method req.url ≡ false)
        × (who : AxiamIdentity) × Admitted platform session req
            (extract_credential req.cookie_header req.authorization)
            who
        × (◌≡◌ {A = Option AxiamIdentity} (some identity) (some who))))
axiam_middleware_iff_example = axiam_middleware_iff platform session none req (some identity)

protected_route_example :
    (credential : ExtractedCredential) × (claims : Json) × (who : AxiamIdentity)
    × (extract_credential req.cookie_header req.authorization ≡ some credential)
    × (needs_csrf credential req ≡ true
        → is_csrf_valid platform.utf8 req.cookie_header req.csrf_token ≡ true)
    × (jose.jwt_verify credential.token (access_options (expectations session)) ≡ ok claims)
    × (property "tenant_id" claims ≡ some (str session.tenant_header_value))
    × Bound (confirmation claims) (presented platform req)
    × (is_revoked session claims ≡ false)
    × (property "sub" claims ≡ some who.user_id)
    × Allowed guard (record req { axiam_user = some identity }) who
    × (◌≡◌ {A = Option AxiamIdentity} (some identity) (some who))
protected_route_example =
    protected_route platform jose session none guard req (some identity) (some identity) refl refl
      first second
