-- ===== src/Middleware/Verify/Tests.antt =====
-- A token that authenticates (middleware/verifyCore.ts).
use axiam_typescript_sdk.Prelude.{◌≡◌, ◌↔◌, refl, false, [], ◌∷◌, none, some}
use axiam_typescript_sdk.Prelude.Results.{ok, err}
use axiam_typescript_sdk.Json.{Json}
use axiam_typescript_sdk.Core.Errors.{auth}
use axiam_typescript_sdk.Node.Jwks.{sdk, PresentedProofs, verify_access_token, assert_tenant_claim}
use axiam_typescript_sdk.Node.Revocation.{answer}
use axiam_typescript_sdk.Middleware.Verify.{
  VerifiableSession, expectations, authenticate_request, certificate_proof_from_socket, roles_of,
}
use axiam_typescript_sdk.Middleware.Verify.Accepted.{StandsFor, authenticate_request_iff}
use axiam_typescript_sdk.Middleware.Samples.{session, identity, feed}

abbrev bare : PresentedProofs
bare = record { certificate_thumbprint = none; dpop_thumbprint = none }

authenticated : authenticate_request session "access" bare ≡ ok identity
unfolding authenticate_request verify_access_token assert_tenant_claim answer roles_of
authenticated = refl

abbrev revoking : VerifiableSession
revoking = record session { revocation_feed = some (record feed { entries = some ("s-2" ∷ []) }) }

revoked :
    authenticate_request revoking "access" bare
    ≡ err (
        sdk (auth "the session behind this access token has been revoked (CONTRACT.md §10.4)" none))
unfolding authenticate_request verify_access_token assert_tenant_claim answer
revoked = refl

authenticate_request_iff_example : (authenticate_request session "access" bare ≡ ok identity) ↔ (
    (claims : Json) × (session.verify_access_token "access" (expectations session) bare ≡ ok claims)
    × StandsFor session claims identity)
authenticate_request_iff_example = authenticate_request_iff session "access" bare identity

-- The bytes of a certificate count only on an encrypted connection.
plain_connection :
    certificate_proof_from_socket
      (λ raw. "thumb")
      (some (record { encrypted = false; certificate = some (1 ∷ []) }))
    ≡ bare
unfolding certificate_proof_from_socket
plain_connection = refl
