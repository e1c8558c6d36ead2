-- ===== src/Middleware/Express.antt =====
-- middleware/express.ts: the guards of an Express route. A handler is what it does with the response, in
-- order: headers, log entries, and at its end a response or `next()`. `next` does not throw. The
-- challenges are those that the guard has built at its construction.
pub mod Answers
pub mod Route
pub mod Access
mod Tests
use axiam_typescript_sdk.Prelude.{
  ℕ, zero, suc, ◌+◌, ◌-◌, ◌*◌, ◌^◌, ◌≤◌, ◌<◌, min, max, ◌≡◌, ◌≢◌, ◌↔◌, ◌∙◌, ◌⊎◌, inl, inr, refl,
  sym, ap, subst, String, Bool, true, false, not, ◌&&◌, ◌||◌, List, [], ◌∷◌, ◌++◌, map, Option,
  none, some, arith, str_eq, eq_iff, ltb, leb, ◌==◌, if◌then◌else◌, ltb→lt, lt→ltb, leb→le, le→leb,
  ==_iff, Bool-cases, Option-cases, or_else, is_some, length, length-append, All, All-append, any,
  contains,
}
use axiam_typescript_sdk.Prelude.Dict
use axiam_typescript_sdk.Prelude.Results.{Result, ok, err}
use axiam_typescript_sdk.Core.Errors.{AxiamError, auth, oauth_protocol, authz, network, message_of}
use axiam_typescript_sdk.Core.Memo.{AccessDecision}
use axiam_typescript_sdk.Node.Jwks.{Thrown, plain, sdk, value, PresentedProofs}
use axiam_typescript_sdk.Middleware.Credentials.{
  CredentialSource, cookie, header, ExtractedCredential, extract_credential, is_safe_method,
  is_csrf_valid,
}
use axiam_typescript_sdk.Middleware.Verify.{
  PeerSocket, VerifiableSession, AxiamIdentity, certificate_proof_from_socket, authenticate_request,
}
use axiam_typescript_sdk.Middleware.Authz.{
  AccessCheck, ResourceSpec, Unresolved, unresolvable, thrown, UmaChallenger, CheckOutcome, allowed,
  denied, unavailable, resolve_resource_id, evaluate_access, has_any_role,
}
use axiam_typescript_sdk.Middleware.Challenges.{
  McpGuardChallenges, challenge_for_401, challenge_for_403, is_metadata_document_request,
}
use Prim.Native.String

-- `originalUrl ?? url`; `csrf_token` is the first value of the header.
pub record Request : Type 0 where
  pub method : Option String
  pub url : Option String
  pub cookie_header : Option String
  pub authorization : Option String
  pub csrf_token : Option String
  pub socket : Option PeerSocket
  pub params : List (String × String)
  pub axiam_user : Option AxiamIdentity

pub data Effect : Type 0 where
  sets_challenge : (text : String) → Effect
  logs : (message action resource_id : String) → Effect
  responds : (status : ℕ) (error message : String) → Effect
  proceeds : (user : Option AxiamIdentity) → Effect

abbrev pub Handler : Type 0
Handler = Request → List Effect

-- What the guards take from the platform: UTF-8 and the digest of a certificate.
pub record Platform : Type 0 where
  pub utf8 : String → List ℕ
  pub thumbprint : List ℕ → String

-- `if (challenges) res.setHeader(...)`
pub with_challenge : Option String → List Effect → List Effect
with_challenge none rest = rest
with_challenge (some text) rest = sets_challenge text ∷ rest

abbrev no_credential_of : Option McpGuardChallenges → Option String
no_credential_of none = none
no_credential_of (some c) = some c.no_credential

abbrev invalid_token_of : Option McpGuardChallenges → Option String
invalid_token_of none = none
invalid_token_of (some c) = some c.invalid_token

-- The `catch`: an `AuthzError`, an `AuthError` (with its sub-type), anything else.
rejected : Option McpGuardChallenges → Thrown → List Effect
unfolding with_challenge
rejected challenges (sdk (authz message action resource)) =
    responds 403 "authorization_denied" message ∷ []
rejected challenges (sdk (auth message reason)) =
    with_challenge (invalid_token_of challenges) (responds 401 "authentication_failed" message ∷ [])
rejected challenges (sdk (oauth_protocol e d r)) =
    with_challenge (invalid_token_of challenges)
      (responds 401 "authentication_failed" (message_of (oauth_protocol e d r)) ∷ [])
rejected challenges e =
    with_challenge (invalid_token_of challenges)
      (responds 401 "authentication_failed" "invalid or expired token" ∷ [])

authenticated : Option McpGuardChallenges → Result Thrown AxiamIdentity → List Effect
unfolding rejected
authenticated challenges (ok identity) = proceeds (some identity) ∷ []
authenticated challenges (err e) = rejected challenges e

abbrev from_cookie : CredentialSource → Bool
from_cookie cookie = true
from_cookie header = false

-- A credential from a cookie on a method that changes state wants the double submit.
pub needs_csrf : ExtractedCredential → Request → Bool
needs_csrf credential req = from_cookie credential.source && not (is_safe_method req.method)

pub presented : Platform → Request → PresentedProofs
presented platform req = certificate_proof_from_socket platform.thumbprint req.socket

credential_checked :
    Platform
    → VerifiableSession
    → Option McpGuardChallenges
    → Request
    → Option ExtractedCredential
    → List Effect
unfolding authenticated needs_csrf presented with_challenge
credential_checked platform session challenges req none =
    with_challenge (no_credential_of challenges)
      (responds 401 "authentication_failed" "missing authentication credentials" ∷ [])
credential_checked platform session challenges req (some credential) =
    if needs_csrf credential req
      && not (is_csrf_valid platform.utf8 req.cookie_header req.csrf_token)
    then responds 403 "authorization_denied" "csrf validation failed" ∷ []
    else authenticated challenges
        (authenticate_request session credential.token (presented platform req))

-- `axiamMiddleware`, and `requireAuth`, which is the same.
pub axiam_middleware : Platform → VerifiableSession → Option McpGuardChallenges → Handler
unfolding credential_checked
axiam_middleware platform session challenges req =
    if is_metadata_document_request challenges req.method req.url
    then proceeds req.axiam_user ∷ []
    else credential_checked platform session challenges req
        (extract_credential req.cookie_header req.authorization)

abbrev missing_auth : Option McpGuardChallenges → Request → List Effect
missing_auth none req =
    responds 401 "authentication_failed"
      "no authenticated identity on the request — mount axiamMiddleware/axiamPlugin (or requireAuth/requireAuthHook) first"
    ∷ []
missing_auth (some c) req =
    sets_challenge (challenge_for_401 c req.cookie_header req.authorization)
    ∷ responds 401 "authentication_failed"
        "no authenticated identity on the request — mount axiamMiddleware/axiamPlugin (or requireAuth/requireAuthHook) first"
    ∷ []

-- What `requireAccess` is set up with.
pub record AccessGuard : Type 0 where
  pub check_access : AccessCheck → Result Thrown AccessDecision
  pub action : String
  pub resource : ResourceSpec Request
  pub scope : Option String
  pub logger : Bool
  pub uma_challenge : Option UmaChallenger
  pub challenges : Option McpGuardChallenges

-- `opts?.logger?.debug`
logged : Bool → String → String → String → List Effect → List Effect
logged false message action resource_id rest = rest
logged true message action resource_id rest = logs message action resource_id ∷ rest

-- `outcome.challenge ?? challengeFor403(...)`, and an empty text is no challenge.
abbrev first_of : Option String → Option String → Option String
first_of none second = second
first_of (some text) second = some text

concluded : AccessGuard → String → CheckOutcome → Option AxiamIdentity → List Effect
unfolding logged with_challenge
concluded guard resource_id allowed user = proceeds user ∷ []
concluded guard resource_id (denied message challenge reason_code) user =
    logged guard.logger "access denied" guard.action resource_id (
      with_challenge (first_of challenge (challenge_for_403 guard.challenges reason_code))
        (responds 403 "authorization_denied" message ∷ []))
concluded guard resource_id (unavailable message) user =
    logged guard.logger "authz check unavailable" guard.action resource_id
      (responds 503 "authz_unavailable" message ∷ [])

abbrev pub param : Request → String → Option String
param req name = Dict.get name req.params

resource_checked : AccessGuard → AxiamIdentity → Result Unresolved String → List Effect
unfolding concluded
resource_checked guard user (err (unresolvable label)) =
    responds 400 "invalid_request"
      (String.◌++◌ "unable to resolve " (String.◌++◌ label " from request"))
    ∷ []
resource_checked guard user (err (thrown e)) =
    responds 400 "invalid_request" "invalid resource" ∷ []
resource_checked guard user (ok resource_id) =
    concluded guard resource_id
      (evaluate_access guard.check_access guard.action resource_id user.user_id guard.scope
        guard.uma_challenge)
      (some user)

user_checked : AccessGuard → Request → Option AxiamIdentity → List Effect
unfolding resource_checked
user_checked guard req none = missing_auth guard.challenges req
user_checked guard req (some user) =
    resource_checked guard user (resolve_resource_id param guard.resource req)

pub require_access : AccessGuard → Handler
unfolding user_checked
require_access guard req = user_checked guard req req.axiam_user

role_checked :
    Option McpGuardChallenges → List String → Request → Option AxiamIdentity → List Effect
role_checked challenges roles req none = missing_auth challenges req
role_checked challenges roles req (some user) =
    if has_any_role user.roles roles
    then proceeds (some user) ∷ []
    else responds 403 "authorization_denied" "missing required role" ∷ []

pub require_role : Option McpGuardChallenges → List String → Handler
unfolding role_checked
require_role challenges roles req = role_checked challenges roles req req.axiam_user
