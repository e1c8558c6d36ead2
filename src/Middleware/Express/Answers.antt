-- ===== src/Middleware/Express/Answers.antt =====
-- Each guard ends a request once (middleware/express.ts).
use axiam_typescript_sdk.Prelude.{
  ℕ, ◌≡◌, inl, inr, refl, String, Bool, true, false, not, ◌&&◌, ◌||◌, List, [], ◌∷◌, Option, none,
  some, ◌==◌, Bool-cases,
}
use axiam_typescript_sdk.Prelude.Results.{Result, ok, err}
use axiam_typescript_sdk.Core.Errors.{auth, oauth_protocol, authz, network}
use axiam_typescript_sdk.Node.Jwks.{Thrown, plain, sdk, value}
use axiam_typescript_sdk.Middleware.Credentials.{ExtractedCredential, is_csrf_valid}
use axiam_typescript_sdk.Middleware.Verify.{VerifiableSession, AxiamIdentity}
use axiam_typescript_sdk.Middleware.Authz.{
  Unresolved, unresolvable, thrown, CheckOutcome, allowed, denied, unavailable, has_any_role,
}
use axiam_typescript_sdk.Middleware.Challenges.{
  McpGuardChallenges, is_metadata_document_request, challenge_for_403,
}
use axiam_typescript_sdk.Middleware.Express.{
  Request, Effect, sets_challenge, logs, responds, proceeds, Platform, AccessGuard, with_challenge,
  rejected, authenticated, credential_checked, axiam_middleware, missing_auth, logged, concluded,
  resource_checked, user_checked, require_access, role_checked, require_role, needs_csrf, first_of,
  no_credential_of, invalid_token_of,
}

-- At most one challenge, then the end: a refusal by 400, 401, 403 or 503, or the next handler, with no
-- challenge before it.
abbrev pub Ends : (challenged : Bool) → List Effect → Type 0
Ends challenged [] = ⊥
Ends challenged (sets_challenge text ∷ rest) = (challenged ≡ false) × Ends true rest
Ends challenged (logs message action resource_id ∷ rest) = Ends challenged rest
Ends challenged (responds status error message ∷ rest) =
    ((status == 400 || status == 401 || status == 403 || status == 503) ≡ true) × (rest ≡ [])
Ends challenged (proceeds user ∷ rest) = (challenged ≡ false) × (rest ≡ [])

challenge-Ends :
    (o : Option String) (status : ℕ) (error message : String)
    → (status == 400 || status == 401 || status == 403 || status == 503) ≡ true
    → Ends false (with_challenge o (responds status error message ∷ []))
unfolding with_challenge
challenge-Ends none status error message h = (h, refl)
challenge-Ends (some text) status error message h = (refl, (h, refl))

logged-Ends :
    (b : Bool) (m a r : String) (rest : List Effect)
    → Ends false rest
    → Ends false (logged b m a r rest)
unfolding logged
logged-Ends true m a r rest h = h
logged-Ends false m a r rest h = h

rejected-Ends : (c : Option McpGuardChallenges) (e : Thrown) → Ends false (rejected c e)
unfolding rejected
rejected-Ends c (sdk (authz message a r)) = (refl, refl)
rejected-Ends c (sdk (auth message r)) = challenge-Ends (invalid_token_of c) 401 _ _ refl
rejected-Ends c (sdk (oauth_protocol e d r)) = challenge-Ends (invalid_token_of c) 401 _ _ refl
rejected-Ends c (sdk (network message cause)) = challenge-Ends (invalid_token_of c) 401 _ _ refl
rejected-Ends c (plain message code) = challenge-Ends (invalid_token_of c) 401 _ _ refl
rejected-Ends c value = challenge-Ends (invalid_token_of c) 401 _ _ refl

authenticated-Ends :
    (c : Option McpGuardChallenges) (r : Result Thrown AxiamIdentity)
    → Ends false (authenticated c r)
unfolding authenticated
authenticated-Ends c (ok identity) = (refl, refl)
authenticated-Ends c (err e) = rejected-Ends c e

credential_checked-Ends :
    (platform : Platform) (session : VerifiableSession) (c : Option McpGuardChallenges)
    (req : Request) (o : Option ExtractedCredential)
    → Ends false (credential_checked platform session c req o)
unfolding credential_checked
credential_checked-Ends platform session c req none =
    challenge-Ends (no_credential_of c) 401 _ _ refl
credential_checked-Ends platform session c req (some credential) =
    elim (Bool-cases (
      needs_csrf credential req
      && not (is_csrf_valid platform.utf8 req.cookie_header req.csrf_token))) [
        | inl forged ↦ rw forged (refl, refl)
        | inr fine ↦ rw fine (authenticated-Ends c _)
      ]

axiam_middleware-Ends :
    (platform : Platform) (session : VerifiableSession) (c : Option McpGuardChallenges)
    (req : Request)
    → Ends false (axiam_middleware platform session c req)
unfolding axiam_middleware
axiam_middleware-Ends platform session c req =
    elim (Bool-cases (is_metadata_document_request c req.method req.url)) [
      | inl open_ ↦ rw open_ (refl, refl)
      | inr guarded ↦ rw guarded (credential_checked-Ends platform session c req _)
    ]

missing_auth-Ends :
    (c : Option McpGuardChallenges) (req : Request) → Ends false (missing_auth c req)
missing_auth-Ends none req = (refl, refl)
missing_auth-Ends (some c) req = (refl, (refl, refl))

concluded-Ends :
    (guard : AccessGuard) (id : String) (o : CheckOutcome) (user : Option AxiamIdentity)
    → Ends false (concluded guard id o user)
unfolding concluded
concluded-Ends guard id allowed user = (refl, refl)
concluded-Ends guard id (denied message challenge code) user =
    logged-Ends guard.logger _ _ _ _
      (challenge-Ends (first_of challenge (challenge_for_403 guard.challenges code)) 403 _ _ refl)
concluded-Ends guard id (unavailable message) user = logged-Ends guard.logger _ _ _ _ (refl, refl)

resource_checked-Ends :
    (guard : AccessGuard) (user : AxiamIdentity) (r : Result Unresolved String)
    → Ends false (resource_checked guard user r)
unfolding resource_checked
resource_checked-Ends guard user (err (unresolvable label)) = (refl, refl)
resource_checked-Ends guard user (err (thrown e)) = (refl, refl)
resource_checked-Ends guard user (ok id) = concluded-Ends guard id _ _

user_checked-Ends :
    (guard : AccessGuard) (req : Request) (o : Option AxiamIdentity)
    → Ends false (user_checked guard req o)
unfolding user_checked
user_checked-Ends guard req none = missing_auth-Ends guard.challenges req
user_checked-Ends guard req (some user) = resource_checked-Ends guard user _

role_checked-Ends :
    (c : Option McpGuardChallenges) (roles : List String) (req : Request) (o : Option AxiamIdentity)
    → Ends false (role_checked c roles req o)
unfolding role_checked
role_checked-Ends c roles req none = missing_auth-Ends c req
role_checked-Ends c roles req (some user) = elim (Bool-cases (has_any_role user.roles roles)) [
  | inl fits ↦ rw fits (refl, refl)
  | inr lacks ↦ rw lacks (refl, refl)
]

-- Whatever the request, the session and the answers of the verifier, the resolver and the access check,
-- each of the three guards ends the request exactly once: by one response, of status 400, 401, 403 or
-- 503, with at most one challenge before it, or by handing it on with no challenge set.
pub guards-Ends :
    (platform : Platform) (session : VerifiableSession) (c : Option McpGuardChallenges)
    (guard : AccessGuard) (roles : List String) (req : Request)
    → Ends false (axiam_middleware platform session c req)
      × Ends false (require_access guard req)
      × Ends false (require_role c roles req)
unfolding require_access require_role
guards-Ends platform session c guard roles req = (
  axiam_middleware-Ends platform session c req,
  user_checked-Ends guard req req.axiam_user,
  role_checked-Ends c roles req req.axiam_user,
)
