-- ===== src/Middleware/Express/Access.antt =====
-- Which requests a route behind both guards lets through (middleware/express.ts).
use axiam_typescript_sdk.Prelude.{
  ◌≡◌, ◌≢◌, ◌↔◌, ◌∙◌, inl, inr, refl, ap, subst, String, Bool, true, false, List, [], ◌∷◌, Option,
  none, some,
}
use axiam_typescript_sdk.Prelude.Results.{Result, ok, err}
use axiam_typescript_sdk.Json.{Json, str, property}
use axiam_typescript_sdk.Core.Memo.{AccessDecision}
use axiam_typescript_sdk.Node.Jwks.{Jose, verify_access_token, access_options, confirmation}
use axiam_typescript_sdk.Node.Jwks.Access.{verify_access_token_iff}
use axiam_typescript_sdk.Node.Jwks.Binding.{Bound}
use axiam_typescript_sdk.Middleware.Credentials.{
  ExtractedCredential, extract_credential, is_csrf_valid,
}
use axiam_typescript_sdk.Middleware.Verify.{
  VerifiableSession, AxiamIdentity, expectations, is_revoked,
}
use axiam_typescript_sdk.Middleware.Verify.Accepted.{authenticate_request_iff}
use axiam_typescript_sdk.Middleware.Authz.{
  Unresolved, unresolvable, thrown, CheckOutcome, allowed, denied, unavailable, resolve_resource_id,
  evaluate_access,
}
use axiam_typescript_sdk.Middleware.Authz.Outcomes.{asked, evaluate_access_iff}
use axiam_typescript_sdk.Middleware.Challenges.{McpGuardChallenges, challenge_for_403}
use axiam_typescript_sdk.Middleware.Express.{
  Request, Effect, proceeds, Platform, AccessGuard, axiam_middleware, missing_auth, logged,
  concluded, resource_checked, user_checked, require_access, needs_csrf, presented, param, first_of,
}
use axiam_typescript_sdk.Middleware.Express.Route.{
  Lets, challenged-stops, Admitted, axiam_middleware_iff,
}

logged-stops :
    (b : Bool) (m a r : String) (rest : List Effect) (u : Option AxiamIdentity)
    → rest ≢ proceeds u ∷ []
    → logged b m a r rest ≢ proceeds u ∷ []
unfolding logged
logged-stops true m a r rest u other h = cc
logged-stops false m a r rest u other h = other h

concluded_iff :
    (guard : AccessGuard) (id : String) (o : CheckOutcome) (user u : Option AxiamIdentity)
    → Lets (concluded guard id o user) u ↔ ((o ≡ allowed) × (u ≡ user))
unfolding concluded
concluded_iff guard id allowed user u = (λ h. (refl, cc), λ h. rw h.1 refl)
concluded_iff guard id (denied message challenge code) user u = (
  λ h. absurd (
      logged-stops guard.logger _ _ _ _ u
        (challenged-stops (first_of challenge (challenge_for_403 guard.challenges code)) 403 _ _ u)
        h),
  λ h. cc (h.0),
)
concluded_iff guard id (unavailable message) user u =
    (λ h. absurd (logged-stops guard.logger _ _ _ _ u (λ e. cc) h), λ h. cc (h.0))

-- The access check allows the user the action on the resource that the request names.
abbrev pub Allowed : AccessGuard → Request → AxiamIdentity → Type 0
Allowed guard req who =
    (id : String) × (resolve_resource_id param guard.resource req ≡ ok id)
    × (d : AccessDecision) × (guard.check_access (asked guard.action id who.user_id guard.scope)
        ≡ ok d)
    × (d.allowed ≡ true)

resource_checked_iff :
    (guard : AccessGuard) (req : Request) (who : AxiamIdentity) (u : Option AxiamIdentity)
    (r : Result Unresolved String)
    → resolve_resource_id param guard.resource req ≡ r
    → Lets (resource_checked guard who r) u ↔ (Allowed guard req who × (u ≡ some who))
unfolding resource_checked
resource_checked_iff guard req who u (err (unresolvable label)) e = (λ h. cc, λ h. cc (e, h.0.1))
resource_checked_iff guard req who u (err (thrown t)) e = (λ h. cc, λ h. cc (e, h.0.1))
resource_checked_iff guard req who u (ok id) e =
    let outcome =
      evaluate_access guard.check_access guard.action id who.user_id guard.scope
        guard.uma_challenge in
    let known = concluded_iff guard id outcome (some who) u in
    let answer =
      evaluate_access_iff guard.check_access guard.action id who.user_id guard.scope
        guard.uma_challenge in
    (
      λ h.
          let (permitted, same) = known.0 h in
          let (d, checked, yes_) = answer.0 permitted in ((id, e, d, checked, yes_), same),
      λ h.
          let same : h.0.0 ≡ id = cc (e, h.0.1) in
          known.1 (
            answer.1 (
              h.0.2,
              subst
                  (λ i.
                    guard.check_access (asked guard.action i who.user_id guard.scope) ≡ ok h.0.2)
                  same h.0.3,
              h.0.4,
            ),
            h.1,
          ),
    )

missing-stops :
    (c : Option McpGuardChallenges) (req : Request) (u : Option AxiamIdentity)
    → missing_auth c req ≢ proceeds u ∷ []
missing-stops none req u h = cc
missing-stops (some c) req u h = cc

user_checked_iff :
    (guard : AccessGuard) (req : Request) (o u : Option AxiamIdentity)
    → Lets (user_checked guard req o) u
      ↔ ((who : AxiamIdentity) × (o ≡ some who) × Allowed guard req who × (u ≡ some who))
unfolding user_checked
user_checked_iff guard req none u =
    (λ h. absurd (missing-stops guard.challenges req u h), λ h. cc (h.1))
user_checked_iff guard req (some user) u =
    let known = resource_checked_iff guard req user u _ refl in
    (
      λ h. let (permitted, same) = known.0 h in (user, refl, permitted, same),
      λ h.
          let same : h.0 ≡ user = cc (h.1) in
          known.1 (subst (Allowed guard req) same h.2, h.3 ∙ ap some same),
    )

-- `requireAccess` hands a request on exactly if it carries a user, the resource is resolved, and the check
-- allows that user the guard's action on it; it does so with the user that it came with.
pub require_access_iff :
    (guard : AccessGuard) (req : Request) (u : Option AxiamIdentity)
    → Lets (require_access guard req) u ↔ (
        (who : AxiamIdentity) × (req.axiam_user ≡ some who)
        × Allowed guard req who
        × (u ≡ some who))
unfolding require_access
require_access_iff guard req u = user_checked_iff guard req req.axiam_user u

-- What an admitted credential has been through, over the SDK's own verifier.
Admitted-verified :
    (platform : Platform) (jose : Jose) (session : VerifiableSession) (req : Request)
    (o : Option ExtractedCredential) (who : AxiamIdentity)
    → session.verify_access_token ≡ verify_access_token jose
    → Admitted platform session req o who
    → (credential : ExtractedCredential) × (claims : Json) × (o ≡ some credential)
      × (needs_csrf credential req ≡ true
          → is_csrf_valid platform.utf8 req.cookie_header req.csrf_token ≡ true)
      × (jose.jwt_verify credential.token (access_options (expectations session)) ≡ ok claims)
      × (property "tenant_id" claims ≡ some (str session.tenant_header_value))
      × Bound (confirmation claims) (presented platform req)
      × (is_revoked session claims ≡ false)
      × (property "sub" claims ≡ some who.user_id)
Admitted-verified platform jose session req none who own h = absurd h
Admitted-verified platform jose session req (some credential) who own (csrf, known) =
    let (claims, verified, (sub, given, tenant, live, who_is, where_is, roles)) =
      (authenticate_request_iff session credential.token (presented platform req) who).0 known in
    let verified' : verify_access_token jose credential.token (expectations session)
          (presented platform req)
        ≡ ok claims =
      subst (λ v. v credential.token (expectations session) (presented platform req) ≡ ok claims)
        own verified in
    let (accepted, _, tenant', bound) = (verify_access_token_iff jose _ _ _ claims).0 verified' in
    (credential, claims, refl, csrf, accepted, tenant, bound, live, who_is)

-- A request that came with no user passes both guards, over the SDK's own verifier, only if it has a
-- credential, with the double submit where that is needed; `jose` verifies the token under the guard's
-- options to claims that name the configured tenant; what the token is bound to is what the connection
-- presented; its session is not known to be revoked; and the access check allowed the subject of
-- those very claims the action on the resource. The route's handler then gets that subject.
pub protected_route :
    (platform : Platform) (jose : Jose) (session : VerifiableSession)
    (c : Option McpGuardChallenges) (guard : AccessGuard) (req : Request)
    (u v : Option AxiamIdentity)
    → session.verify_access_token ≡ verify_access_token jose
    → req.axiam_user ≡ none
    → Lets (axiam_middleware platform session c req) u
    → Lets (require_access guard (record req { axiam_user = u })) v
    → (credential : ExtractedCredential) × (claims : Json) × (who : AxiamIdentity)
      × (extract_credential req.cookie_header req.authorization ≡ some credential)
      × (needs_csrf credential req ≡ true
          → is_csrf_valid platform.utf8 req.cookie_header req.csrf_token ≡ true)
      × (jose.jwt_verify credential.token (access_options (expectations session)) ≡ ok claims)
      × (property "tenant_id" claims ≡ some (str session.tenant_header_value))
      × Bound (confirmation claims) (presented platform req)
      × (is_revoked session claims ≡ false)
      × (property "sub" claims ≡ some who.user_id)
      × Allowed guard (record req { axiam_user = u }) who
      × (v ≡ some who)
protected_route platform jose session c guard req u v own fresh first second =
    let (who, there, permitted, same) =
      (require_access_iff guard (record req { axiam_user = u }) v).0 second in
    elim ((axiam_middleware_iff platform session c req u).0 first) [
      | inl e ↦ cc (e.1, fresh, there)
      | inr (guarded, who', admitted, same') ↦
          let one : who' ≡ who = cc (same', there) in
          let (credential, claims, found, csrf, accepted, tenant, bound, live, subject) =
            Admitted-verified platform jose session req _ who own
              (subst (Admitted platform session req _) one admitted) in
          (
            credential, claims, who, found, csrf, accepted, tenant, bound, live, subject, permitted,
            same,
          )
    ]
