-- ===== src/Middleware/Express/Route.antt =====
-- Which requests a guarded route lets through (middleware/express.ts).
use axiam_typescript_sdk.Prelude.{
  ℕ, ◌≡◌, ◌≢◌, ◌↔◌, ◌⊎◌, inl, inr, refl, String, true, false, List, [], ◌∷◌, Option, none, some,
  Bool-cases,
}
use axiam_typescript_sdk.Prelude.Results.{Result, ok, err}
use axiam_typescript_sdk.Core.Errors.{auth, oauth_protocol, authz, network}
use axiam_typescript_sdk.Node.Jwks.{Thrown, plain, sdk, value}
use axiam_typescript_sdk.Middleware.Credentials.{
  ExtractedCredential, extract_credential, is_csrf_valid,
}
use axiam_typescript_sdk.Middleware.Verify.{VerifiableSession, AxiamIdentity, authenticate_request}
use axiam_typescript_sdk.Middleware.Challenges.{McpGuardChallenges, is_metadata_document_request}
use axiam_typescript_sdk.Middleware.Express.{
  Request, Effect, responds, proceeds, Platform, with_challenge, rejected, authenticated,
  credential_checked, axiam_middleware, needs_csrf, presented, no_credential_of, invalid_token_of,
}

-- The handler does nothing but hand the request on.
abbrev pub Lets : List Effect → Option AxiamIdentity → Type 0
Lets effects user = effects ≡ proceeds user ∷ []

pub challenged-stops :
    (o : Option String) (status : ℕ) (e m : String) (u : Option AxiamIdentity)
    → with_challenge o (responds status e m ∷ []) ≢ proceeds u ∷ []
unfolding with_challenge
challenged-stops none status e m u h = cc
challenged-stops (some text) status e m u h = cc

rejected-stops :
    (c : Option McpGuardChallenges) (e : Thrown) (u : Option AxiamIdentity)
    → rejected c e ≢ proceeds u ∷ []
unfolding rejected
rejected-stops c (sdk (authz message a r)) u h = cc
rejected-stops c (sdk (auth message r)) u h = challenged-stops (invalid_token_of c) 401 _ _ u h
rejected-stops c (sdk (oauth_protocol e d r)) u h =
    challenged-stops (invalid_token_of c) 401 _ _ u h
rejected-stops c (sdk (network message cause)) u h =
    challenged-stops (invalid_token_of c) 401 _ _ u h
rejected-stops c (plain message code) u h = challenged-stops (invalid_token_of c) 401 _ _ u h
rejected-stops c value u h = challenged-stops (invalid_token_of c) 401 _ _ u h

authenticated_iff :
    (c : Option McpGuardChallenges) (r : Result Thrown AxiamIdentity) (u : Option AxiamIdentity)
    → Lets (authenticated c r) u ↔ ((who : AxiamIdentity) × (r ≡ ok who) × (u ≡ some who))
unfolding authenticated
authenticated_iff c (ok who) u =
    (λ h. (who, refl, cc), λ h. let same : who ≡ h.0 = cc (h.1) in rw (h.2, same) refl)
authenticated_iff c (err e) u = (λ h. absurd (rejected-stops c e u h), λ h. cc (h.1))

-- The request is the user's: a credential that needs no double submit, or has it, and authenticates.
abbrev pub Admitted :
    Platform → VerifiableSession → Request → Option ExtractedCredential → AxiamIdentity → Type 0
Admitted platform session req none who = ⊥
Admitted platform session req (some credential) who =
    (needs_csrf credential req ≡ true
      → is_csrf_valid platform.utf8 req.cookie_header req.csrf_token ≡ true)
    × (authenticate_request session credential.token (presented platform req) ≡ ok who)

credential_checked_iff :
    (platform : Platform) (session : VerifiableSession) (c : Option McpGuardChallenges)
    (req : Request) (o : Option ExtractedCredential) (u : Option AxiamIdentity)
    → Lets (credential_checked platform session c req o) u
      ↔ ((who : AxiamIdentity) × Admitted platform session req o who × (u ≡ some who))
unfolding credential_checked
credential_checked_iff platform session c req none u =
    (λ h. absurd (challenged-stops (no_credential_of c) 401 _ _ u h), λ h. absurd h.1)
credential_checked_iff platform session c req (some credential) u =
    let csrf = is_csrf_valid platform.utf8 req.cookie_header req.csrf_token in
    let known =
      authenticated_iff c (authenticate_request session credential.token (presented platform req))
        u in
    elim (Bool-cases (needs_csrf credential req)) [
      | inr exempt ↦ rw exempt (
        λ h. let (who, admitted, same) = known.0 h in (who, (λ e. cc, admitted), same),
        λ h. known.1 (h.0, h.1.1, h.2),
      )
      | inl needed ↦ elim (Bool-cases csrf) [
        | inl valid ↦
            rw (needed, valid)
              (
                λ h. let (who, admitted, same) = known.0 h in (who, (λ e. refl, admitted), same),
                λ h. known.1 (h.0, h.1.1, h.2),
              )
        | inr forged ↦ rw (needed, forged) (λ h. cc, λ h. cc (h.1.0 refl))
      ]
    ]

-- `axiamMiddleware` hands a request on exactly if it asks for the metadata document, and then with the
-- user it came with, or its credential needs no double submit, or has it, and authenticates, and
-- then with that user.
pub axiam_middleware_iff :
    (platform : Platform) (session : VerifiableSession) (c : Option McpGuardChallenges)
    (req : Request) (u : Option AxiamIdentity)
    → Lets (axiam_middleware platform session c req) u ↔ (
        ((is_metadata_document_request c req.method req.url ≡ true) × (u ≡ req.axiam_user))
        ⊎ ((is_metadata_document_request c req.method req.url ≡ false)
            × (who : AxiamIdentity) × Admitted platform session req
                (extract_credential req.cookie_header req.authorization)
                who
            × (u ≡ some who)))
unfolding axiam_middleware
axiam_middleware_iff platform session c req u =
    let known =
      credential_checked_iff platform session c req
        (extract_credential req.cookie_header req.authorization) u in
    elim (Bool-cases (is_metadata_document_request c req.method req.url)) [
      | inl open_ ↦
          rw open_ (λ h. inl (refl, cc), λ h. elim h [ inl e ↦ rw e.1 refl | inr e ↦ cc (e.0) ])
      | inr guarded ↦ rw guarded (
        λ h. let (who, admitted, same) = known.0 h in inr (refl, who, admitted, same),
        λ h. elim h [ inl e ↦ cc (e.0) | inr e ↦ known.1 (e.1, e.2, e.3) ],
      )
    ]
