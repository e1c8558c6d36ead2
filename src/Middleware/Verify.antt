-- ===== src/Middleware/Verify.antt =====
-- middleware/verifyCore.ts and middleware/peerCertificate.ts: from a token to the identity that the
-- guards inject. A verifier is an argument, since a consumer may bring its own; the feed is as it
-- stands when `isRevoked` has waited.
pub mod Accepted
mod Tests
use axiam_typescript_sdk.Prelude.{
  ℕ, zero, suc, ◌+◌, ◌-◌, ◌*◌, ◌^◌, ◌≤◌, ◌<◌, min, max, ◌≡◌, ◌≢◌, ◌↔◌, ◌∙◌, ◌⊎◌, inl, inr, refl,
  sym, ap, subst, String, Bool, true, false, not, ◌&&◌, ◌||◌, List, [], ◌∷◌, ◌++◌, map, Option,
  none, some, arith, str_eq, eq_iff, ltb, leb, ◌==◌, if◌then◌else◌, ltb→lt, lt→ltb, leb→le, le→leb,
  ==_iff, Bool-cases, Option-cases, or_else, is_some, length, length-append, All, All-append, any,
  contains,
}
use axiam_typescript_sdk.Prelude.Texts.{is_empty, split_on}
use axiam_typescript_sdk.Prelude.Results.{Result, ok, err, ◌>>=◌, ◌>>◌, ensure}
use axiam_typescript_sdk.Json.{Json, null, str, property, as_string}
use axiam_typescript_sdk.Core.Errors.{AxiamError, auth, message_of}
use axiam_typescript_sdk.Node.Jwks.{
  Thrown, plain, sdk, value, PresentedProofs, AccessTokenExpectations, assert_tenant_claim,
  is_truthy,
}
use axiam_typescript_sdk.Node.Revocation.{RevocationFeed, answer}

-- The socket of a request: `encrypted`, and what `getPeerCertificate` answers, its bytes; `none`
-- where it is missing or throws, or there is no certificate.
pub record PeerSocket : Type 0 where
  pub encrypted : Bool
  pub certificate : Option (List ℕ)

-- `certificateProofFromSocket`; `thumbprint` is `certificateThumbprintS256`.
unfoldable pub certificate_proof_from_socket :
    (List ℕ → String) → Option PeerSocket → PresentedProofs
certificate_proof_from_socket thumbprint none = record {
  certificate_thumbprint = none;
  dpop_thumbprint = none;
}
certificate_proof_from_socket thumbprint (some socket) = record {
  certificate_thumbprint = if not socket.encrypted then none else elim socket.certificate [
    | none ↦ none
    | some raw ↦ if length raw == 0 then none else some (thumbprint raw)
  ];
  dpop_thumbprint = none;
}

-- `entry_for` is the feed's digest of a session id.
pub record VerifiableSession : Type 0 where
  pub verify_access_token : String → AccessTokenExpectations → PresentedProofs → Result Thrown Json
  pub tenant_header_value : String
  pub expected_issuer : Option String
  pub expected_audience : Option String
  pub revocation_feed : Option RevocationFeed
  pub entry_for : String → String

-- The user id is the claim as it stands.
pub record AxiamIdentity : Type 0 where
  pub user_id : Json
  pub tenant_id : String
  pub roles : List String

abbrev pub expectations : VerifiableSession → AccessTokenExpectations
expectations session = record {
  expected_tenant_id = session.tenant_header_value;
  expected_issuer = session.expected_issuer;
  expected_audience = session.expected_audience;
}

-- `err instanceof Error ? err.message : 'invalid or expired token'`
abbrev message_thrown : Thrown → String
message_thrown (plain message code) = message
message_thrown (sdk e) = message_of e
message_thrown value = "invalid or expired token"

rethrown : Result Thrown Json → Result Thrown Json
rethrown (ok claims) = ok claims
rethrown (err e) = err (sdk (auth (message_thrown e) none))

-- A session id is a text that is not empty.
abbrev pub is_revoked : VerifiableSession → Json → Bool
is_revoked session claims = elim session.revocation_feed [
  | none ↦ false
  | some feed ↦ elim (as_string (property "sid" claims)) [
    | none ↦ false
    | some sid ↦ if is_empty sid then false else answer (session.entry_for sid) feed
  ]
]

abbrev non_empty : List String → List String
non_empty [] = []
non_empty (s ∷ ss) = if is_empty s then non_empty ss else s ∷ non_empty ss

-- `(claims.scope ?? '').split(' ').filter(Boolean)`, which throws on a scope that is not a text.
unfoldable pub roles_of : Option Json → Option (List String)
roles_of none = some []
roles_of (some null) = some []
roles_of (some (str s)) = some (non_empty (split_on b' ' s))
roles_of (some _) = none

-- `tenant_id` has passed its assertion, so it is a text.
identity : Json → Result Thrown AxiamIdentity
identity claims = elim (roles_of (property "scope" claims)) [
  | none ↦ err (plain "split is not a function" none)
  | some roles ↦ ok (record {
    user_id = or_else (property "sub" claims) null;
    tenant_id = or_else (as_string (property "tenant_id" claims)) "";
    roles = roles;
  })
]

unfoldable pub authenticate_request :
    VerifiableSession → String → PresentedProofs → Result Thrown AxiamIdentity
unfolding rethrown identity
authenticate_request session token proofs = do
  claims ← rethrown (session.verify_access_token token (expectations session) proofs)
  ensure (is_truthy (property "sub" claims)) (sdk (auth "invalid sub claim" none))
  assert_tenant_claim (property "tenant_id" claims) session.tenant_header_value
  ensure (not (is_revoked session claims))
      (sdk (auth "the session behind this access token has been revoked (CONTRACT.md §10.4)" none))
  identity claims
