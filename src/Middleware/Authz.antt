-- ===== src/Middleware/Authz.antt =====
-- middleware/authzCore.ts: the resource that a guard asks about, the access check and its outcome.
-- A request is of any type; a resolver, the check and the minting of a ticket are arguments, each with
-- what it answered or threw.
pub mod Outcomes
mod Tests
use axiam_typescript_sdk.Prelude.{
  ℕ, zero, suc, ◌+◌, ◌-◌, ◌*◌, ◌^◌, ◌≤◌, ◌<◌, min, max, ◌≡◌, ◌≢◌, ◌↔◌, ◌∙◌, ◌⊎◌, inl, inr, refl,
  sym, ap, subst, String, Bool, true, false, not, ◌&&◌, ◌||◌, List, [], ◌∷◌, ◌++◌, map, Option,
  none, some, arith, str_eq, eq_iff, ltb, leb, ◌==◌, if◌then◌else◌, ltb→lt, lt→ltb, leb→le, le→leb,
  ==_iff, Bool-cases, Option-cases, or_else, is_some, length, length-append, All, All-append, any,
  contains,
}
use axiam_typescript_sdk.Prelude.Texts.{is_empty}
use axiam_typescript_sdk.Prelude.Results.{Result, ok, err}
use axiam_typescript_sdk.Json.{Json}
use axiam_typescript_sdk.Core.Errors.{AxiamError, auth, oauth_protocol, authz, network}
use axiam_typescript_sdk.Core.Memo.{AccessDecision}
use axiam_typescript_sdk.Node.Jwks.{Thrown, plain, sdk, value}
use Prim.Native.String

-- The question, with the authenticated user as its subject.
pub record AccessCheck : Type 0 where
  pub action : String
  pub resource_id : String
  pub scope : Option String
  pub subject_id : Json

pub data ResourceSpec (Req : Type 0) : Type 0 where
  literal : String → ResourceSpec Req
  from_param : (name : String) → ResourceSpec Req
  resolver : (Req → Result Thrown String) → ResourceSpec Req

-- `ResourceResolutionError` and what a resolver throws.
pub data Unresolved : Type 0 where
  unresolvable : (label : String) → Unresolved
  thrown : Thrown → Unresolved

-- `if (!resourceId) throw`
resolved : Option String → String → Result Unresolved String
resolved none label = err (unresolvable label)
resolved (some id) label = if is_empty id then err (unresolvable label) else ok id

resolver_answer : Result Thrown String → Result Unresolved String
unfolding resolved
resolver_answer (ok id) = resolved (some id) "resource"
resolver_answer (err e) = err (thrown e)

-- `param` reads the named path parameter of the request.
unfoldable pub resolve_resource_id :
    {Req : Type 0}
    → (Req → String → Option String)
    → ResourceSpec Req
    → Req
    → Result Unresolved String
unfolding resolved resolver_answer
resolve_resource_id param (literal id) req = resolved (some id) "resource"
resolve_resource_id param (from_param name) req =
    resolved (param req name) (String.◌++◌ "route param \"" (String.◌++◌ name "\""))
resolve_resource_id param (resolver f) req = resolver_answer (f req)

-- `mint` answers the exposed ticket for the resource and the action, or fails.
pub record UmaChallenger : Type 0 where
  pub realm : String
  pub as_uri : String
  pub pat : String
  pub mint : String → String → String → Option String

pub data CheckOutcome : Type 0 where
  allowed : CheckOutcome
  denied :
      (message : String) (challenge : Option String) (reason_code : Option String) → CheckOutcome
  unavailable : (message : String) → CheckOutcome

unfoldable pub uma_challenge_header_value : String → String → String → String
uma_challenge_header_value realm as_uri ticket = String.◌++◌ "UMA realm=\"" (
    String.◌++◌ realm (
      String.◌++◌ "\", as_uri=\""
        (String.◌++◌ as_uri (String.◌++◌ "\", ticket=\"" (String.◌++◌ ticket "\"")))))

minted : UmaChallenger → Option String → Option String
unfolding uma_challenge_header_value
minted c none = none
minted c (some ticket) = some (uma_challenge_header_value c.realm c.as_uri ticket)

unfoldable pub deny : String → String → String → Option UmaChallenger → Option String → CheckOutcome
unfolding minted
deny message action resource_id none reason_code = denied message none reason_code
deny message action resource_id (some c) reason_code =
    denied message (minted c (c.mint c.pat resource_id action)) reason_code

-- `check` is `checker.checkAccess`.
outcome_of : Result Thrown AccessDecision → String → String → Option UmaChallenger → CheckOutcome
unfolding deny
outcome_of (ok decision) action resource_id challenger =
    if decision.allowed
    then allowed
    else deny (or_else decision.reason "access denied") action resource_id challenger
        decision.reason_code
outcome_of (err (sdk (authz message a r))) action resource_id challenger =
    deny message action resource_id challenger none
outcome_of (err (sdk (network message cause))) action resource_id challenger = unavailable message
outcome_of (err e) action resource_id challenger = unavailable "authorization service unavailable"

unfoldable pub evaluate_access :
    (AccessCheck → Result Thrown AccessDecision)
    → String
    → String
    → Json
    → Option String
    → Option UmaChallenger
    → CheckOutcome
unfolding outcome_of
evaluate_access check action resource_id subject_id scope challenger =
    outcome_of
      (check (record {
        action = action;
        resource_id = resource_id;
        scope = scope;
        subject_id = subject_id;
      }))
      action resource_id challenger

unfoldable pub has_any_role : List String → List String → Bool
has_any_role identity_roles roles = any (λ role. contains role identity_roles) roles
