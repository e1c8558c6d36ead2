-- ===== src/Middleware/Authz/Outcomes.antt =====
-- What the access check may come to (middleware/authzCore.ts).
use axiam_typescript_sdk.Prelude.{
  ◌≡◌, ◌≢◌, ◌↔◌, inl, inr, refl, String, true, Option, none, some, Bool-cases,
}
use axiam_typescript_sdk.Prelude.Results.{Result, ok, err}
use axiam_typescript_sdk.Json.{Json}
use axiam_typescript_sdk.Core.Errors.{auth, oauth_protocol, authz, network}
use axiam_typescript_sdk.Core.Memo.{AccessDecision}
use axiam_typescript_sdk.Node.Jwks.{Thrown, plain, sdk, value}
use axiam_typescript_sdk.Middleware.Authz.{
  AccessCheck, UmaChallenger, CheckOutcome, allowed, denied, deny, outcome_of, evaluate_access,
}

abbrev pub asked : String → String → Json → Option String → AccessCheck
asked action resource_id subject_id scope = record {
  action = action;
  resource_id = resource_id;
  scope = scope;
  subject_id = subject_id;
}

-- What a refusal is, with the ticket left out: `none` for an allow.
abbrev pub without_ticket : CheckOutcome → CheckOutcome
without_ticket (denied message challenge reason_code) = denied message none reason_code
without_ticket other = other

abbrev Permits : Result Thrown AccessDecision → Type 0
Permits (ok decision) = decision.allowed ≡ true
Permits (err e) = ⊥

deny-ne-allowed :
    (message action resource_id : String) (c : Option UmaChallenger) (code : Option String)
    → deny message action resource_id c code ≢ allowed
unfolding deny
deny-ne-allowed message action resource_id none code h = cc
deny-ne-allowed message action resource_id (some c) code h = cc

outcome_of-allowed :
    (r : Result Thrown AccessDecision) (action resource_id : String) (c : Option UmaChallenger)
    → (outcome_of r action resource_id c ≡ allowed) ↔ Permits r
unfolding outcome_of
outcome_of-allowed (ok decision) action resource_id c = elim (Bool-cases decision.allowed) [
  | inl yes_ ↦ rw yes_ (λ h. refl, λ h. refl)
  | inr no_ ↦ rw no_ (λ h. absurd (deny-ne-allowed _ _ _ c _ h), λ h. cc)
]
outcome_of-allowed (err (sdk (authz message a r))) action resource_id c =
    (λ h. absurd (deny-ne-allowed message action resource_id c none h), λ h. absurd h)
outcome_of-allowed (err (sdk (network message cause))) action resource_id c =
    (λ h. cc, λ h. absurd h)
outcome_of-allowed (err (sdk (auth message reason))) action resource_id c = (λ h. cc, λ h. absurd h)
outcome_of-allowed (err (sdk (oauth_protocol e d r))) action resource_id c =
    (λ h. cc, λ h. absurd h)
outcome_of-allowed (err (plain message code)) action resource_id c = (λ h. cc, λ h. absurd h)
outcome_of-allowed (err value) action resource_id c = (λ h. cc, λ h. absurd h)

Permits-iff :
    (r : Result Thrown AccessDecision)
    → Permits r ↔ ((d : AccessDecision) × (r ≡ ok d) × (d.allowed ≡ true))
Permits-iff (ok d) = (λ h. (d, refl, h), λ h. let same : d ≡ h.0 = cc (h.1) in rw same h.2)
Permits-iff (err e) = (λ h. absurd h, λ h. cc (h.1))

-- Access is allowed exactly if the check of this action, on this resource, for this user and scope came
-- back with a decision that allows it: no error of the check, whichever it is, allows anything.
pub evaluate_access_iff :
    (check : AccessCheck → Result Thrown AccessDecision) (action resource_id : String)
    (subject_id : Json) (scope : Option String) (challenger : Option UmaChallenger)
    → (evaluate_access check action resource_id subject_id scope challenger ≡ allowed) ↔ (
        (d : AccessDecision) × (check (asked action resource_id subject_id scope) ≡ ok d)
        × (d.allowed ≡ true))
unfolding evaluate_access
evaluate_access_iff check action resource_id subject_id scope challenger =
    let answer = check (asked action resource_id subject_id scope) in
    (
      λ h. (Permits-iff answer).0 ((outcome_of-allowed answer action resource_id challenger).0 h),
      λ h. (outcome_of-allowed answer action resource_id challenger).1 ((Permits-iff answer).1 h),
    )

deny-ticket :
    (message action resource_id : String) (c : Option UmaChallenger) (code : Option String)
    → without_ticket (deny message action resource_id c code) ≡ denied message none code
unfolding deny
deny-ticket message action resource_id none code = refl
deny-ticket message action resource_id (some c) code = refl

outcome_of-ticket :
    (r : Result Thrown AccessDecision) (action resource_id : String) (c : Option UmaChallenger)
    → without_ticket (outcome_of r action resource_id c) ≡ outcome_of r action resource_id none
unfolding outcome_of deny
outcome_of-ticket (ok decision) action resource_id c = elim (Bool-cases decision.allowed) [
  | inl yes_ ↦ rw yes_ refl
  | inr no_ ↦ rw no_ (deny-ticket _ _ _ c _)
]
outcome_of-ticket (err (sdk (authz message a r))) action resource_id c =
    deny-ticket message action resource_id c none
outcome_of-ticket (err (sdk (network message cause))) action resource_id c = refl
outcome_of-ticket (err (sdk (auth message reason))) action resource_id c = refl
outcome_of-ticket (err (sdk (oauth_protocol e d r))) action resource_id c = refl
outcome_of-ticket (err (plain message code)) action resource_id c = refl
outcome_of-ticket (err value) action resource_id c = refl

-- The minting of a ticket, whether it works or fails, changes nothing of an outcome but the challenge
-- that a denial carries.
pub evaluate_access-ticket :
    (check : AccessCheck → Result Thrown AccessDecision) (action resource_id : String)
    (subject_id : Json) (scope : Option String) (challenger : Option UmaChallenger)
    → without_ticket (evaluate_access check action resource_id subject_id scope challenger)
      ≡ evaluate_access check action resource_id subject_id scope none
unfolding evaluate_access
evaluate_access-ticket check action resource_id subject_id scope challenger =
    outcome_of-ticket (check (asked action resource_id subject_id scope)) action resource_id
      challenger
