-- ===== src/Middleware/Authz/Tests.antt =====
-- Access checks and their outcomes (middleware/authzCore.ts).
use axiam_typescript_sdk.Prelude.{ℕ, ◌≡◌, ◌↔◌, refl, true, [], ◌∷◌, none}
use axiam_typescript_sdk.Prelude.Results.{ok, err}
use axiam_typescript_sdk.Json.{str}
use axiam_typescript_sdk.Core.Memo.{AccessDecision}
use axiam_typescript_sdk.Middleware.Authz.{
  literal, unresolvable, allowed, unavailable, resolve_resource_id, evaluate_access, has_any_role,
}
use axiam_typescript_sdk.Middleware.Authz.Outcomes.{asked, evaluate_access_iff}
use axiam_typescript_sdk.Middleware.Samples.{check_access}

evaluate_access_iff_example :
    (evaluate_access check_access "documents:read" "d-1" (str "u-1") none none ≡ allowed) ↔ (
      (d : AccessDecision) × (check_access (asked "documents:read" "d-1" (str "u-1") none) ≡ ok d)
      × (d.allowed ≡ true))
evaluate_access_iff_example =
    evaluate_access_iff check_access "documents:read" "d-1" (str "u-1") none none

unreachable :
    evaluate_access check_access "documents:read" "d-2" (str "u-1") none none
    ≡ unavailable "connection refused"
unfolding evaluate_access
unreachable = refl

-- An empty id is refused, wherever it comes from.
empty_literal :
    resolve_resource_id {Req = ℕ} (λ req name. none) (literal "") 0 ≡ err (unresolvable "resource")
unfolding resolve_resource_id
empty_literal = refl

one_role : has_any_role ("reader" ∷ []) ("admin" ∷ "reader" ∷ []) ≡ true
unfolding has_any_role
one_role = refl
