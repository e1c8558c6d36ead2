-- ===== src/Amqp/Reactor/Registry/Policy.antt =====
-- The default failure policy of a registration (amqp/reactor/registry.ts).
use mathlib.Core.List.{Perm, Permᴰ}
use mathlib.Core.Logic.{∥∥₁_elim}
use mathlib.Core.Path.{ap₂}
use axiam_typescript_sdk.Prelude.{
  ◌≡◌, ◌≢◌, ◌↔◌, ◌∙◌, refl, String, true, List, [], ◌∷◌, arith, if◌then◌else◌, All,
}
use axiam_typescript_sdk.Amqp.Reactor.Registry.{
  FailurePolicy, fail_open, fail_closed, event_spec, defaults_open, policy_of_all,
  default_failure_policy_for,
}

-- The event is in the registry and is fail-open by default.
abbrev pub DefaultsOpen : String → Type 0
DefaultsOpen name = defaults_open (event_spec name) ≡ true

policy_of_all_iff :
    (names : List String) → (policy_of_all names ≡ fail_open) ↔ All DefaultsOpen names
unfolding policy_of_all
policy_of_all_iff [] = ((λ _. tt), (λ _. refl))
policy_of_all_iff (name ∷ names) = (
  (λ e. (ground arith, (policy_of_all_iff names).0 (ground arith))),
  (λ h. ground (arith, (policy_of_all_iff names).1 h.1)),
)

-- A registration is fail-open exactly if it names at least one event and every event that it names
-- is known and fail-open by default.
pub default_failure_policy_for_iff :
    (names : List String)
    → (default_failure_policy_for names ≡ fail_open) ↔ ((names ≢ []) × All DefaultsOpen names)
unfolding default_failure_policy_for
default_failure_policy_for_iff [] = ((λ e. cc), (λ h. absurd (h.0 refl)))
default_failure_policy_for_iff (name ∷ names) = (
  (λ e. ((λ n. cc), (policy_of_all_iff (name ∷ names)).0 e)),
  (λ h. (policy_of_all_iff (name ∷ names)).1 h.1),
)

policy_of_all_swap :
    (a b : String) (l : List String) → policy_of_all (a ∷ b ∷ l) ≡ policy_of_all (b ∷ a ∷ l)
unfolding policy_of_all
policy_of_all_swap a b l = ground arith

policy_of_all-perm_d : {ns ms : List String} → Permᴰ ns ms → policy_of_all ns ≡ policy_of_all ms
unfolding policy_of_all
policy_of_all-perm_d Permᴰ.nil = refl
policy_of_all-perm_d (Permᴰ.cons e d) =
    ap₂ (λ x y. if defaults_open (event_spec x) then y else fail_closed) e (policy_of_all-perm_d d)
policy_of_all-perm_d (Permᴰ.swap {a = a} {b = b} {l = l} e f) =
    policy_of_all_swap a b l ∙ ap₂ (λ x y. policy_of_all (x ∷ y ∷ l)) f e
policy_of_all-perm_d (Permᴰ.trans d d') = policy_of_all-perm_d d ∙ policy_of_all-perm_d d'

default-perm_d :
    {ns ms : List String}
    → Permᴰ ns ms
    → default_failure_policy_for ns ≡ default_failure_policy_for ms
unfolding default_failure_policy_for
default-perm_d Permᴰ.nil = refl
default-perm_d (Permᴰ.cons e d) = policy_of_all-perm_d (Permᴰ.cons e d)
default-perm_d (Permᴰ.swap e f) = policy_of_all-perm_d (Permᴰ.swap e f)
default-perm_d (Permᴰ.trans d d') = default-perm_d d ∙ default-perm_d d'

FailurePolicy-set : IsSet FailurePolicy
FailurePolicy-set = hlevel

-- The order in which a registration names its events does not matter.
pub default_failure_policy_for-perm :
    (ns ms : List String)
    → Perm ns ms
    → default_failure_policy_for ns ≡ default_failure_policy_for ms
default_failure_policy_for-perm ns ms p = ∥∥₁_elim p (FailurePolicy-set _ _) default-perm_d
