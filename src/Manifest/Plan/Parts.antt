-- ===== src/Manifest/Plan/Parts.antt =====
-- When the checks of `validate` (management/manifest/plan.ts) of resources, roles and users report
-- nothing.
use axiam_typescript_sdk.Prelude.{
  ◌≡◌, ◌≢◌, ◌↔◌, inl, inr, refl, String, Bool, true, false, not, List, Option, none, some, arith,
  str_eq, eq_iff, Bool-cases, All, contains,
}
use axiam_typescript_sdk.Manifest.Spec.{ResourceSpec, GrantSpec, RoleSpec, UserSpec}
use axiam_typescript_sdk.Manifest.Plan.{
  Problem, report, Declared, names_unknown, check_parent, check_grant, check_role, check_user,
  unknown_scope, unknown_group,
}
use axiam_typescript_sdk.Manifest.Plan.Checks.{
  Checks, Checks-append, Checks-report, Checks-flat_map, AreBindings, Checks-bindings,
}

pub Checks-iff : {xs : List Problem} {P Q : Type 0} → Checks xs P → P ↔ Q → Checks xs Q
Checks-iff (f, g) (h, k) = ((λ e. h (f e)), λ q. g (k q))

not_iff : (b : Bool) → (not b ≡ false) ↔ (b ≡ true)
not_iff b = ground arith

-- The text is one of the declared keys.
abbrev pub IsDeclared : List String → String → Type 0
IsDeclared keys k = contains k keys ≡ true

pub Checks-IsDeclared :
    (keys : List String) (k : String) (p : Problem)
    → Checks (report (not (contains k keys)) p) (IsDeclared keys k)
Checks-IsDeclared keys k p =
    Checks-iff (Checks-report (not (contains k keys)) p) (not_iff (contains k keys))

-- A parent that is named, and not by the empty text, is declared.
abbrev pub HasParent : List String → ResourceSpec → Type 0
HasParent keys r = (p : String) → r.parent ≡ some p → p ≢ "" → IsDeclared keys p

names_unknown_iff :
    (keys : List String) (o : Option String)
    → (names_unknown keys o ≡ false) ↔ ((p : String) → o ≡ some p → p ≢ "" → IsDeclared keys p)
unfolding names_unknown
names_unknown_iff keys none = ((λ e p h n. cc), λ h. refl)
names_unknown_iff keys (some k) = elim (Bool-cases (str_eq k "")) [
  | inl empty ↦
      ((λ e p h n. absurd (n (ground (arith, (eq_iff k "").0 empty)))), λ h. ground (arith, empty))
  | inr full ↦ (
    (λ e p h n. ground (arith, full)),
    λ h. ground (arith, full, h k refl (λ e. absurd (ground (arith, full, (eq_iff k "").1 e)))),
  )
]

pub Checks-parent :
    (keys : List String) (r : ResourceSpec) → Checks (check_parent keys r) (HasParent keys r)
unfolding check_parent
Checks-parent keys r =
    Checks-iff (Checks-report (names_unknown keys r.parent) _) (names_unknown_iff keys r.parent)

abbrev pub IsGrant : (permissions scopes : List String) → GrantSpec → Type 0
IsGrant permissions scopes g =
    IsDeclared permissions g.permission × All (IsDeclared scopes) g.scopes

Checks-IsGrant :
    (permissions scopes : List String) (role : String) (g : GrantSpec)
    → Checks (check_grant permissions scopes role g) (IsGrant permissions scopes g)
unfolding check_grant
Checks-IsGrant permissions scopes role g =
    Checks-append (Checks-IsDeclared permissions g.permission _) (
      Checks-flat_map _ (IsDeclared scopes) (λ s. Checks-IsDeclared scopes s (unknown_scope role s))
        g.scopes)

pub Checks-role :
    (permissions scopes : List String) (r : RoleSpec)
    → Checks (check_role permissions scopes r) (All (IsGrant permissions scopes) r.grants)
unfolding check_role
Checks-role permissions scopes r =
    Checks-flat_map _ (IsGrant permissions scopes) (Checks-IsGrant permissions scopes r.key)
      r.grants

abbrev pub IsUser : Declared → List String → UserSpec → Type 0
IsUser declared group_keys u = AreBindings declared u.roles × All (IsDeclared group_keys) u.groups

pub Checks-IsUser :
    (declared : Declared) (group_keys : List String) (u : UserSpec)
    → Checks (check_user declared group_keys u) (IsUser declared group_keys u)
unfolding check_user
Checks-IsUser declared group_keys u =
    Checks-append (Checks-bindings declared "user" u.key u.roles) (
      Checks-flat_map _ (IsDeclared group_keys)
        (λ g. Checks-IsDeclared group_keys g (unknown_group u.key g)) u.groups)
