-- ===== src/Manifest/Plan.antt =====
-- management/manifest/plan.ts: `validate`, which refuses a manifest before any request is made.
-- Each problem is a constructor with what its message names.
pub mod Bindings
pub mod Checks
pub mod Parts
pub mod Network
pub mod Validate
mod Tests
use Prim.Native.String
use axiam_typescript_sdk.Prelude.{
  ℕ, zero, suc, ◌+◌, ◌-◌, ◌*◌, ◌^◌, ◌≤◌, ◌<◌, min, max, ◌≡◌, ◌≢◌, ◌↔◌, ◌∙◌, ◌⊎◌, inl, inr, refl,
  sym, ap, subst, String, Bool, true, false, not, ◌&&◌, ◌||◌, List, [], ◌∷◌, ◌++◌, map, Option,
  none, some, arith, str_eq, eq_iff, ltb, leb, ◌==◌, if◌then◌else◌, ltb→lt, lt→ltb, leb→le, le→leb,
  ==_iff, Bool-cases, Option-cases, or_else, is_some, length, length-append, All, All-append, any,
  contains,
}
use axiam_typescript_sdk.Prelude.Dict
use axiam_typescript_sdk.Manifest.Spec.{
  ResourceSpec, GrantSpec, RoleSpec, RoleBinding, role_key_of, resource_key_of, inherit_of,
  GroupSpec, UserSpec, ServiceAccountSpec, NetworkSegmentSpec, Stated, left_out, stated_null,
  states, NetworkProfileSpec, NetworkSpec, ManagementManifest,
}
use axiam_typescript_sdk.Manifest.Order.{Result, found, cyclic, out_of_fuel, topological_order}

pub data Problem : Type 0 where
  declared_twice : (kind key : String) → Problem
  unknown_parent : (resource parent : String) → Problem
  unknown_permission : (role permission : String) → Problem
  unknown_scope : (role scope : String) → Problem
  unknown_role : (kind subject role : String) → Problem
  unknown_resource : (kind subject role resource : String) → Problem
  assigned_twice : (kind subject role : String) → Problem
  global_not_inherited : (kind subject role : String) → Problem
  inherit_without_resource : (kind subject role : String) → Problem
  unknown_group : (user group : String) → Problem
  several_policies : Problem
  segment_twice : (natural : String) → Problem
  filter_twice : (segment filter : String) → Problem
  unknown_segment : (segment : String) → Problem
  profiled_twice : (segment : String) → Problem
  null_termination : (segment : String) → Problem
  has_cycle : (key : String) → Problem
  unordered : Problem

pub flat_map : {A B : Type 0} → (A → List B) → List A → List B
flat_map f [] = []
flat_map f (x ∷ xs) = f x ++ flat_map f xs

abbrev report : Bool → Problem → List Problem
report true p = p ∷ []
report false p = []

-- `problem` is reported for every key that came before it.
pub repeated_from : (String → Problem) → List String → List String → List Problem
repeated_from problem seen [] = []
repeated_from problem seen (k ∷ ks) =
    report (contains k seen) (problem k) ++ repeated_from problem (k ∷ seen) ks

pub duplicates : (kind : String) → List String → List Problem
unfolding repeated_from
duplicates kind keys = repeated_from (declared_twice kind) [] keys

-- An absent parent, or an empty one, names nothing.
names_unknown : List String → Option String → Bool
names_unknown keys none = false
names_unknown keys (some k) = not (str_eq k "") && not (contains k keys)

pub check_parent : List String → ResourceSpec → List Problem
unfolding names_unknown
check_parent keys r =
    report (names_unknown keys r.parent) (unknown_parent r.key (or_else r.parent ""))

check_grant : (permissions scopes : List String) → String → GrantSpec → List Problem
unfolding flat_map
check_grant permissions scopes role grant =
    report (not (contains grant.permission permissions)) (unknown_permission role grant.permission)
    ++ flat_map (λ scope. report (not (contains scope scopes)) (unknown_scope role scope))
        grant.scopes

pub check_role : (permissions scopes : List String) → RoleSpec → List Problem
unfolding flat_map check_grant
check_role permissions scopes role = flat_map (check_grant permissions scopes role.key) role.grants

-- What `checkRoleBindings` closes over.
pub record Declared : Type 0 where
  pub resource_keys : List String
  pub role_keys : List String
  pub role_is_global : List (String × Bool)

abbrev is_some_true : Option Bool → Bool
is_some_true (some b) = b
is_some_true none = false

abbrev is_undeclared : List String → Option String → Bool
is_undeclared keys none = false
is_undeclared keys (some k) = not (contains k keys)

-- The checks of a binding whose role is declared.
check_binding : Declared → (kind subject : String) → List String → RoleBinding → List Problem
check_binding declared kind subject seen b =
    report (is_undeclared declared.resource_keys (resource_key_of b))
      (unknown_resource kind subject (role_key_of b) (or_else (resource_key_of b) ""))
    ++ (report (contains (role_key_of b) seen) (assigned_twice kind subject (role_key_of b))
        ++ (report
              (not (inherit_of b)
                && is_some_true (Dict.get (role_key_of b) declared.role_is_global))
              (global_not_inherited kind subject (role_key_of b))
            ++ report (not (is_some (resource_key_of b)) && not (inherit_of b))
                (inherit_without_resource kind subject (role_key_of b))))

-- A binding of an unknown role is reported and passed over.
pub check_role_bindings_from :
    Declared → (kind subject : String) → List String → List RoleBinding → List Problem
unfolding check_binding
check_role_bindings_from declared kind subject seen [] = []
check_role_bindings_from declared kind subject seen (b ∷ bs) =
    let skipped = check_role_bindings_from declared kind subject seen bs in
    let rest = check_role_bindings_from declared kind subject (role_key_of b ∷ seen) bs in
    if contains (role_key_of b) declared.role_keys
    then check_binding declared kind subject seen b ++ rest
    else unknown_role kind subject (role_key_of b) ∷ skipped

pub check_role_bindings : Declared → (kind subject : String) → List RoleBinding → List Problem
unfolding check_role_bindings_from
check_role_bindings declared kind subject bs = check_role_bindings_from declared kind subject [] bs

pub check_user : Declared → List String → UserSpec → List Problem
unfolding check_role_bindings flat_map
check_user declared group_keys user =
    check_role_bindings declared "user" user.key user.roles
    ++ flat_map (λ g. report (not (contains g group_keys)) (unknown_group user.key g)) user.groups

pub natural_key : NetworkSegmentSpec → String
natural_key s = String.◌++◌ s.site (String.◌++◌ "/" (String.◌++◌ s.kind (String.◌++◌ "/" s.name)))

check_segments_from : List String → List NetworkSegmentSpec → List Problem
unfolding natural_key repeated_from
check_segments_from natural_keys [] = []
check_segments_from natural_keys (s ∷ ss) =
    report (contains (natural_key s) natural_keys) (segment_twice (natural_key s))
    ++ (repeated_from (filter_twice s.key) [] s.filter_ids
        ++ check_segments_from (natural_key s ∷ natural_keys) ss)

is_stated_null : Stated → Bool
is_stated_null stated_null = true
is_stated_null _ = false

check_profiles_from : List String → List String → List NetworkProfileSpec → List Problem
unfolding is_stated_null
check_profiles_from segment_keys profiled [] = []
check_profiles_from segment_keys profiled (p ∷ ps) =
    report (not (contains p.segment segment_keys)) (unknown_segment p.segment)
    ++ (report (contains p.segment profiled) (profiled_twice p.segment)
        ++ (report (is_stated_null p.termination_action) (null_termination p.segment)
            ++ check_profiles_from segment_keys (p.segment ∷ profiled) ps))

pub validate_network : NetworkSpec → List Problem
unfolding duplicates check_segments_from check_profiles_from
validate_network network =
    report network.policy_is_array several_policies
    ++ (duplicates "network segment" (map (λ s. s.key) network.segments)
        ++ (check_segments_from [] network.segments
            ++ check_profiles_from (map (λ s. s.key) network.segments) [] network.profiles))

pub network_problems : Option NetworkSpec → List Problem
unfolding validate_network
network_problems none = []
network_problems (some network) = validate_network network

order_problems : Result (List String) → List Problem
order_problems (found order) = []
order_problems (cyclic k) = has_cycle k ∷ []
order_problems out_of_fuel = unordered ∷ []

pub global_roles : List (String × Bool) → List RoleSpec → List (String × Bool)
global_roles m [] = m
global_roles m (r ∷ rs) = global_roles (Dict.set r.key r.is_global m) rs

pub scope_keys_of : List ResourceSpec → List String
unfolding flat_map
scope_keys_of rs = flat_map (λ r. r.scopes) rs

pub declared_of : ManagementManifest → Declared
unfolding global_roles
declared_of m = record {
  resource_keys = map (λ r. r.key) m.resources;
  role_keys = map (λ r. r.key) m.roles;
  role_is_global = global_roles [] m.roles;
}

-- The keys of the seven kinds.
pub repeated_keys : ManagementManifest → List Problem
unfolding duplicates scope_keys_of
repeated_keys m =
    duplicates "resource" (map (λ r. r.key) m.resources)
    ++ (duplicates "scope" (scope_keys_of m.resources)
        ++ (duplicates "permission" m.permissions
            ++ (duplicates "role" (map (λ r. r.key) m.roles)
                ++ (duplicates "group" (map (λ g. g.key) m.groups)
                    ++ (duplicates "user" (map (λ u. u.key) m.users)
                        ++ duplicates "service account" (map (λ s. s.key) m.service_accounts))))))

-- The problems found: the call throws, with all of them, unless there is none.
pub validate : ManagementManifest → List Problem
unfolding topological_order repeated_keys network_problems check_parent check_role
    check_role_bindings check_user order_problems declared_of flat_map
validate m =
    repeated_keys m
    ++ (network_problems m.network
        ++ (flat_map (check_parent (map (λ r. r.key) m.resources)) m.resources
            ++ (flat_map (check_role m.permissions (scope_keys_of m.resources)) m.roles
                ++ (flat_map (λ g. check_role_bindings (declared_of m) "group" g.key g.roles)
                      m.groups
                    ++ (flat_map (check_user (declared_of m) (map (λ g. g.key) m.groups)) m.users
                        ++ (flat_map
                              (λ s.
                                check_role_bindings (declared_of m) "service account" s.key s.roles)
                              m.service_accounts
                            ++ order_problems (topological_order m.resources)))))))
