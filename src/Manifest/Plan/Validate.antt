-- ===== src/Manifest/Plan/Validate.antt =====
-- Which manifests `validate` (management/manifest/plan.ts) lets through.
use axiam_typescript_sdk.Prelude.{◌≡◌, ◌↔◌, refl, sym, ap, subst, String, List, [], map, All}
use axiam_typescript_sdk.Manifest.Spec.{ManagementManifest}
use axiam_typescript_sdk.Manifest.Order.{
  Result, found, cyclic, out_of_fuel, topological_order, parents_of,
}
use axiam_typescript_sdk.Manifest.Order.Climb.{AllDistinct, IsAncestor}
use axiam_typescript_sdk.Manifest.Plan.{
  duplicates, order_problems, scope_keys_of, declared_of, repeated_keys, validate,
}
use axiam_typescript_sdk.Manifest.Plan.Checks.{
  Checks, Checks-append, Checks-flat_map, Checks-repeated, AreBindings, Checks-bindings,
}
use axiam_typescript_sdk.Manifest.Order.Acyclic.{topological_order_iff}
use axiam_typescript_sdk.Manifest.Plan.Parts.{
  Checks-iff, IsDeclared, HasParent, Checks-parent, IsGrant, Checks-role, IsUser, Checks-IsUser,
}
use axiam_typescript_sdk.Manifest.Plan.Bindings.{
  Bind, AreBindings-iff, All_iff, scopes_in, scope_keys_of-eq,
}
use axiam_typescript_sdk.Manifest.Plan.Network.{IsNetwork, Checks-IsNetwork}

-- No key is declared twice, in any of the seven kinds.
pub record HasDistinctKeys (m : ManagementManifest) : Type 0 where
  pub resources : AllDistinct (map (λ r. r.key) m.resources)
  pub scopes : AllDistinct (scopes_in m.resources)
  pub permissions : AllDistinct m.permissions
  pub roles : AllDistinct (map (λ r. r.key) m.roles)
  pub groups : AllDistinct (map (λ g. g.key) m.groups)
  pub users : AllDistinct (map (λ u. u.key) m.users)
  pub service_accounts : AllDistinct (map (λ s. s.key) m.service_accounts)

-- What is let through: every key is declared once; every parent but the empty text, and every permission,
-- scope, role, resource, group and segment that is named, is declared; the bindings are ones that the server can
-- hold; and no resource is its own ancestor.
pub record IsReconcilable (m : ManagementManifest) : Type 0 where
  pub keys : HasDistinctKeys m
  pub network : IsNetwork m.network
  pub parents : All (HasParent (map (λ r. r.key) m.resources)) m.resources
  pub grants : All (λ r. All (IsGrant m.permissions (scopes_in m.resources)) r.grants) m.roles
  pub groups : All (λ g. Bind m g.roles) m.groups
  pub users :
      All (λ u. Bind m u.roles × All (IsDeclared (map (λ g. g.key) m.groups)) u.groups) m.users
  pub service_accounts : All (λ s. Bind m s.roles) m.service_accounts
  pub acyclic : (k : String) → ¬ IsAncestor (parents_of m.resources) k k

Checks-scopes :
    (m : ManagementManifest)
    → Checks (duplicates "scope" (scope_keys_of m.resources)) (AllDistinct (scopes_in m.resources))
unfolding duplicates
Checks-scopes m = rw (scope_keys_of-eq m.resources) (Checks-repeated _ (scopes_in m.resources))

Checks-keys : (m : ManagementManifest) → Checks (repeated_keys m) (HasDistinctKeys m)
unfolding repeated_keys duplicates
Checks-keys m =
    let (f, g) = Checks-append (Checks-repeated _ (map (λ r. r.key) m.resources)) (
      Checks-append (Checks-scopes m) (
        Checks-append (Checks-repeated _ m.permissions) (
          Checks-append (Checks-repeated _ (map (λ r. r.key) m.roles)) (
            Checks-append (Checks-repeated _ (map (λ g. g.key) m.groups)) (
              Checks-append (Checks-repeated _ (map (λ u. u.key) m.users))
                (Checks-repeated _ (map (λ s. s.key) m.service_accounts))))))) in
    (
      (λ e.
          let (resources, (scopes, (permissions, (roles, (groups, (users, service_accounts)))))) =
            f e in
          record {
            resources = resources;
            scopes = scopes;
            permissions = permissions;
            roles = roles;
            groups = groups;
            users = users;
            service_accounts = service_accounts;
          }),
      λ v. g (
        v.resources,
        (v.scopes, (v.permissions, (v.roles, (v.groups, (v.users, v.service_accounts))))),
      ),
    )

order_problems_iff :
    (r : Result (List String))
    → Checks (order_problems r) ((order : List String) × (r ≡ found order))
unfolding order_problems
order_problems_iff (found order) = ((λ e. (order, refl)), λ h. refl)
order_problems_iff (cyclic k) = ((λ e. cc), λ (order, e). cc)
order_problems_iff out_of_fuel = ((λ e. cc), λ (order, e). cc)

-- The checks past those of the keys and of the network, in their order.
Rest : ManagementManifest → Type 0
Rest m =
    All (HasParent (map (λ r. r.key) m.resources)) m.resources
    × (All (λ r. All (IsGrant m.permissions (scope_keys_of m.resources)) r.grants) m.roles
        × (All (λ g. AreBindings (declared_of m) g.roles) m.groups
            × (All (IsUser (declared_of m) (map (λ g. g.key) m.groups)) m.users
                × (All (λ s. AreBindings (declared_of m) s.roles) m.service_accounts
                    × ((k : String) → ¬ IsAncestor (parents_of m.resources) k k)))))

Checks-validate :
    (m : ManagementManifest)
    → Checks (validate m) (HasDistinctKeys m × (IsNetwork m.network × Rest m))
unfolding validate Rest
Checks-validate m = Checks-append (Checks-keys m) (
    Checks-append (Checks-IsNetwork m.network) (
      Checks-append (Checks-flat_map _ _ (Checks-parent (map (λ r. r.key) m.resources)) m.resources)
        (Checks-append
          (Checks-flat_map _ _ (Checks-role m.permissions (scope_keys_of m.resources)) m.roles)
          (Checks-append
            (Checks-flat_map _ (λ g. AreBindings (declared_of m) g.roles)
              (λ g. Checks-bindings (declared_of m) "group" g.key g.roles) m.groups)
            (Checks-append
              (Checks-flat_map _ _ (Checks-IsUser (declared_of m) (map (λ g. g.key) m.groups))
                m.users)
              (Checks-append
                (Checks-flat_map _ (λ s. AreBindings (declared_of m) s.roles)
                  (λ s. Checks-bindings (declared_of m) "service account" s.key s.roles)
                  m.service_accounts)
                (Checks-iff (order_problems_iff (topological_order m.resources))
                  (topological_order_iff m.resources))))))))

module _ (m : ManagementManifest) (distinct : AllDistinct (map (λ r. r.key) m.roles)) where
  groups_iff :
      All (λ g. AreBindings (declared_of m) g.roles) m.groups ↔ All (λ g. Bind m g.roles) m.groups
  groups_iff = All_iff (λ g. AreBindings-iff m distinct g.roles) m.groups

  service_accounts_iff :
      All (λ s. AreBindings (declared_of m) s.roles) m.service_accounts
      ↔ All (λ s. Bind m s.roles) m.service_accounts
  service_accounts_iff = All_iff (λ s. AreBindings-iff m distinct s.roles) m.service_accounts

  users_iff :
      All (IsUser (declared_of m) (map (λ g. g.key) m.groups)) m.users
      ↔ All (λ u. Bind m u.roles × All (IsDeclared (map (λ g. g.key) m.groups)) u.groups) m.users
  users_iff =
      All_iff
        (λ u.
          let (to, of) = AreBindings-iff m distinct u.roles in
          (λ (p, q). (to p, q), λ (p, q). (of p, q)))
        m.users

grants-eq :
    (m : ManagementManifest)
    → All (λ r. All (IsGrant m.permissions (scope_keys_of m.resources)) r.grants) m.roles
      ≡ All (λ r. All (IsGrant m.permissions (scopes_in m.resources)) r.grants) m.roles
grants-eq m =
    ap (λ scopes. All (λ r. All (IsGrant m.permissions scopes) r.grants) m.roles)
      (scope_keys_of-eq m.resources)

-- A manifest is let through exactly if every key is declared once; every name refers to a declared key, but for an
-- empty parent, which counts as none; every role binding is one that the server can hold; the network section
-- is consistent; and no resource is its own ancestor.
pub validate_iff : (m : ManagementManifest) → (validate m ≡ []) ↔ IsReconcilable m
unfolding Rest
validate_iff m =
    let (f, g) = Checks-validate m in
    (
      (λ e.
          let (
            keys,
            (network, (parents, (grants, (groups, (users, (service_accounts, acyclic)))))),
          ) =
            f e in
          record {
            keys = keys;
            network = network;
            parents = parents;
            grants = subst (λ T. T) (grants-eq m) grants;
            groups = (groups_iff m keys.roles).0 groups;
            users = (users_iff m keys.roles).0 users;
            service_accounts = (service_accounts_iff m keys.roles).0 service_accounts;
            acyclic = acyclic;
          }),
      λ v.
          let roles = v.keys.roles in
          g (
            v.keys,
            (
              v.network,
              (
                v.parents,
                (
                  subst (λ T. T) (sym (grants-eq m)) v.grants,
                  (
                    (groups_iff m roles).1 v.groups,
                    (
                      (users_iff m roles).1 v.users,
                      ((service_accounts_iff m roles).1 v.service_accounts, v.acyclic),
                    ),
                  ),
                ),
              ),
            ),
          ),
    )
