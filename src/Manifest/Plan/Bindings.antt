-- ===== src/Manifest/Plan/Bindings.antt =====
-- What `checkRoleBindings` (management/manifest/plan.ts) asks of a manifest's bindings, said of the manifest
-- itself.
use axiam_typescript_sdk.Prelude.{
  ◌≡◌, ◌≢◌, ◌↔◌, ◌⊎◌, ◌∙◌, inl, inr, refl, sym, ap, subst, String, Bool, true, false, List, [], ◌∷◌,
  ◌++◌, map, Option, none, some, arith, str_eq, eq_iff, Bool-cases, All, contains,
}
use axiam_typescript_sdk.Prelude.Dict
use axiam_typescript_sdk.Manifest.Spec.{
  ResourceSpec, RoleSpec, RoleBinding, plain, bound, role_key_of, inherit_of, ManagementManifest,
}
use axiam_typescript_sdk.Manifest.Order.Climb.{AllDistinct}
use axiam_typescript_sdk.Manifest.Plan.{global_roles, declared_of, scope_keys_of, flat_map}
use axiam_typescript_sdk.Manifest.Plan.Checks.{IsBinding, AreBindings}

-- No role of this key is global.
abbrev pub NoneGlobal : String → List RoleSpec → Type 0
NoneGlobal k roles = All (λ r. r.key ≡ k → r.is_global ≡ false) roles

-- A binding names a declared role and, if it is scoped, a declared resource; it states `inherit: false` only
-- if it is scoped and the role is not global.
abbrev pub Binds : ManagementManifest → RoleBinding → Type 0
Binds m (plain role) = contains role (map (λ r. r.key) m.roles) ≡ true
Binds m (bound role resource inherit) =
    (contains role (map (λ r. r.key) m.roles) ≡ true)
    × ((r : String) → resource ≡ some r → contains r (map (λ r. r.key) m.resources) ≡ true)
    × (inherit ≡ some false → NoneGlobal role m.roles × (resource ≢ none))

abbrev pub bound_role : RoleBinding → String
bound_role (plain role) = role
bound_role (bound role resource inherit) = role

-- A subject's bindings: each one is as it should be, and no role is bound twice.
abbrev pub Bind : ManagementManifest → List RoleBinding → Type 0
Bind m bs = All (Binds m) bs × AllDistinct (map bound_role bs)

pub All_iff :
    {A : Type 0} {P Q : A → Type 0} → ((x : A) → P x ↔ Q x) → (xs : List A) → All P xs ↔ All Q xs
All_iff h [] = (λ p. tt, λ p. tt)
All_iff h (x ∷ xs) =
    let (to, of) = h x in
    let (tos, ofs) = All_iff h xs in (λ (p, ps). (to p, tos ps), λ (p, ps). (of p, ofs ps))

bound_role-eq : (bs : List RoleBinding) → map role_key_of bs ≡ map bound_role bs
bound_role-eq [] = refl
bound_role-eq (plain role ∷ bs) = ap (λ ks. role ∷ ks) (bound_role-eq bs)
bound_role-eq (bound role resource inherit ∷ bs) = ap (λ ks. role ∷ ks) (bound_role-eq bs)

-- The keys of all scopes of all resources.
abbrev pub scopes_in : List ResourceSpec → List String
scopes_in [] = []
scopes_in (r ∷ rs) = r.scopes ++ scopes_in rs

pub scope_keys_of-eq : (rs : List ResourceSpec) → scope_keys_of rs ≡ scopes_in rs
unfolding scope_keys_of flat_map
scope_keys_of-eq [] = refl
scope_keys_of-eq (r ∷ rs) = ap (λ ks. r.scopes ++ ks) (scope_keys_of-eq rs)

not_global :
    {seen : Bool} {o : Option Bool} (g : Bool)
    → seen ≡ false
    → o ≡ some g
    → (seen ≡ true) ⊎ (o ≢ some true)
    → g ≡ false
not_global true unseen read (inl e) = cc
not_global true unseen read (inr n) = absurd (n read)
not_global false unseen read side = refl

-- What the map of the global roles answers, of roles with distinct keys.
global_roles_iff :
    (k : String) (known : List (String × Bool)) (roles : List RoleSpec)
    → AllDistinct (map (λ r. r.key) roles)
    → (Dict.get k (global_roles known roles) ≢ some true) ↔ (
        NoneGlobal k roles
        × ((contains k (map (λ r. r.key) roles) ≡ true) ⊎ (Dict.get k known ≢ some true)))
unfolding global_roles
global_roles_iff k known [] distinct =
    (λ h. (tt, inr h), λ h. elim h.1 [ inl e ↦ absurd (cc e) | inr n ↦ n ])
global_roles_iff k known (r ∷ rs) (once, distinct) =
    let (to, of) = global_roles_iff k (Dict.set r.key r.is_global known) rs distinct in
    elim (Bool-cases (str_eq r.key k)) [
      | inl here ↦
          let same : r.key ≡ k = (eq_iff r.key k).0 here in
          let unseen : contains k (map (λ r. r.key) rs) ≡ false =
            subst (λ j. contains j (map (λ r. r.key) rs) ≡ false) same once in
          let read : Dict.get k (Dict.set r.key r.is_global known) ≡ some r.is_global =
            Dict.get-set r.key k r.is_global known ∙ rw here refl in
          (
            λ h.
                let (all, side) = to h in
                ((λ e. not_global r.is_global unseen read side, all), inl (ground (arith, here))),
            λ h. of (h.0.1, inr (λ e. cc (read, e, h.0.0 same))),
          )
      | inr other ↦
          let read : Dict.get k (Dict.set r.key r.is_global known) ≡ Dict.get k known =
            Dict.get-set r.key k r.is_global known ∙ rw other refl in
          (
            λ h.
                let (all, side) = to h in
                (
                  (λ e. cc (other, (eq_iff r.key k).1 e), all),
                  elim side [ inl e ↦ inl (ground (arith, e)) | inr n ↦ inr (λ e. n (read ∙ e)) ],
                ),
            λ h. of (
              h.0.1,
              elim h.1 [
                | inl e ↦ inl (ground (arith, e, other))
                | inr n ↦ inr (λ e. n (sym read ∙ e))
              ],
            ),
          )
    ]

module _ (m : ManagementManifest) (distinct : AllDistinct (map (λ r. r.key) m.roles)) where
  NoneGlobal-iff :
      (k : String) → (Dict.get k (declared_of m).role_is_global ≢ some true) ↔ NoneGlobal k m.roles
  unfolding declared_of
  NoneGlobal-iff k =
      let (to, of) = global_roles_iff k [] m.roles distinct in
      (λ h. (to h).0, λ h. of (h, inr (λ e. cc e)))

  inherit_of_iff :
      (role : String) (resource : Option String) (inherit : Option Bool)
      → (inherit_of (bound role resource inherit) ≡ false) ↔ (inherit ≡ some false)
  inherit_of_iff role resource none = (λ h. cc, λ h. cc)
  inherit_of_iff role resource (some b) = (λ h. ap some h, λ h. cc)

  IsBinding-iff : (b : RoleBinding) → IsBinding (declared_of m) b ↔ Binds m b
  unfolding declared_of
  IsBinding-iff (plain role) =
      (λ v. v.role, λ h. record { role = h; resource = λ r e. cc e; narrowed = λ e. cc e })
  IsBinding-iff (bound role resource inherit) =
      let (to, of) = inherit_of_iff role resource inherit in
      let (global_to, global_of) = NoneGlobal-iff role in
      (
        λ v. (v.role, v.resource, λ e. let (g, r) = v.narrowed (of e) in (global_to g, r)),
        λ (known, scoped, narrow). record {
          role = known;
          resource = scoped;
          narrowed = λ e. let (g, r) = narrow (to e) in (global_of g, r);
        },
      )

  pub AreBindings-iff : (bs : List RoleBinding) → AreBindings (declared_of m) bs ↔ Bind m bs
  AreBindings-iff bs =
      let (to, of) = All_iff IsBinding-iff bs in
      (
        λ (all, once). (to all, subst AllDistinct (bound_role-eq bs) once),
        λ (all, once). (of all, subst AllDistinct (sym (bound_role-eq bs)) once),
      )
