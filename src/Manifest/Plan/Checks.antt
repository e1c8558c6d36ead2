-- ===== src/Manifest/Plan/Checks.antt =====
-- When a check of `validate` (management/manifest/plan.ts) reports nothing.
use axiam_typescript_sdk.Prelude.{
  map, ◌≡◌, ◌≢◌, ◌↔◌, inl, inr, refl, String, Bool, true, false, not, ◌&&◌, List, [], ◌∷◌, ◌++◌,
  map, Option, none, some, arith, eq_iff, Bool-cases, is_some, All, contains,
}
use axiam_typescript_sdk.Prelude.Dict
use axiam_typescript_sdk.Manifest.Spec.{RoleBinding, role_key_of, resource_key_of, inherit_of}
use axiam_typescript_sdk.Manifest.Order.Climb.{AllDistinct}
use axiam_typescript_sdk.Manifest.Plan.{
  check_role_bindings_from, check_role_bindings, Problem, flat_map, report, repeated_from, Declared,
  is_undeclared, is_some_true, check_binding, check_role_bindings_from, check_role_bindings,
}

-- The check reports nothing exactly if the condition holds.
abbrev pub Checks : List Problem → Type 0 → Type 0
Checks problems P = (problems ≡ []) ↔ P

pub Checks-append :
    {xs ys : List Problem} {P Q : Type 0} → Checks xs P → Checks ys Q → Checks (xs ++ ys) (P × Q)
Checks-append {xs = []} (f, g) (h, k) = ((λ e. (f refl, h e)), λ (p, q). k q)
Checks-append {xs = x ∷ xs} (f, g) (h, k) = ((λ e. cc), λ (p, q). absurd (cc (g p)))

pub Checks-report : (b : Bool) (p : Problem) → Checks (report b p) (b ≡ false)
Checks-report true p = ((λ e. cc), λ e. cc)
Checks-report false p = ((λ e. refl), λ e. refl)

pub Checks-flat_map :
    {A : Type 0} (f : A → List Problem) (P : A → Type 0)
    → ((x : A) → Checks (f x) (P x))
    → (xs : List A) → Checks (flat_map f xs) (All P xs)
unfolding flat_map
Checks-flat_map f P h [] = ((λ e. tt), λ e. refl)
Checks-flat_map f P h (x ∷ xs) = Checks-append (h x) (Checks-flat_map f P h xs)

-- None of the keys is among those seen.
abbrev pub AllFresh : List String → List String → Type 0
AllFresh seen ks = All (λ k. contains k seen ≡ false) ks

pub AllFresh-cons :
    (k : String) (seen ks : List String)
    → AllFresh (k ∷ seen) ks ↔ ((contains k ks ≡ false) × AllFresh seen ks)
AllFresh-cons k seen [] = ((λ h. (refl, tt)), λ h. tt)
AllFresh-cons k seen (j ∷ ks) =
    let (f, g) = AllFresh-cons k seen ks in
    (
      (λ (a, rest).
          let (c, d) = f rest in (ground (arith, eq_iff k j, eq_iff j k), (ground arith, d))),
      λ (c, (a, rest)). (ground (arith, eq_iff k j, eq_iff j k), g (ground arith, rest)),
    )

pub AllFresh-nil : (ks : List String) → AllFresh [] ks
AllFresh-nil [] = tt
AllFresh-nil (k ∷ ks) = (refl, AllFresh-nil ks)

pub Checks-repeated_from :
    (problem : String → Problem) (seen ks : List String)
    → Checks (repeated_from problem seen ks) (AllFresh seen ks × AllDistinct ks)
unfolding repeated_from
Checks-repeated_from problem seen [] = ((λ e. (tt, tt)), λ e. refl)
Checks-repeated_from problem seen (k ∷ ks) =
    let (f, g) =
      Checks-append (Checks-report (contains k seen) (problem k))
        (Checks-repeated_from problem (k ∷ seen) ks) in
    let (to, of) = AllFresh-cons k seen ks in
    (
      (λ e.
          let (new, (fresh, distinct)) = f e in
          let (once, rest) = to fresh in ((new, rest), (once, distinct))),
      λ ((new, rest), (once, distinct)). g (new, (of (once, rest), distinct)),
    )

-- The code reports a repeated key exactly where a key is repeated.
pub Checks-repeated :
    (problem : String → Problem) (ks : List String)
    → Checks (repeated_from problem [] ks) (AllDistinct ks)
Checks-repeated problem ks =
    let (f, g) = Checks-repeated_from problem [] ks in ((λ e. (f e).1), λ d. g (AllFresh-nil ks, d))

-- A binding names a declared role and, if it is scoped, a declared resource; it is cut off from the
-- descendants only if it is scoped and the role is not global.
pub record IsBinding (declared : Declared) (b : RoleBinding) : Type 0 where
  pub role : contains (role_key_of b) declared.role_keys ≡ true
  pub resource :
      (r : String) → resource_key_of b ≡ some r → contains r declared.resource_keys ≡ true
  pub narrowed :
      inherit_of b ≡ false
      → (Dict.get (role_key_of b) declared.role_is_global ≢ some true) × (resource_key_of b ≢ none)

known_test :
    (keys : List String) (o : Option String)
    → ((r : String) → o ≡ some r → contains r keys ≡ true)
    → is_undeclared keys o ≡ false
known_test keys none h = refl
known_test keys (some k) h = ground (arith, h k refl)

narrowed_tests :
    (i : Bool) (g : Option Bool) (r : Option String)
    → (i ≡ false → (g ≢ some true) × (r ≢ none))
    → ((not i && is_some_true g) ≡ false) × ((not (is_some r) && not i) ≡ false)
narrowed_tests true g none h = (refl, refl)
narrowed_tests true g (some r) h = (refl, refl)
narrowed_tests false g none h = absurd ((h refl).1 refl)
narrowed_tests false none (some r) h = (refl, refl)
narrowed_tests false (some true) (some r) h = absurd ((h refl).0 refl)
narrowed_tests false (some false) (some r) h = (refl, refl)

check_binding-Checks :
    (declared : Declared) (kind subject : String) (seen : List String) (b : RoleBinding)
    → contains (role_key_of b) declared.role_keys ≡ true
    → Checks
        (check_binding declared kind subject seen b)
        ((contains (role_key_of b) seen ≡ false) × IsBinding declared b)
unfolding check_binding
check_binding-Checks declared kind subject seen b role =
    let (f, g) =
      Checks-append (Checks-report (is_undeclared declared.resource_keys (resource_key_of b)) _) (
        Checks-append (Checks-report (contains (role_key_of b) seen) _) (
          Checks-append
            (Checks-report
              (not (inherit_of b)
                && is_some_true (Dict.get (role_key_of b) declared.role_is_global))
              _)
            (Checks-report (not (is_some (resource_key_of b)) && not (inherit_of b)) _))) in
    (
      (λ e.
          let (known, (once, (global, scoped))) = f e in
          (
            once,
            record {
              role = role;
              resource = λ r h. ground arith;
              narrowed = λ h. ((λ h'. ground arith), λ h'. ground arith);
            },
          )),
      λ (once, v).
          let (global, scoped) =
            narrowed_tests (inherit_of b) (Dict.get (role_key_of b) declared.role_is_global)
              (resource_key_of b) v.narrowed in
          g (
            known_test declared.resource_keys (resource_key_of b) v.resource,
            (once, (global, scoped)),
          ),
    )

-- A subject's bindings: each one is as it should be, and no role is bound twice.
abbrev pub AreBindings : Declared → List RoleBinding → Type 0
AreBindings declared bs = All (IsBinding declared) bs × AllDistinct (map role_key_of bs)

Checks-bindings_from :
    (declared : Declared) (kind subject : String) (seen : List String) (bs : List RoleBinding)
    → Checks
        (check_role_bindings_from declared kind subject seen bs)
        (AllFresh seen (map role_key_of bs) × AreBindings declared bs)
unfolding check_role_bindings_from
Checks-bindings_from declared kind subject seen [] = ((λ e. (tt, (tt, tt))), λ e. refl)
Checks-bindings_from declared kind subject seen (b ∷ bs) =
    elim (Bool-cases (contains (role_key_of b) declared.role_keys)) [
      | inl role ↦
          let (f, g) =
            Checks-append (check_binding-Checks declared kind subject seen b role)
              (Checks-bindings_from declared kind subject (role_key_of b ∷ seen) bs) in
          let (to, of) = AllFresh-cons (role_key_of b) seen (map role_key_of bs) in
          rw role (
            (λ e.
                let ((new, v), (fresh, (all, distinct))) = f e in
                let (once, rest) = to fresh in ((new, rest), ((v, all), (once, distinct)))),
            λ ((new, rest), ((v, all), (once, distinct))).
                g ((new, v), (of (once, rest), (all, distinct))),
          )
      | inr unknown ↦ rw unknown ((λ e. cc), λ (_, ((v, _), _)). absurd (ground (arith, v.role)))
    ]

pub Checks-bindings :
    (declared : Declared) (kind subject : String) (bs : List RoleBinding)
    → Checks (check_role_bindings declared kind subject bs) (AreBindings declared bs)
unfolding check_role_bindings
Checks-bindings declared kind subject bs =
    let (f, g) = Checks-bindings_from declared kind subject [] bs in
    ((λ e. (f e).1), λ v. g (AllFresh-nil (map role_key_of bs), v))
