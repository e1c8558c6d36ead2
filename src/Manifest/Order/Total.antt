-- ===== src/Manifest/Order/Total.antt =====
-- The climb of `topologicalOrder` (management/manifest/plan.ts) ends: its guard can hold no more
-- keys than there are resources.
use axiam_typescript_sdk.Prelude.{
  ℕ, zero, suc, ◌+◌, ◌≤◌, ◌<◌, ◌≡◌, ◌≢◌, ◌∙◌, inl, inr, refl, subst, String, true, false, List, [],
  ◌∷◌, Option, none, some, arith, str_eq, eq_iff, if◌then◌else◌, Bool-cases, length, contains,
}
use axiam_typescript_sdk.Prelude.Dict
use axiam_typescript_sdk.Manifest.Spec.{ResourceSpec}
use axiam_typescript_sdk.Manifest.Order.{
  found, out_of_fuel, parent_of, parents_of, parents_from, climb, place, order_from,
  topological_order,
}
use axiam_typescript_sdk.Manifest.Order.Climb.{IsAncestor, AllDistinct, Linked}
use axiam_typescript_sdk.Manifest.Order.Parents.{Result-cases, topological_order-cyclic}

abbrev remove : String → List String → List String
remove k [] = []
remove k (x ∷ xs) = if str_eq x k then remove k xs else x ∷ remove k xs

contains-remove :
    (j k : String) (xs : List String)
    → contains j xs ≡ true
    → str_eq k j ≡ false
    → contains j (remove k xs) ≡ true
contains-remove j k [] h n = cc
contains-remove j k (x ∷ xs) h n =
    ground (arith, contains-remove j k xs, eq_iff x k, eq_iff x j, eq_iff k j)

length-remove-le : (k : String) (xs : List String) → length (remove k xs) ≤ length xs
length-remove-le k [] = omega arith
length-remove-le k (x ∷ xs) = ground (arith, length-remove-le k xs)

length-remove :
    (k : String) (xs : List String) → contains k xs ≡ true → length (remove k xs) < length xs
length-remove k [] h = cc
length-remove k (x ∷ xs) h = ground (arith, length-remove k xs, length-remove-le k xs)

-- A list without repetitions is no longer than a list that has all its members.
length-AllDistinct :
    (xs ys : List String)
    → AllDistinct xs
    → ((k : String) → contains k xs ≡ true → contains k ys ≡ true)
    → length xs ≤ length ys
length-AllDistinct [] ys d h = omega arith
length-AllDistinct (x ∷ xs) ys (fresh, d) h =
    let here = length-remove x ys (h x (ground (arith, eq_iff x x))) in
    let rest =
      length-AllDistinct xs (remove x ys) d
        (λ k c. contains-remove k x ys (h k (ground arith)) (ground (arith, eq_iff x k))) in
    omega (arith, here, rest)

abbrev pub keys_of : List ResourceSpec → List String
keys_of [] = []
keys_of (r ∷ rs) = r.key ∷ keys_of rs

length-keys_of : (rs : List ResourceSpec) → length (keys_of rs) ≡ length rs
length-keys_of [] = refl
length-keys_of (r ∷ rs) = omega (arith, length-keys_of rs)

get-parents_from :
    (m : List (String × Option String)) (rs : List ResourceSpec) (k : String)
    → contains k (keys_of rs) ≡ false
    → Dict.get k (parents_from m rs) ≡ Dict.get k m
unfolding parents_from
get-parents_from m [] k h = refl
get-parents_from m (r ∷ rs) k h =
    get-parents_from (Dict.set r.key r.parent m) rs k (ground arith)
    ∙ ground (arith, Dict.get-set r.key k r.parent m)

-- Only a declared resource has a parent.
pub parent_of-keys_of :
    (rs : List ResourceSpec) (k p : String)
    → parent_of (parents_of rs) k ≡ some p
    → contains k (keys_of rs) ≡ true
unfolding parents_of
parent_of-keys_of rs k p e = elim (Bool-cases (contains k (keys_of rs))) [
  | inl yes_ ↦ yes_
  | inr no_ ↦ absurd (ground (arith, get-parents_from [] rs k no_))
]

module _ (resources : List ResourceSpec) where
  -- Every key of a chain is declared, as it has a parent.
  Linked-keys_of :
      (c : String) (chain : List String) (k : String)
      → Linked (parents_of resources) (some c) chain
      → contains k chain ≡ true
      → contains k (keys_of resources) ≡ true
  Linked-keys_of c [] k linked h = cc
  Linked-keys_of c (x ∷ chain) k (e, linked) h = elim (Bool-cases (str_eq x k)) [
    | inl hit ↦
        subst (λ y. contains y (keys_of resources) ≡ true) ((eq_iff x k).0 hit)
          (parent_of-keys_of resources x c e)
    | inr miss ↦ Linked-keys_of x chain k linked (ground (arith, miss))
  ]

  climb-ne-out_of_fuel :
      (fuel : ℕ) (order chain : List String) (cursor : Option String)
      → Linked (parents_of resources) cursor chain
      → AllDistinct chain
      → length resources < fuel + length chain
      → climb fuel (parents_of resources) order chain cursor ≢ out_of_fuel
  unfolding climb
  climb-ne-out_of_fuel fuel order chain none linked d enough e = cc
  climb-ne-out_of_fuel zero order chain (some c) linked d enough e = omega (
    arith,
    length-keys_of resources,
    length-AllDistinct chain (keys_of resources) d (λ k h. Linked-keys_of c chain k linked h),
  )
  climb-ne-out_of_fuel (suc fuel) order chain (some c) linked d enough e =
      elim (Bool-cases (contains c order)) [
        | inl placed ↦ ground arith
        | inr new ↦ elim (Bool-cases (contains c chain)) [
          | inl met ↦ ground arith
          | inr unmet ↦
              climb-ne-out_of_fuel fuel order (c ∷ chain) (parent_of (parents_of resources) c)
                (refl, linked) (unmet, d) (omega arith) (ground arith)
        ]
      ]

  order_from-ne-out_of_fuel :
      (order : List String) (rs : List ResourceSpec)
      → order_from (suc (length resources)) (parents_of resources) order rs ≢ out_of_fuel
  unfolding order_from
  order_from-ne-out_of_fuel order [] e = cc
  order_from-ne-out_of_fuel order (r ∷ rs) e =
      elim (Result-cases
        (climb (suc (length resources)) (parents_of resources) order [] (some r.key))) [
          | inl (chain, climbed) ↦
              order_from-ne-out_of_fuel (place order chain) rs (rw (climbed, order_from) at e)
          | inr bad ↦ elim bad [
            | inl (k, failed) ↦ cc (rw (failed, order_from) at e)
            | inr failed ↦
                climb-ne-out_of_fuel (suc (length resources)) order [] (some r.key) tt tt
                  (omega arith) failed
          ]
        ]

  -- Where no resource is its own ancestor there is an order, and it is answered: neither an error nor
  -- the end of the fuel gets in the way.
  pub topological_order-total :
      ((k : String) → ¬ IsAncestor (parents_of resources) k k)
      → (order : List String) × (topological_order resources ≡ found order)
  unfolding topological_order
  topological_order-total acyclic = elim (Result-cases (topological_order resources)) [
    | inl answer ↦ answer
    | inr bad ↦ elim bad [
      | inl (k, e) ↦ absurd (acyclic k (topological_order-cyclic resources k e))
      | inr e ↦ absurd (order_from-ne-out_of_fuel [] resources e)
    ]
  ]
