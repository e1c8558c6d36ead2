-- ===== src/Manifest/Order/Parents.antt =====
-- The order that `topologicalOrder` (management/manifest/plan.ts) answers.
use axiam_typescript_sdk.Prelude.{
  ℕ, zero, suc, ◌≡◌, ◌∙◌, ◌⊎◌, inl, inr, refl, subst, String, true, false, ◌||◌, List, [], ◌∷◌,
  ◌++◌, Option, some, arith, eq_iff, Bool-cases, length, All, contains,
}
use axiam_typescript_sdk.Manifest.Spec.{ResourceSpec}
use axiam_typescript_sdk.Manifest.Order.{
  Result, found, cyclic, out_of_fuel, parent_of, parents_of, climb, place, order_from,
  topological_order,
}
use axiam_typescript_sdk.Manifest.Order.Climb.{
  IsAncestor, Follows, AllDistinct, contains-append, climb-Follows, climb-contains, climb-cyclic,
}

pub Result-cases :
    (r : Result (List String))
    → ((a : List String) × (r ≡ found a)) ⊎ (((k : String) × (r ≡ cyclic k)) ⊎ (r ≡ out_of_fuel))
Result-cases (found a) = inl (a, refl)
Result-cases (cyclic k) = inr (inl (k, refl))
Result-cases out_of_fuel = inr (inr refl)

AllDistinct-snoc :
    (xs : List String) (k : String)
    → AllDistinct xs
    → contains k xs ≡ false
    → AllDistinct (xs ++ k ∷ [])
AllDistinct-snoc [] k d h = (refl, tt)
AllDistinct-snoc (x ∷ xs) k (fresh, d) h = (
  ground (arith, contains-append x xs (k ∷ []), eq_iff k x, eq_iff x k),
  AllDistinct-snoc xs k d (ground arith),
)

module _ (parents : List (String × Option String)) where
  Follows-mono :
      (seen more ks : List String)
      → ((k : String) → contains k seen ≡ true → contains k more ≡ true)
      → Follows parents seen ks
      → Follows parents more ks
  Follows-mono seen more [] h f = tt
  Follows-mono seen more (k ∷ ks) h (first, rest) = (
    (λ p e. h p (first p e)),
    Follows-mono (k ∷ seen) (k ∷ more) ks (λ j c. ground (arith, h j)) rest,
  )

  Follows-snoc :
      (seen ks : List String) (k : String)
      → Follows parents seen ks
      → ((p : String) → parent_of parents k ≡ some p → (contains p seen || contains p ks) ≡ true)
      → Follows parents seen (ks ++ k ∷ [])
  Follows-snoc seen [] k f h = ((λ p e. ground (arith, h p e)), tt)
  Follows-snoc seen (x ∷ ks) k (first, rest) h =
      (first, Follows-snoc (x ∷ seen) ks k rest (λ p e. ground (arith, h p e)))

  -- What an order is: no key twice, and every key after its parent.
  abbrev IsOrder : List String → Type 0
  IsOrder order = AllDistinct order × Follows parents [] order

  place-IsOrder :
      (order chain : List String)
      → IsOrder order
      → Follows parents order chain
      → IsOrder (place order chain)
  unfolding place
  place-IsOrder order [] o f = o
  place-IsOrder order (k ∷ ks) (d, o) (first, rest) = elim (Bool-cases (contains k order)) [
    | inl placed ↦ rw placed (
        place-IsOrder order ks (d, o)
          (Follows-mono (k ∷ order) order ks (λ j c. ground (arith, eq_iff k j)) rest))
    | inr new ↦ rw new (
        place-IsOrder (order ++ k ∷ []) ks
          (
            AllDistinct-snoc order k d new,
            Follows-snoc [] order k o (λ p e. ground (arith, first p e)),
          )
          (Follows-mono (k ∷ order) (order ++ k ∷ []) ks
            (λ j c. ground (arith, contains-append j order (k ∷ []))) rest))
  ]

  place-contains :
      (order chain : List String) (j : String)
      → (contains j order || contains j chain) ≡ true
      → contains j (place order chain) ≡ true
  unfolding place
  place-contains order [] j h = ground arith
  place-contains order (k ∷ ks) j h = ground (
    arith,
    contains-append j order (k ∷ []),
    place-contains order ks j,
    place-contains (order ++ k ∷ []) ks j,
    eq_iff k j,
  )

  climb-start :
      (fuel : ℕ) (order : List String) (c : String) (chain : List String)
      → climb fuel parents order [] (some c) ≡ found chain
      → (contains c order || contains c chain) ≡ true
  unfolding climb
  climb-start zero order c chain e = ground arith
  climb-start (suc fuel) order c chain e =
      ground (
        arith,
        climb-contains parents fuel order (c ∷ []) (parent_of parents c) chain c,
        eq_iff c c,
      )

  place_step :
      (fuel : ℕ) (order : List String) (c : String) (chain : List String)
      → IsOrder order
      → climb fuel parents order [] (some c) ≡ found chain
      → IsOrder (place order chain)
        × (contains c (place order chain) ≡ true)
        × ((j : String) → contains j order ≡ true → contains j (place order chain) ≡ true)
  place_step fuel order c chain o e = (
    place-IsOrder order chain o (climb-Follows parents fuel order [] (some c) chain tt e),
    place-contains order chain c (climb-start fuel order c chain e),
    (λ j h. place-contains order chain j (ground arith)),
  )

  order_from-IsOrder :
      (fuel : ℕ) (order : List String) (rs : List ResourceSpec) (result : List String)
      → IsOrder order
      → order_from fuel parents order rs ≡ found result
      → IsOrder result
        × ((j : String) → contains j order ≡ true → contains j result ≡ true)
        × All (λ r. contains r.key result ≡ true) rs
  unfolding order_from
  order_from-IsOrder fuel order [] result o e =
      let same : order ≡ result = cc e in (subst IsOrder same o, (λ j h. rw (← same) h), tt)
  order_from-IsOrder fuel order (r ∷ rs) result o e =
      elim (Result-cases (climb fuel parents order [] (some r.key))) [
        | inl (chain, climbed) ↦
            let (o', here, kept) = place_step fuel order r.key chain o climbed in
            let (final, grown, all) =
              order_from-IsOrder fuel (place order chain) rs result o'
                (rw (climbed, order_from) at e) in
            (final, (λ j h. grown j (kept j h)), (grown r.key here, all))
        | inr bad ↦ elim bad [
          | inl (k, failed) ↦ absurd (cc (rw (failed, order_from) at e))
          | inr failed ↦ absurd (cc (rw (failed, order_from) at e))
        ]
      ]

  order_from-cyclic :
      (fuel : ℕ) (order : List String) (rs : List ResourceSpec) (k : String)
      → order_from fuel parents order rs ≡ cyclic k
      → IsAncestor parents k k
  unfolding order_from
  order_from-cyclic fuel order [] k e = cc
  order_from-cyclic fuel order (r ∷ rs) k e =
      elim (Result-cases (climb fuel parents order [] (some r.key))) [
        | inl (chain, climbed) ↦
            order_from-cyclic fuel (place order chain) rs k (rw (climbed, order_from) at e)
        | inr bad ↦ elim bad [
          | inl (j, failed) ↦
              climb-cyclic parents fuel order [] (some r.key) k tt
                (failed ∙ rw (failed, order_from) at e)
          | inr failed ↦ absurd (cc (rw (failed, order_from) at e))
        ]
      ]

-- An order that is answered has every declared resource, no key twice, and every key after its
-- parent.
pub topological_order-found :
    (resources : List ResourceSpec) (order : List String)
    → topological_order resources ≡ found order
    → AllDistinct order
      × Follows (parents_of resources) [] order
      × All (λ r. contains r.key order ≡ true) resources
unfolding topological_order
topological_order-found resources order e =
    let ((distinct, follows), _, all) =
      order_from-IsOrder (parents_of resources) (suc (length resources)) [] resources order (tt, tt)
        e in
    (distinct, follows, all)

-- The key that the error names is its own ancestor.
pub topological_order-cyclic :
    (resources : List ResourceSpec) (k : String)
    → topological_order resources ≡ cyclic k
    → IsAncestor (parents_of resources) k k
unfolding topological_order
topological_order-cyclic resources k e =
    order_from-cyclic (parents_of resources) (suc (length resources)) [] resources k e
