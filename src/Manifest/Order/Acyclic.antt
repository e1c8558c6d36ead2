-- ===== src/Manifest/Order/Acyclic.antt =====
-- `topologicalOrder` (management/manifest/plan.ts) answers exactly where an order exists.
use axiam_typescript_sdk.Prelude.{
  ◌≡◌, ◌↔◌, inl, inr, refl, sym, subst, String, true, false, List, [], ◌∷◌, Option, some, arith,
  str_eq, eq_iff, Bool-cases, All, contains,
}
use axiam_typescript_sdk.Manifest.Spec.{ResourceSpec}
use axiam_typescript_sdk.Manifest.Order.{found, parent_of, parents_of, topological_order}
use axiam_typescript_sdk.Manifest.Order.Climb.{IsAncestor, parent, above, Follows, AllDistinct}
use axiam_typescript_sdk.Manifest.Order.Parents.{topological_order-found}
use axiam_typescript_sdk.Manifest.Order.Total.{keys_of, parent_of-keys_of, topological_order-total}

module _ (parents : List (String × Option String)) where
  -- Ancestors of what is seen are seen, and none of it is its own ancestor.
  record IsClosed (seen : List String) : Type 0 where
    upward :
        (k q : String) → contains k seen ≡ true → IsAncestor parents k q → contains q seen ≡ true
    acyclic : (k : String) → contains k seen ≡ true → ¬ IsAncestor parents k k

  first_ancestor :
      (seen : List String) (k q : String)
      → IsClosed seen
      → ((p : String) → parent_of parents k ≡ some p → contains p seen ≡ true)
      → IsAncestor parents k q
      → contains q seen ≡ true
  first_ancestor seen k q c h (parent e) = h q e
  first_ancestor seen k q c h (above {p = p} e a) = c.upward p q (h p e) a

  IsClosed-cons :
      (seen : List String) (k : String)
      → IsClosed seen
      → ((p : String) → parent_of parents k ≡ some p → contains p seen ≡ true)
      → contains k seen ≡ false
      → IsClosed (k ∷ seen)
  IsClosed-cons seen k c h new = record {
    upward = λ j q here a. elim (Bool-cases (str_eq k j)) [
      | inl hit ↦ ground (
        arith,
        first_ancestor seen k q c h
            (subst (λ x. IsAncestor parents x q) (sym ((eq_iff k j).0 hit)) a),
      )
      | inr miss ↦ ground (arith, c.upward j q (ground (arith, miss)) a)
    ];
    acyclic = λ j here a. elim (Bool-cases (str_eq k j)) [
      | inl hit ↦
          let same = sym ((eq_iff k j).0 hit) in
          ground (arith, first_ancestor seen k k c h (subst (λ x. IsAncestor parents x x) same a))
      | inr miss ↦ c.acyclic j (ground (arith, miss)) a
    ];
  }

  Follows-acyclic :
      (seen ks : List String)
      → IsClosed seen
      → AllDistinct ks
      → All (λ k. contains k seen ≡ false) ks
      → Follows parents seen ks
      → (k : String) → contains k ks ≡ true
      → ¬ IsAncestor parents k k
  Follows-acyclic seen [] c d fresh f k h a = cc
  Follows-acyclic seen (x ∷ ks) c (once, d) (new, fresh) (first, rest) k h a =
      let c' = IsClosed-cons seen x c first new in
      elim (Bool-cases (str_eq x k)) [
        | inl hit ↦ c'.acyclic k (ground (arith, hit)) a
        | inr miss ↦
            Follows-acyclic (x ∷ seen) ks c' d (still x ks once fresh) rest k (ground (arith, miss))
              a
      ]
    where
      still :
          (x : String) (ks : List String)
          → contains x ks ≡ false
          → All (λ k. contains k seen ≡ false) ks
          → All (λ k. contains k (x ∷ seen) ≡ false) ks
      still x [] once fresh = tt
      still x (k ∷ ks) once (new, fresh) =
          (ground (arith, eq_iff k x, eq_iff x k), still x ks (ground arith) fresh)

declared_in :
    (rs : List ResourceSpec) (order : List String) (k : String)
    → All (λ r. contains r.key order ≡ true) rs
    → contains k (keys_of rs) ≡ true
    → contains k order ≡ true
declared_in [] order k all h = cc
declared_in (r ∷ rs) order k (here, all) h = elim (Bool-cases (str_eq r.key k)) [
  | inl hit ↦ subst (λ x. contains x order ≡ true) ((eq_iff r.key k).0 hit) here
  | inr miss ↦ declared_in rs order k all (ground (arith, miss))
]

All-fresh : (ks : List String) → All (λ k. contains k [] ≡ false) ks
All-fresh [] = tt
All-fresh (k ∷ ks) = (refl, All-fresh ks)

parent_exists :
    (parents : List (String × Option String)) {k q : String}
    → IsAncestor parents k q
    → (p : String) × (parent_of parents k ≡ some p)
parent_exists parents (parent {p = p} e) = (p, e)
parent_exists parents (above {p = p} e a) = (p, e)

-- An order is answered exactly if no resource is its own ancestor.
pub topological_order_iff :
    (resources : List ResourceSpec)
    → ((order : List String) × (topological_order resources ≡ found order))
      ↔ ((k : String) → ¬ IsAncestor (parents_of resources) k k)
topological_order_iff resources = (
  (λ (order, e) k a.
      let (distinct, follows, all) = topological_order-found resources order e in
      let (p, has) = parent_exists (parents_of resources) a in
      Follows-acyclic (parents_of resources) [] order
        (record { upward = λ j q h. cc; acyclic = λ j h. cc }) distinct (All-fresh order) follows k
        (declared_in resources order k all (parent_of-keys_of resources k p has)) a),
  topological_order-total resources,
)
