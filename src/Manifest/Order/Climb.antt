-- ===== src/Manifest/Order/Climb.antt =====
-- The climb of `topologicalOrder` (management/manifest/plan.ts) to the ancestors of one resource.
use axiam_typescript_sdk.Prelude.{
  ℕ, zero, suc, ◌≡◌, ◌∙◌, inl, inr, refl, sym, subst, String, true, false, ◌||◌, List, [], ◌∷◌,
  ◌++◌, Option, none, some, arith, str_eq, eq_iff, Bool-cases, contains,
}
use axiam_typescript_sdk.Manifest.Order.{found, cyclic, parent_of, climb}

-- Ancestry by the manifest's `parent` fields.
pub data IsAncestor (parents : List (String × Option String)) : String → String → Type 0 where
  parent : {k p : String} → parent_of parents k ≡ some p → IsAncestor parents k p
  above :
      {k p q : String}
      → parent_of parents k ≡ some p
      → IsAncestor parents p q
      → IsAncestor parents k q

-- Every key comes after its parent, where `seen` comes before them all.
abbrev pub Follows : List (String × Option String) → List String → List String → Type 0
Follows parents seen [] = Unit {0}
Follows parents seen (k ∷ ks) =
    ((p : String) → parent_of parents k ≡ some p → contains p seen ≡ true)
    × Follows parents (k ∷ seen) ks

-- No key twice.
abbrev pub AllDistinct : List String → Type 0
AllDistinct [] = Unit {0}
AllDistinct (k ∷ ks) = (contains k ks ≡ false) × AllDistinct ks

pub contains-append :
    (k : String) (xs ys : List String) → contains k (xs ++ ys) ≡ (contains k xs || contains k ys)
contains-append k [] ys = refl
contains-append k (x ∷ xs) ys = ground (arith, contains-append k xs ys)

module _ (parents : List (String × Option String)) where
  -- The cursor is the parent of the chain's first key, and each key the parent of the next.
  abbrev pub Linked : Option String → List String → Type 0
  Linked cursor [] = Unit {0}
  Linked cursor (k ∷ ks) = (parent_of parents k ≡ cursor) × Linked (some k) ks

  IsAncestor-snoc :
      {k p q : String}
      → IsAncestor parents k p
      → parent_of parents p ≡ some q
      → IsAncestor parents k q
  IsAncestor-snoc (parent e) f = above e (parent f)
  IsAncestor-snoc (above e a) f = above e (IsAncestor-snoc a f)

  -- The cursor is an ancestor of every key of the chain.
  Linked-IsAncestor :
      (cursor : String) (chain : List String) (k : String)
      → Linked (some cursor) chain
      → contains k chain ≡ true
      → IsAncestor parents k cursor
  Linked-IsAncestor cursor [] k linked h = cc
  Linked-IsAncestor cursor (x ∷ chain) k (e, linked) h = elim (Bool-cases (str_eq x k)) [
    | inl hit ↦ subst (λ y. IsAncestor parents y cursor) ((eq_iff x k).0 hit) (parent e)
    | inr miss ↦ IsAncestor-snoc (Linked-IsAncestor x chain k linked (ground (arith, miss))) e
  ]

  -- A key that the climb reports is its own ancestor.
  pub climb-cyclic :
      (fuel : ℕ) (order chain : List String) (cursor : Option String) (k : String)
      → Linked cursor chain
      → climb fuel parents order chain cursor ≡ cyclic k
      → IsAncestor parents k k
  unfolding climb
  climb-cyclic fuel order chain none k linked e = cc
  climb-cyclic zero order chain (some c) k linked e = absurd (ground arith)
  climb-cyclic (suc fuel) order chain (some c) k linked e = elim (Bool-cases (contains c order)) [
    | inl placed ↦ absurd (ground arith)
    | inr new ↦ elim (Bool-cases (contains c chain)) [
      | inl met ↦
          let same : c ≡ k = ground arith in
          subst (λ y. IsAncestor parents y y) same (Linked-IsAncestor c chain c linked met)
      | inr unmet ↦
          climb-cyclic fuel order (c ∷ chain) (parent_of parents c) k (refl, linked) (ground arith)
    ]
  ]

  Linked-Follows :
      (seen chain : List String) (cursor : Option String)
      → Linked cursor chain
      → ((p : String) → cursor ≡ some p → contains p seen ≡ true)
      → Follows parents seen chain
  Linked-Follows seen [] cursor linked h = tt
  Linked-Follows seen (k ∷ ks) cursor (e, linked) h = (
    (λ p f. h p (sym e ∙ f)),
    Linked-Follows (k ∷ seen) ks (some k) linked (λ p f. ground (arith, eq_iff k p)),
  )

  -- What the climb finds follows the keys that are placed.
  pub climb-Follows :
      (fuel : ℕ) (order chain : List String) (cursor : Option String) (result : List String)
      → Linked cursor chain
      → climb fuel parents order chain cursor ≡ found result
      → Follows parents order result
  unfolding climb
  climb-Follows fuel order chain none result linked e =
      subst (Follows parents order) (ground arith)
        (Linked-Follows order chain none linked (λ p f. cc))
  climb-Follows zero order chain (some c) result linked e =
      subst (Follows parents order) (ground arith)
        (Linked-Follows order chain (some c) linked (λ p f. ground arith))
  climb-Follows (suc fuel) order chain (some c) result linked e =
      elim (Bool-cases (contains c order)) [
        | inl placed ↦
            subst (Follows parents order) (ground arith)
              (Linked-Follows order chain (some c) linked (λ p f. ground arith))
        | inr new ↦
            climb-Follows fuel order (c ∷ chain) (parent_of parents c) result (refl, linked)
              (ground arith)
      ]

  -- The climb keeps the chain that it has.
  pub climb-contains :
      (fuel : ℕ) (order chain : List String) (cursor : Option String) (result : List String)
      (k : String)
      → climb fuel parents order chain cursor ≡ found result
      → contains k chain ≡ true
      → contains k result ≡ true
  unfolding climb
  climb-contains fuel order chain none result k e h = ground arith
  climb-contains zero order chain (some c) result k e h = ground arith
  climb-contains (suc fuel) order chain (some c) result k e h =
      ground (arith, climb-contains fuel order (c ∷ chain) (parent_of parents c) result k)
