-- ===== src/Manifest/Order.antt =====
-- management/manifest/plan.ts: `topologicalOrder`.
-- The climb from a resource to its ancestors runs on fuel.
pub mod Climb
pub mod Parents
pub mod Total
pub mod Acyclic
mod Tests
use axiam_typescript_sdk.Prelude.{
  ℕ, zero, suc, ◌+◌, ◌-◌, ◌*◌, ◌^◌, ◌≤◌, ◌<◌, min, max, ◌≡◌, ◌≢◌, ◌↔◌, ◌∙◌, ◌⊎◌, inl, inr, refl,
  sym, ap, subst, String, Bool, true, false, not, ◌&&◌, ◌||◌, List, [], ◌∷◌, ◌++◌, map, Option,
  none, some, arith, str_eq, eq_iff, ltb, leb, ◌==◌, if◌then◌else◌, ltb→lt, lt→ltb, leb→le, le→leb,
  ==_iff, Bool-cases, Option-cases, or_else, is_some, length, length-append, All, All-append, any,
  contains,
}
use axiam_typescript_sdk.Prelude.Dict
use axiam_typescript_sdk.Manifest.Spec.{ResourceSpec}

pub data Result (A : Type 0) : Type 0 where
  found : A → Result A
  -- The error names the key that the climb met twice.
  cyclic : String → Result A
  out_of_fuel : Result A

pub parents_from : List (String × Option String) → List ResourceSpec → List (String × Option String)
parents_from m [] = m
parents_from m (r ∷ rs) = parents_from (Dict.set r.key r.parent m) rs

-- `new Map(resources.map((r) => [r.key, r.parent]))`
pub parents_of : List ResourceSpec → List (String × Option String)
unfolding parents_from
parents_of rs = parents_from [] rs

-- `parents.get(cursor)`: a key that is not there has no parent.
abbrev pub parent_of : List (String × Option String) → String → Option String
parent_of parents k = elim (Dict.get k parents) [ none ↦ none | some p ↦ p ]

-- The `while` loop. `chain` is the array reversed, the last key first; the guard has the same keys.
-- `order` has the keys that are placed.
pub climb :
    ℕ
    → List (String × Option String)
    → List String
    → List String
    → Option String
    → Result (List String)
climb fuel parents order chain none = found chain
climb zero parents order chain (some cursor) =
    if contains cursor order then found chain else out_of_fuel
climb (suc fuel) parents order chain (some cursor) =
    let rest = climb fuel parents order (cursor ∷ chain) (parent_of parents cursor) in
    if contains cursor order
    then found chain
    else if contains cursor chain
    then cyclic cursor
    else rest

pub place : List String → List String → List String
place order [] = order
place order (k ∷ ks) = if contains k order then place order ks else place (order ++ k ∷ []) ks

abbrev bind : Result (List String) → (List String → Result (List String)) → Result (List String)
bind (found a) f = f a
bind (cyclic k) f = cyclic k
bind out_of_fuel f = out_of_fuel

-- The `for` loop over the resources.
pub order_from :
    ℕ → List (String × Option String) → List String → List ResourceSpec → Result (List String)
unfolding climb place
order_from fuel parents order [] = found order
order_from fuel parents order (r ∷ rs) =
    bind (climb fuel parents order [] (some r.key))
      (λ chain. order_from fuel parents (place order chain) rs)

unfoldable pub topological_order : List ResourceSpec → Result (List String)
unfolding order_from parents_of
topological_order resources =
    order_from (suc (length resources)) (parents_of resources) [] resources
