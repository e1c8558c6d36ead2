-- ===== src/Manifest/Order/Tests.antt =====
-- `topologicalOrder` (management/manifest/plan.ts) at concrete inputs.
use axiam_typescript_sdk.Prelude.{
  ◌≡◌, ◌↔◌, refl, String, true, List, [], ◌∷◌, none, some, All, contains,
}
use axiam_typescript_sdk.Manifest.Spec.{ResourceSpec}
use axiam_typescript_sdk.Manifest.Order.{found, cyclic, topological_order, parents_of}
use axiam_typescript_sdk.Manifest.Order.Climb.{IsAncestor, AllDistinct, Follows}
use axiam_typescript_sdk.Manifest.Order.Parents.{topological_order-found}
use axiam_typescript_sdk.Manifest.Order.Acyclic.{topological_order_iff}

-- A leaf is declared before its parent and its grandparent.
abbrev tree : List ResourceSpec
tree =
    record { key = "leaf"; parent = some "branch"; scopes = [] }
    ∷ record { key = "branch"; parent = some "root"; scopes = [] }
    ∷ record { key = "root"; parent = none; scopes = [] }
    ∷ []

abbrev loop : List ResourceSpec
loop =
    record { key = "a"; parent = some "b"; scopes = [] }
    ∷ record { key = "b"; parent = some "a"; scopes = [] }
    ∷ []

abbrev creation_order : List String
creation_order = "root" ∷ "branch" ∷ "leaf" ∷ []

ordered : topological_order tree ≡ found creation_order
unfolding topological_order
ordered = refl

looped : topological_order loop ≡ cyclic "a"
unfolding topological_order
looped = refl

topological_order-found_example :
    AllDistinct creation_order
    × Follows (parents_of tree) [] creation_order
    × All (λ r. contains r.key creation_order ≡ true) tree
topological_order-found_example = topological_order-found tree creation_order ordered

topological_order_iff_example :
    ((order : List String) × (topological_order tree ≡ found order))
    ↔ ((k : String) → ¬ IsAncestor (parents_of tree) k k)
topological_order_iff_example = topological_order_iff tree
