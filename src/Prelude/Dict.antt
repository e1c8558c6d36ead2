-- ===== src/Prelude/Dict.antt =====
-- A JavaScript `Map` with string keys: an association list in insertion order. A write to a key
-- that is there keeps its place; a new key goes to the end.
use Prim.Native.Nat.{◌+◌, ◌≤◌}
use Prim.Native.String.{String}
use mathlib.Core.Path.{◌≡◌, refl}
use mathlib.Core.Bool.{Bool}
use mathlib.Core.List.{List, [], ◌∷◌, ◌++◌}
use mathlib.Core.Option.{Option, none, some}
use native.Mathlib.Omega.{arith}
use text.Mathlib.Text.{◌==◌}
use text.Mathlib.TextEquality.{eq_iff}
use axiam_typescript_sdk.Prelude.Tests.{if◌then◌else◌}
use axiam_typescript_sdk.Prelude.Lists.{length}

module _ {ℓ} {V : Type ℓ} where
  abbrev pub get : String → List (String × V) → Option V
  get k [] = none
  get k ((j, v) ∷ m) = if j == k then some v else get k m

  abbrev pub set : String → V → List (String × V) → List (String × V)
  set k v [] = (k, v) ∷ []
  set k v ((j, w) ∷ m) = if j == k then (k, v) ∷ m else (j, w) ∷ set k v m

  abbrev pub delete : String → List (String × V) → List (String × V)
  delete k [] = []
  delete k ((j, v) ∷ m) = if j == k then delete k m else (j, v) ∷ delete k m

  -- The entries whose value passes the test.
  abbrev pub keep : (V → Bool) → List (String × V) → List (String × V)
  keep p [] = []
  keep p ((j, v) ∷ m) = if p v then (j, v) ∷ keep p m else keep p m

  pub get-set :
      (k j : String) (v : V) (m : List (String × V))
      → get j (set k v m) ≡ (if k == j then some v else get j m)
  get-set k j v [] = refl
  get-set k j v ((i, w) ∷ m) = ground (arith, eq_iff k j, eq_iff i k, eq_iff i j, get-set k j v m)

  pub get-delete :
      (k j : String) (m : List (String × V))
      → get j (delete k m) ≡ (if k == j then none else get j m)
  get-delete k j [] = ground arith
  get-delete k j ((i, w) ∷ m) = ground (arith, eq_iff k j, eq_iff i k, eq_iff i j, get-delete k j m)

  pub length-delete : (k : String) (m : List (String × V)) → length (delete k m) ≤ length m
  length-delete k [] = omega arith
  length-delete k ((i, w) ∷ m) = ground (arith, length-delete k m)

  pub length-set : (k : String) (v : V) (m : List (String × V)) → length (set k v m) ≤ length m + 1
  length-set k v [] = omega arith
  length-set k v ((i, w) ∷ m) = ground (arith, length-set k v m)

  -- No key stands twice: what every `Map` guarantees.
  abbrev pub Distinct : List (String × V) → Type ℓ
  Distinct [] = Unit
  Distinct ((k, v) ∷ m) = (get k m ≡ none) × Distinct m

  pub delete-Distinct : (k : String) (m : List (String × V)) → Distinct m → Distinct (delete k m)
  delete-Distinct k [] h = tt
  delete-Distinct k ((i, w) ∷ m) (fresh, h) =
      ground (arith, get-delete k i m, delete-Distinct k m h, eq_iff i k)

  pub set-Distinct :
      (k : String) (v : V) (m : List (String × V)) → Distinct m → Distinct (set k v m)
  set-Distinct k v [] h = (refl, tt)
  set-Distinct k v ((i, w) ∷ m) (fresh, h) =
      ground (arith, get-set k i v m, set-Distinct k v m h, eq_iff i k, eq_iff k i)

  -- A key that is not there is added at the end.
  pub set-append :
      (k : String) (v : V) (m : List (String × V)) → get k m ≡ none → set k v m ≡ m ++ (k, v) ∷ []
  set-append k v [] h = refl
  set-append k v ((i, w) ∷ m) h = ground (arith, set-append k v m)

  -- Dropping the oldest entry hides no other one.
  pub get-tail :
      (i k : String) (w v : V) (m : List (String × V))
      → Distinct ((i, w) ∷ m)
      → get k m ≡ some v
      → get k ((i, w) ∷ m) ≡ some v
  get-tail i k w v m (fresh, _) e = ground (arith, eq_iff i k)

  -- Sweeping by a test on the value.
  pub get-keep :
      (p : V → Bool) (k : String) (m : List (String × V))
      → Distinct m
      → get k (keep p m) ≡ elim (get k m) [ none ↦ none | some v ↦ if p v then some v else none ]
  get-keep p k [] h = refl
  get-keep p k ((i, w) ∷ m) (fresh, h) = ground (arith, get-keep p k m h, eq_iff i k)

  pub keep-Distinct : (p : V → Bool) (m : List (String × V)) → Distinct m → Distinct (keep p m)
  keep-Distinct p [] h = tt
  keep-Distinct p ((i, w) ∷ m) (fresh, h) = ground (arith, get-keep p i m h, keep-Distinct p m h)

  pub get-append_new :
      (k : String) (v : V) (m : List (String × V))
      → get k m ≡ none
      → get k (m ++ (k, v) ∷ []) ≡ some v
  get-append_new k v [] h = ground (arith, eq_iff k k)
  get-append_new k v ((i, w) ∷ m) h = ground (arith, get-append_new k v m)
