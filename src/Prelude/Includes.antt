-- ===== src/Prelude/Includes.antt =====
-- Where one text stands in another (`includes`).
use Prim.Native.Char.{code}
use Prim.Native.String.{String}
use Prim.Native.String
use Prim.Native.String.append
use mathlib.Core.Path.{◌≡◌, ◌∙◌, refl, sym, ap, ap₂}
use mathlib.Core.Bool.{Bool, true, false, ◌&&◌, ◌||◌}
use mathlib.Core.Logic.{◌↔◌, inl, inr}
use native.Mathlib.Omega.{arith}
use text.Mathlib.TextEquality.{Char-path}
use axiam_typescript_sdk.Prelude.Tests.{◌==◌, ==_iff, Bool-cases}

-- The first text begins with the second; and it has the second somewhere (`includes`).
abbrev pub begins_with : String → String → Bool
begins_with s String.[] = true
begins_with String.[] (String.◌∷◌ d t) = false
begins_with (String.◌∷◌ c s) (String.◌∷◌ d t) = code c == code d && begins_with s t

abbrev pub includes : String → String → Bool
includes String.[] t = begins_with String.[] t
includes (String.◌∷◌ c s) t = begins_with (String.◌∷◌ c s) t || includes s t

abbrev pub IsPrefix : String → String → Type 0
IsPrefix t s = (v : String) × (s ≡ String.◌++◌ t v)

abbrev pub IsInside : String → String → Type 0
IsInside t s = (u : String) × (v : String) × (s ≡ String.◌++◌ u (String.◌++◌ t v))

begins_with-IsPrefix : (s t : String) → begins_with s t ≡ true → IsPrefix t s
begins_with-IsPrefix s String.[] h = (s, sym (append.nil s))
begins_with-IsPrefix String.[] (String.◌∷◌ d t) h = cc
begins_with-IsPrefix (String.◌∷◌ c s) (String.◌∷◌ d t) h =
    let (v, e) = begins_with-IsPrefix s t (ground arith) in
    let same : c ≡ d = Char-path c d ((==_iff (code c) (code d)).0 (ground arith)) in
    (v, ap₂ (λ x y. String.◌∷◌ x y) same e ∙ sym (append.cons d t v))

IsPrefix-begins_with : (s t v : String) → s ≡ String.◌++◌ t v → begins_with s t ≡ true
IsPrefix-begins_with s String.[] v e = refl
IsPrefix-begins_with String.[] (String.◌∷◌ d t) v e = cc (append.cons d t v)
IsPrefix-begins_with (String.◌∷◌ c s) (String.◌∷◌ d t) v e =
    let whole : String.◌∷◌ c s ≡ String.◌∷◌ d (String.◌++◌ t v) = e ∙ append.cons d t v in
    let same : c ≡ d = cc in
    ground (arith, (==_iff (code c) (code d)).1 (ap code same), IsPrefix-begins_with s t v (cc))

pub begins_with_iff : (s t : String) → (begins_with s t ≡ true) ↔ IsPrefix t s
begins_with_iff s t = (begins_with-IsPrefix s t, λ (v, e). IsPrefix-begins_with s t v e)

pub prefix-IsInside : (s t : String) → IsPrefix t s → IsInside t s
prefix-IsInside s t (v, e) = ("", v, e ∙ sym (append.nil (String.◌++◌ t v)))

includes-IsInside : (s t : String) → includes s t ≡ true → IsInside t s
includes-IsInside String.[] t h = prefix-IsInside "" t (begins_with-IsPrefix "" t h)
includes-IsInside (String.◌∷◌ c s) t h = elim (Bool-cases (begins_with (String.◌∷◌ c s) t)) [
  | inl here ↦ prefix-IsInside _ t (begins_with-IsPrefix (String.◌∷◌ c s) t here)
  | inr further ↦
      let (u, v, e) = includes-IsInside s t (ground (arith, h, further)) in
      (String.◌∷◌ c u, v, ap (λ x. String.◌∷◌ c x) e ∙ sym (append.cons c u (String.◌++◌ t v)))
]

IsInside-includes : (u s t v : String) → s ≡ String.◌++◌ u (String.◌++◌ t v) → includes s t ≡ true
IsInside-includes String.[] String.[] t v e =
    IsPrefix-begins_with "" t v (e ∙ append.nil (String.◌++◌ t v))
IsInside-includes String.[] (String.◌∷◌ c s) t v e =
    ground (arith, IsPrefix-begins_with (String.◌∷◌ c s) t v (e ∙ append.nil (String.◌++◌ t v)))
IsInside-includes (String.◌∷◌ d u) String.[] t v e = cc (append.cons d u (String.◌++◌ t v))
IsInside-includes (String.◌∷◌ d u) (String.◌∷◌ c s) t v e =
    let whole : String.◌∷◌ c s ≡ String.◌∷◌ d (String.◌++◌ u (String.◌++◌ t v)) =
      e ∙ append.cons d u (String.◌++◌ t v) in
    ground (arith, IsInside-includes u s t v (cc))

pub includes_iff : (s t : String) → (includes s t ≡ true) ↔ IsInside t s
includes_iff s t = (includes-IsInside s t, λ (u, v, e). IsInside-includes u s t v e)
