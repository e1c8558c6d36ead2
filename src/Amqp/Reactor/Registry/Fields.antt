-- ===== src/Amqp/Reactor/Registry/Fields.antt =====
-- Which patch fields an event admits (amqp/reactor/registry.ts).
use Prim.Native.String
use mathlib.Core.List.{Memᴰ}
use mathlib.Core.List.Memᴰ
use text.Mathlib.TextLemmas.{nil-append, cons-append, cons-ne-nil}
use mathlib.Core.Path.{ap₂}
use text.Mathlib.TextEquality.{Char-path}
use axiam_typescript_sdk.Prelude.{
  ◌≡◌, ◌≢◌, ◌↔◌, ◌∙◌, ◌⊎◌, inl, inr, refl, sym, subst, String, true, false, List, [], ◌∷◌, arith,
  eq_iff, ltb, Bool-cases, any,
}
use axiam_typescript_sdk.Amqp.Reactor.Registry.{
  ReactorEventSpec, starts_with, ends_with_dot, text_length, entry_allows, patch_field_allowed,
}

-- `field` is a name inside the namespace: the prefix, and at least one character more.
abbrev pub IsInside : String → String → Type 0
IsInside namespace field = (rest : String) × (rest ≢ "") × (field ≡ String.◌++◌ namespace rest)

-- What an allow-list entry admits: a namespace its inside, any other entry itself.
abbrev pub Admits : String → String → Type 0
Admits allowed field =
    ((ends_with_dot allowed ≡ true) × IsInside allowed field)
    ⊎ ((ends_with_dot allowed ≡ false) × (field ≡ allowed))

IsInside-of_test :
    (field allowed : String)
    → ltb (text_length allowed) (text_length field) ≡ true
    → starts_with field allowed ≡ true
    → IsInside allowed field
unfolding starts_with text_length
IsInside-of_test String.[] String.[] longer h = cc
IsInside-of_test (String.◌∷◌ d s) String.[] longer h =
    (String.◌∷◌ d s, cons-ne-nil d s, sym (nil-append _))
IsInside-of_test String.[] (String.◌∷◌ c t) longer h = cc
IsInside-of_test (String.◌∷◌ d s) (String.◌∷◌ c t) longer h =
    let (rest, nonempty, e) = IsInside-of_test s t (ground arith) (ground arith) in
    (
      rest,
      nonempty,
      ap₂ (λ x y. String.◌∷◌ x y) (Char-path d c (ground arith)) e ∙ sym (cons-append c t rest),
    )

test_of_inside :
    (allowed rest : String)
    → rest ≢ ""
    → (ltb (text_length allowed) (text_length (String.◌++◌ allowed rest)) ≡ true)
      × (starts_with (String.◌++◌ allowed rest) allowed ≡ true)
unfolding starts_with text_length
test_of_inside String.[] String.[] h = absurd (h refl)
test_of_inside String.[] (String.◌∷◌ d s) h = rw (nil-append (String.◌∷◌ d s)) (ground arith)
test_of_inside (String.◌∷◌ c t) rest h =
    rw (cons-append c t rest) (ground (arith, test_of_inside t rest h))

entry_allows_iff :
    (field allowed : String) → (entry_allows field allowed ≡ true) ↔ Admits allowed field
unfolding entry_allows
entry_allows_iff field allowed = elim (Bool-cases (ends_with_dot allowed)) [
  | inl dot ↦ (
    (λ h. inl (dot, IsInside-of_test field allowed (ground arith) (ground arith))),
    λ a. elim a [
      | inl (_, (rest, nonempty, e)) ↦
          rw (dot, e) (ground (arith, test_of_inside allowed rest nonempty))
      | inr (plain, _) ↦ cc
    ],
  )
  | inr plain ↦ (
    (λ h. inr (plain, (eq_iff field allowed).0 (ground arith))),
    λ a. elim a [ inl (dot, _) ↦ cc | inr (_, e) ↦ rw plain ((eq_iff field allowed).1 e) ],
  )
]

any_iff :
    (field : String) (entries : List String)
    → (any (entry_allows field) entries ≡ true)
      ↔ ((allowed : String) × Memᴰ allowed entries × Admits allowed field)
any_iff field [] = ((λ e. cc), λ h. absurd (Memᴰ.not-nil h.1))
any_iff field (x ∷ xs) = elim (Bool-cases (entry_allows field x)) [
  | inl hit ↦ ((λ _. (x, Memᴰ.head refl, (entry_allows_iff field x).0 hit)), λ _. rw hit)
  | inr miss ↦ (
    (λ e.
        let (allowed, listed, admits) = (any_iff field xs).0 (rw miss at e) in
        (allowed, Memᴰ.tail listed, admits)),
    λ (allowed, listed, admits). elim (Memᴰ.cases_cons listed) [
      | inl same ↦ absurd (
          ground
            (arith, miss, (entry_allows_iff field x).1 (subst (λ a. Admits a field) same admits)))
      | inr later ↦ rw miss ((any_iff field xs).1 (allowed, later, admits))
    ],
  )
]

-- A field may be patched exactly if the event is mutable and an entry of its allow-list admits it:
-- an entry that ends in a dot admits the names that continue it by at least one character, any
-- other entry itself alone.
pub patch_field_allowed_iff :
    (spec : ReactorEventSpec) (field : String)
    → (patch_field_allowed spec field ≡ true) ↔ (
        (spec.mutable ≡ true)
        × ((allowed : String) × Memᴰ allowed spec.mutable_fields × Admits allowed field))
unfolding patch_field_allowed
patch_field_allowed_iff spec field = elim (Bool-cases spec.mutable) [
  | inl mutable ↦ (
    (λ e. (mutable, (any_iff field spec.mutable_fields).0 (ground arith))),
    λ h. ground (arith, (any_iff field spec.mutable_fields).1 h.1),
  )
  | inr fixed ↦ ((λ e. absurd (ground arith)), λ h. absurd (ground (arith, h.0)))
]
