-- ===== src/Core/Memo/Key.antt =====
-- The memo's key (core/decisionMemo.ts): which checks share one.
use Prim.Native.Char.{code}
use Prim.Native.String
use mathlib.Core.Path.{ap₂}
use text.Mathlib.TextLemmas.{nil-append, cons-append, tail-eq_of_cons-eq, head-eq_of_cons-eq}
use axiam_typescript_sdk.Prelude.{
  ◌≡◌, ◌≢◌, refl, ap, sym, ◌∙◌, ◌∙◌, String, Option, none, some, arith, or_else,
}
use axiam_typescript_sdk.Core.Memo.{Check, join, memo_key, separator, absent}

-- Free of the unit separator.
abbrev pub IsPart : String → Type 0
IsPart String.[] = Unit {0}
IsPart (String.◌∷◌ c s) = (code c ≢ 31) × IsPart s

-- An optional part is also told apart from the mark of absence.
abbrev pub IsOptionalPart : Option String → Type 0
IsOptionalPart none = Unit {0}
IsOptionalPart (some s) = IsPart s × (s ≢ absent)

separator-append : (u : String) → String.◌++◌ separator u ≡ String.◌∷◌ "\u{1f}" u
separator-append u = cons-append "\u{1f}" "" u ∙ ap (String.◌∷◌ "\u{1f}") (nil-append u)

-- Two texts without the separator, each followed by one, agree before it and after it.
split_at_separator :
    (s t : String) {u v : String}
    → IsPart s
    → IsPart t
    → String.◌++◌ s (String.◌++◌ separator u) ≡ String.◌++◌ t (String.◌++◌ separator v)
    → (s ≡ t) × (u ≡ v)
split_at_separator String.[] String.[] hs ht e =
    (refl, tail-eq_of_cons-eq (simp (nil-append, separator-append) at e))
split_at_separator String.[] (String.◌∷◌ d t) hs (away, _) e = absurd (
    away
      (sym (ap code (head-eq_of_cons-eq (simp (nil-append, separator-append, cons-append) at e)))))
split_at_separator (String.◌∷◌ c s) String.[] (away, _) ht e =
    absurd
      (away (ap code (head-eq_of_cons-eq (simp (nil-append, separator-append, cons-append) at e))))
split_at_separator (String.◌∷◌ c s) (String.◌∷◌ d t) {u} {v} (_, hs) (_, ht) e =
    let e' : String.◌∷◌ c (String.◌++◌ s (String.◌++◌ separator u))
        ≡ String.◌∷◌ d (String.◌++◌ t (String.◌++◌ separator v)) =
      simp cons-append at e in
    let (same, after) = split_at_separator s t {u = u} {v = v} hs ht (tail-eq_of_cons-eq e') in
    (ap₂ (λ x y. String.◌∷◌ x y) (head-eq_of_cons-eq e') same, after)

or_else-IsPart : (o : Option String) → IsOptionalPart o → IsPart (or_else o absent)
or_else-IsPart none h = omega arith
or_else-IsPart (some s) h = h.0

or_else_injective :
    (o p : Option String)
    → IsOptionalPart o
    → IsOptionalPart p
    → or_else o absent ≡ or_else p absent
    → o ≡ p
or_else_injective none none h k e = refl
or_else_injective none (some t) h k e = absurd (k.1 (sym e))
or_else_injective (some s) none h k e = absurd (h.1 e)
or_else_injective (some s) (some t) h k e = ap some e

pub record IsCheck (c : Check) : Type 0 where
  pub subject : IsOptionalPart c.subject_id
  pub resource : IsPart c.resource_id
  pub act : IsPart c.action
  pub narrowed : IsOptionalPart c.scope

-- Two checks whose parts hold no unit separator, and whose optional parts are not the mark of
-- absence, share a memo key only if they are the same check for the same acting tenant.
pub memo_key_injective :
    (c d : Check) (a b : Option String)
    → IsCheck c
    → IsCheck d
    → IsOptionalPart a
    → IsOptionalPart b
    → memo_key c a ≡ memo_key d b
    → (c ≡ d) × (a ≡ b)
unfolding memo_key join
memo_key_injective c d a b hc hd ha hb e =
    let subject_c = or_else-IsPart c.subject_id hc.subject in
    let subject_d = or_else-IsPart d.subject_id hd.subject in
    let (subject, e₁) =
      split_at_separator (or_else c.subject_id absent) (or_else d.subject_id absent) subject_c
        subject_d e in
    let (resource, e₂) =
      split_at_separator c.resource_id d.resource_id hc.resource hd.resource e₁ in
    let (act, e₃) = split_at_separator c.action d.action hc.act hd.act e₂ in
    let scope_c = or_else-IsPart c.scope hc.narrowed in
    let scope_d = or_else-IsPart d.scope hd.narrowed in
    let (narrowed, e₄) =
      split_at_separator (or_else c.scope absent) (or_else d.scope absent) scope_c scope_d e₃ in
    let same_subject = or_else_injective c.subject_id d.subject_id hc.subject hd.subject subject in
    let same_scope = or_else_injective c.scope d.scope hc.narrowed hd.narrowed narrowed in
    (
      λ i. record {
        action = act i;
        resource_id = resource i;
        scope = same_scope i;
        subject_id = same_subject i;
      },
      or_else_injective a b ha hb e₄,
    )
