-- ===== src/Middleware/Challenges/Printable.antt =====
-- What a challenge header may hold, and when a guard has one (middleware/mcpCore.ts).
use axiam_typescript_sdk.Prelude.{
  ◌≤◌, ◌≡◌, inl, inr, String, true, not, ◌&&◌, ◌||◌, List, [], ◌∷◌, ◌++◌, Option, none, some, arith,
  str_eq, eq_iff, ◌==◌, ==_iff, Bool-cases, All, All-append,
}
use axiam_typescript_sdk.Prelude.Texts.{is_empty, split_on, onto_first}
use axiam_typescript_sdk.Prelude.Results.{
  Result, ok, err, ◌>>◌, ensure, Gives, ensure-Gives, bind-Gives, Gives-ok,
}
use axiam_typescript_sdk.Core.Memo.{join}
use axiam_typescript_sdk.Middleware.Challenges.{
  Refusal, is_nqchar, is_nqschar, is_all, quoted, BearerChallengeOptions, bearer_challenge,
  error_param, description_param, scope_param, are_tokens, require_absolute_uri, locator, refused,
  op,
}
use Prim.Native.Char.{Char, code}
use Prim.Native.String
use text.Mathlib.TextLemmas.{nil-append, cons-append}

-- Visible ASCII and spaces only: no line end, so no second header.
abbrev pub IsPrintable : String → Type 0
IsPrintable String.[] = Unit {0}
IsPrintable (String.◌∷◌ c s) = ((32 ≤ code c) × (code c ≤ 126)) × IsPrintable s

append-IsPrintable : (s t : String) → IsPrintable s → IsPrintable t → IsPrintable (String.◌++◌ s t)
append-IsPrintable String.[] t h k = rw (nil-append t) k
append-IsPrintable (String.◌∷◌ c s) t (p, h) k =
    rw (cons-append c s t) (p, append-IsPrintable s t h k)

join-IsPrintable :
    (sep : String) (xs : List String)
    → IsPrintable sep
    → All IsPrintable xs
    → IsPrintable (join sep xs)
unfolding join
join-IsPrintable sep [] p h = tt
join-IsPrintable sep (x ∷ []) p h = h.0
join-IsPrintable sep (x ∷ y ∷ rest) p (here, h) =
    append-IsPrintable x _ here (append-IsPrintable sep _ p (join-IsPrintable sep (y ∷ rest) p h))

nqchars-IsPrintable : (s : String) → is_all s is_nqchar ≡ true → IsPrintable s
nqchars-IsPrintable String.[] h = tt
nqchars-IsPrintable (String.◌∷◌ c s) h =
    ((ground arith, ground arith), nqchars-IsPrintable s (ground arith))

nqschars-IsPrintable : (s : String) → is_all s is_nqschar ≡ true → IsPrintable s
nqschars-IsPrintable String.[] h = tt
nqschars-IsPrintable (String.◌∷◌ c s) h =
    ((ground arith, ground arith), nqschars-IsPrintable s (ground arith))

tokens-IsPrintable : (ts : List String) → are_tokens ts ≡ true → All IsPrintable ts
tokens-IsPrintable [] h = tt
tokens-IsPrintable (t ∷ ts) h =
    (nqchars-IsPrintable t (ground arith), tokens-IsPrintable ts (ground arith))

onto_first-IsPrintable :
    (c : Char) (ts : List String)
    → All IsPrintable (onto_first c ts)
    → ((32 ≤ code c) × (code c ≤ 126)) × All IsPrintable ts
onto_first-IsPrintable c [] h = (h.0.0, tt)
onto_first-IsPrintable c (t ∷ ts) h = (h.0.0, (h.0.1, h.1))

split-IsPrintable : (s : String) → All IsPrintable (split_on b' ' s) → IsPrintable s
split-IsPrintable String.[] h = tt
split-IsPrintable (String.◌∷◌ c s) h = elim (Bool-cases (code c == b' ')) [
  | inl space ↦
      let is : code c ≡ 32 = (==_iff _ _).0 space in
      let rest : All IsPrintable ("" ∷ split_on b' ' s) = rw space at h in
      ((omega (arith, is), omega (arith, is)), split-IsPrintable s rest.1)
  | inr other ↦
      let parts = onto_first-IsPrintable c (split_on b' ' s) (rw other at h) in
      (parts.0, split-IsPrintable s parts.1)
]

anything : {A : Type 0} (r : Result Refusal A) → Gives (λ _. Unit {0}) r
anything (ok a) = tt
anything (err e) = tt

quoted-IsPrintable :
    (name v : String) → IsPrintable name → IsPrintable v → IsPrintable (quoted name v)
quoted-IsPrintable name v n h =
    append-IsPrintable name _ n
      (append-IsPrintable "=\"" _ (omega arith) (append-IsPrintable v "\"" h (omega arith)))

error_text-IsPrintable :
    (e : String)
    → (str_eq e "invalid_request" || str_eq e "invalid_token" || str_eq e "insufficient_scope")
      ≡ true
    → IsPrintable e
error_text-IsPrintable e h = elim (Bool-cases (str_eq e "invalid_request")) [
  | inl one ↦ rw ((eq_iff e "invalid_request").0 one) (omega arith)
  | inr a ↦ elim (Bool-cases (str_eq e "invalid_token")) [
    | inl two ↦ rw ((eq_iff e "invalid_token").0 two) (omega arith)
    | inr b ↦ rw ((eq_iff e "insufficient_scope").0 (rw (a, b) at h)) (omega arith)
  ]
]

error_param-IsPrintable : (e : Option String) → Gives (All IsPrintable) (error_param e)
unfolding error_param
error_param-IsPrintable none = tt
error_param-IsPrintable (some e) =
    ensure-Gives (All IsPrintable) _ (refused op "error") (ok (quoted "error" e ∷ []))
      (λ h. (quoted-IsPrintable "error" e (omega arith) (error_text-IsPrintable e h), tt))

description_param-IsPrintable : (d : Option String) → Gives (All IsPrintable) (description_param d)
unfolding description_param
description_param-IsPrintable none = tt
description_param-IsPrintable (some d) =
    ensure-Gives (All IsPrintable) (not (is_empty d) && is_all d is_nqschar)
      (refused op "error_description") (ok (quoted "error_description" d ∷ []))
      (λ h. (
        quoted-IsPrintable "error_description" d (omega arith)
            (nqschars-IsPrintable d (ground arith)),
        tt,
      ))

scope_param-IsPrintable : (s : Option String) → Gives (All IsPrintable) (scope_param s)
unfolding scope_param
scope_param-IsPrintable none = tt
scope_param-IsPrintable (some s) =
    ensure-Gives (All IsPrintable) (not (is_empty s)) (refused op "scope")
      (ensure (are_tokens (split_on b' ' s)) (refused op "scope") >> ok (quoted "scope" s ∷ []))
      (λ _.
        ensure-Gives (All IsPrintable) (are_tokens (split_on b' ' s)) (refused op "scope")
          (ok (quoted "scope" s ∷ []))
          (λ h. (
            quoted-IsPrintable "scope" s (omega arith)
                (split-IsPrintable s (tokens-IsPrintable _ h)),
            tt,
          )))

-- The parameters that come last, with the checks of the URL.
url_param-IsPrintable :
    (url : String) (e d s : List String)
    → All IsPrintable e
    → All IsPrintable d
    → All IsPrintable s
    → is_all url is_nqchar ≡ true
    → IsPrintable
        (String.◌++◌ "Bearer " (join ", " (e ++ (d ++ (s ++ quoted "resource_metadata" url ∷ [])))))
url_param-IsPrintable url e d s he hd hs h =
    let last : All IsPrintable (quoted "resource_metadata" url ∷ []) =
      (quoted-IsPrintable "resource_metadata" url (omega arith) (nqchars-IsPrintable url h), tt) in
    append-IsPrintable "Bearer " _ (omega arith) (
      join-IsPrintable ", " _ (omega arith)
        (All-append _ e _ he (All-append _ d _ hd (All-append _ s _ hs last))))

bearer_challenge-Gives :
    (options : BearerChallengeOptions) → Gives IsPrintable (bearer_challenge options)
unfolding bearer_challenge
bearer_challenge-Gives options =
    let url = options.resource_metadata_url in
    bind-Gives IsPrintable (All IsPrintable) _ _ (error_param-IsPrintable options.error) (λ e he.
      bind-Gives IsPrintable (All IsPrintable) _ _
        (description_param-IsPrintable options.error_description)
        (λ d hd.
          bind-Gives IsPrintable (All IsPrintable) _ _ (scope_param-IsPrintable options.scope)
            (λ s hs.
              bind-Gives IsPrintable (λ _. Unit {0}) _ _
                (anything (require_absolute_uri op "resource_metadata" url locator))
                (λ uri _.
                  ensure-Gives IsPrintable (is_all url is_nqchar) (refused op "resource_metadata")
                    (ok (
                      String.◌++◌ "Bearer "
                        (join ", " (e ++ (d ++ (s ++ quoted "resource_metadata" url ∷ []))))))
                    (url_param-IsPrintable url e d s he hd hs)))))

-- A challenge that is built holds visible ASCII and spaces alone, whatever the description, the scope and
-- the URL are: none of them can end the header's line.
pub bearer_challenge-IsPrintable :
    (options : BearerChallengeOptions) (text : String)
    → bearer_challenge options ≡ ok text
    → IsPrintable text
bearer_challenge-IsPrintable options text h =
    Gives-ok IsPrintable (bearer_challenge options) text (bearer_challenge-Gives options) h
