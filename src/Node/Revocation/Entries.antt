-- ===== src/Node/Revocation/Entries.antt =====
-- Which sessions the feed calls revoked (node/revocationFeed.ts).
use axiam_typescript_sdk.Prelude.{
  ◌≤◌, ◌≡◌, ◌≢◌, ◌↔◌, ◌⊎◌, inl, inr, refl, ap, String, true, false, List, [], ◌∷◌, Option, none,
  some, arith, str_eq, eq_iff, ltb, Bool-cases, length, contains,
}
use axiam_typescript_sdk.Json.{
  Json, Items, null, bool, num, real, str, arr, obj, items, property, is_object,
}
use axiam_typescript_sdk.Node.Revocation.{
  RevocationFeed, Event, asks, refreshes, settles, Fetched, failed, answered, run, fetch_once,
  document_entries, bounded, texts_of, is_supported, max_entries,
}

-- A fetch that settles is one that was in flight.
abbrev pub Possible : RevocationFeed → List Event → Type 0
Possible f [] = Unit {0}
Possible f (settles fetched ∷ es) = ((run f es).fetching ≡ true) × Possible f es
Possible f (asks now ∷ es) = Possible f es
Possible f (refreshes now ∷ es) = Possible f es

-- The last fetch that brought a usable document listed the entry.
abbrev pub Listed : String → List Event → Type 0
Listed entry [] = ⊥
Listed entry (settles fetched ∷ es) = elim (fetch_once fetched) [
  | none ↦ Listed entry es
  | some known ↦ contains entry known ≡ true
]
Listed entry (asks now ∷ es) = Listed entry es
Listed entry (refreshes now ∷ es) = Listed entry es

-- The texts of a list of values.
abbrev pub Held : String → List Json → Type 0
Held entry [] = ⊥
Held entry (x ∷ xs) = (x ≡ str entry) ⊎ Held entry xs

skipped_iff :
    {P Q : Type 0} (entry : String) (x : Json) → x ≢ str entry → (P ↔ Q) → P ↔ ((x ≡ str entry) ⊎ Q)
skipped_iff entry x other h =
    (λ p. inr (h.0 p), λ q. elim q [ inl e ↦ absurd (other e) | inr r ↦ h.1 r ])

texts_of-Held :
    (entry : String) (xs : List Json) → (contains entry (texts_of xs) ≡ true) ↔ Held entry xs
unfolding texts_of
texts_of-Held entry [] = (λ h. cc, λ h. absurd h)
texts_of-Held entry (str s ∷ xs) = elim (Bool-cases (str_eq s entry)) [
  | inl same ↦ rw same (λ h. inl (ap str ((eq_iff s entry).0 same)), λ h. refl)
  | inr other ↦
      rw other
        (skipped_iff entry (str s) (λ e. cc ((eq_iff s entry).1 (cc))) (texts_of-Held entry xs))
]
texts_of-Held entry (null ∷ xs) = skipped_iff entry null (λ e. cc) (texts_of-Held entry xs)
texts_of-Held entry (bool b ∷ xs) = skipped_iff entry (bool b) (λ e. cc) (texts_of-Held entry xs)
texts_of-Held entry (num z ∷ xs) = skipped_iff entry (num z) (λ e. cc) (texts_of-Held entry xs)
texts_of-Held entry (real z s ∷ xs) =
    skipped_iff entry (real z s) (λ e. cc) (texts_of-Held entry xs)
texts_of-Held entry (arr ys ∷ xs) = skipped_iff entry (arr ys) (λ e. cc) (texts_of-Held entry xs)
texts_of-Held entry (obj fs ∷ xs) = skipped_iff entry (obj fs) (λ e. cc) (texts_of-Held entry xs)

-- The document is one of the feed: a JSON object or array that names SHA-256, with a list of at most
-- 100000 values, which has the entry.
abbrev pub Lists : String → Json → Type 0
Lists entry document =
    (is_object document ≡ true)
    × (property "alg" document ≡ some (str "SHA-256"))
    × (xs : Items) × (property "revoked" document ≡ some (arr xs))
    × (length (items xs) ≤ max_entries)
    × Held entry (items xs)

is_supported_iff : (v : Option Json) → (is_supported v ≡ true) ↔ (v ≡ some (str "SHA-256"))
unfolding is_supported
is_supported_iff none = (λ h. cc, λ h. cc)
is_supported_iff (some (str s)) =
    (λ h. ap (λ x. some (str x)) ((eq_iff s "SHA-256").0 h), λ h. (eq_iff s "SHA-256").1 (cc))
is_supported_iff (some null) = (λ h. cc, λ h. cc)
is_supported_iff (some (bool b)) = (λ h. cc, λ h. cc)
is_supported_iff (some (num z)) = (λ h. cc, λ h. cc)
is_supported_iff (some (real z s)) = (λ h. cc, λ h. cc)
is_supported_iff (some (arr xs)) = (λ h. cc, λ h. cc)
is_supported_iff (some (obj fs)) = (λ h. cc, λ h. cc)

bounded_only :
    (entry : String) (v : Option Json) (known : List String)
    → bounded v ≡ some known
    → contains entry known ≡ true
    → (xs : Items) × (v ≡ some (arr xs)) × (length (items xs) ≤ max_entries) × Held entry (items xs)
unfolding bounded
bounded_only entry none known b h = cc
bounded_only entry (some (arr xs)) known b h =
    elim (Bool-cases (ltb max_entries (length (items xs)))) [
      | inl over ↦ cc (rw over at b)
      | inr within ↦
          let e : texts_of (items xs) ≡ known = cc (rw within at b) in
          (xs, refl, ground arith, (texts_of-Held entry (items xs)).0 (rw e h))
    ]
bounded_only entry (some (str s)) known b h = cc
bounded_only entry (some null) known b h = cc
bounded_only entry (some (bool v)) known b h = cc
bounded_only entry (some (num z)) known b h = cc
bounded_only entry (some (real z s)) known b h = cc
bounded_only entry (some (obj fs)) known b h = cc

lists :
    (entry : String) (document : Json)
    → is_object document ≡ true
    → property "alg" document ≡ some (str "SHA-256")
    → (xs : Items) × (property "revoked" document ≡ some (arr xs))
      × (length (items xs) ≤ max_entries)
      × Held entry (items xs)
    → Lists entry document
lists entry document object digest (xs, list, bound, held) = (object, digest, xs, list, bound, held)

-- A fetch that makes a session count as revoked answered with success, and with a document of the
-- feed that has the entry.
pub fetch_once-Lists :
    (entry : String) (fetched : Fetched) (known : List String)
    → fetch_once fetched ≡ some known
    → contains entry known ≡ true
    → (document : Json) × (fetched ≡ answered true (some document)) × Lists entry document
unfolding fetch_once document_entries
fetch_once-Lists entry failed known f h = cc
fetch_once-Lists entry (answered is_ok none) known f h = cc
fetch_once-Lists entry (answered false (some document)) known f h = cc
fetch_once-Lists entry (answered true (some document)) known f h =
    elim (Bool-cases (is_object document)) [
      | inr scalar ↦ cc (rw scalar at f)
      | inl object ↦ elim (Bool-cases (is_supported (property "alg" document))) [
        | inr foreign ↦ cc (rw (object, foreign) at f)
        | inl digest ↦ (
          document,
          refl,
          lists entry document object ((is_supported_iff _).0 digest)
              (bounded_only entry (property "revoked" document) known (rw (object, digest) at f) h),
        )
      ]
    ]
