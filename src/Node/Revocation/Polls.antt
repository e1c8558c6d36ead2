-- ===== src/Node/Revocation/Polls.antt =====
-- How often the feed is fetched (node/revocationFeed.ts).
use axiam_typescript_sdk.Prelude.{
  ℕ, ◌+◌, ◌-◌, ◌*◌, ◌≤◌, ◌≡◌, ◌∙◌, ◌⊎◌, inl, inr, refl, ap, subst, true, false, not, ◌&&◌, List, [],
  ◌∷◌, Option, none, some, arith, ltb, if◌then◌else◌, Bool-cases, Option-cases,
}
use axiam_typescript_sdk.Prelude.Int.{ℤ}
use axiam_typescript_sdk.Node.Revocation.{
  RevocationFeed, Event, asks, refreshes, settles, Fetched, create, run, happen, settle, refresh,
  refresh_if_stale, is_recent, min_poll_interval_ms,
}

-- The event starts a fetch.
abbrev pub starts : Event → RevocationFeed → ℕ
starts e f = if not f.fetching && (happen e f).fetching then 1 else 0

-- The fetches that a run has started.
abbrev pub fetches : RevocationFeed → List Event → ℕ
fetches f [] = 0
fetches f (e ∷ es) = starts e (run f es) + fetches f es

-- The run is of guards asking, each at a clock reading between the two, and of fetches that end:
-- nobody forces a refresh.
abbrev pub Asked : ℕ → ℕ → List Event → Type 0
Asked from to [] = Unit {0}
Asked from to (asks now ∷ es) = (from ≤ now) × (now ≤ to) × Asked from to es
Asked from to (settles fetched ∷ es) = Asked from to es
Asked from to (refreshes now ∷ es) = ⊥

abbrev begun : ℕ → RevocationFeed → RevocationFeed
begun now f = record f { last_attempt = some now; fetching = true }

-- A guard that asks starts a fetch at most where none is in flight and the last attempt is not recent.
asks_cases :
    (now : ℕ) (f : RevocationFeed)
    → ((happen (asks now) f ≡ f) × (starts (asks now) f ≡ 0))
      ⊎ ((happen (asks now) f ≡ begun now f)
          × (starts (asks now) f ≡ 1)
          × (is_recent now f ≡ false))
unfolding happen refresh_if_stale refresh
asks_cases now f = elim (Bool-cases (is_recent now f)) [
  | inl recent ↦ inl (ground (arith, recent), ground (arith, recent))
  | inr stale ↦ elim (Bool-cases f.fetching) [
    | inl busy ↦ inl (ground (arith, stale, busy), ground (arith, stale, busy))
    | inr idle ↦ inr (ground (arith, stale, idle), ground (arith, stale, idle), stale)
  ]
]

-- Fetches are at least an interval apart: `k` have been started since `from`.
abbrev Since : ℕ → ℕ → ℕ → ℕ → Option ℕ → Type 0
Since from to poll k none = k ≡ 0
Since from to poll k (some last) = (from + k * poll ≤ last + poll) × (last ≤ to)

record Spaced (from to poll k : ℕ) (f : RevocationFeed) : Type 0 where
  same_poll : f.poll_interval_ms ≡ poll
  since : Since from to poll k f.last_attempt

one_more :
    (from to poll k now : ℕ) (f : RevocationFeed)
    → from ≤ now
    → now ≤ to
    → is_recent now f ≡ false
    → Spaced from to poll k f
    → (from + (1 + k) * poll ≤ now + poll) × (now ≤ to)
unfolding is_recent
one_more from to poll k now f lo hi stale s = elim (Option-cases f.last_attempt) [
  | inl never ↦
      let none_yet : k ≡ 0 = subst (Since from to poll k) never s.since in
      (rw none_yet (omega arith), hi)
  | inr (last, tried) ↦
      let (spaced, before) = subst (Since from to poll k) tried s.since in
      let due : ltb now (last + f.poll_interval_ms) ≡ false = rw tried at stale in
      let due' : last + poll ≤ now = ground (arith, s.same_poll, due) in (grind arith, hi)
]

-- Only the count, the interval and the last attempt matter.
moved :
    {from to poll k n : ℕ} (f g : RevocationFeed)
    → n ≡ k
    → g.poll_interval_ms ≡ f.poll_interval_ms
    → g.last_attempt ≡ f.last_attempt
    → Spaced from to poll k f
    → Spaced from to poll n g
moved {from} {to} {poll} {k} f g count interval attempt s = record {
  same_poll = interval ∙ s.same_poll;
  since = rw (count, attempt) s.since;
}

asks-Spaced :
    (from to poll k now : ℕ) (f : RevocationFeed)
    → from ≤ now
    → now ≤ to
    → Spaced from to poll k f
    → Spaced from to poll (starts (asks now) f + k) (happen (asks now) f)
asks-Spaced from to poll k now f lo hi s = elim (asks_cases now f) [
  | inl (same, quiet) ↦
      moved f (happen (asks now) f) (ap (λ n. n + k) quiet ∙ omega arith)
        (ap (λ g. g.poll_interval_ms) same) (ap (λ g. g.last_attempt) same) s
  | inr (fresh, one, stale) ↦
      let next : Spaced from to poll (1 + k) (begun now f) = record {
        same_poll = s.same_poll;
        since = one_more from to poll k now f lo hi stale s;
      } in
      moved (begun now f) (happen (asks now) f) (ap (λ n. n + k) one)
        (ap (λ g. g.poll_interval_ms) fresh) (ap (λ g. g.last_attempt) fresh) next
]

settles-Spaced :
    (from to poll k : ℕ) (fetched : Fetched) (f : RevocationFeed)
    → Spaced from to poll k f
    → Spaced from to poll (starts (settles fetched) f + k) (happen (settles fetched) f)
unfolding happen settle
settles-Spaced from to poll k fetched f s =
    moved f (if f.fetching then settle fetched f else f) (ground arith) (ground arith)
      (ground arith) s

run-Spaced :
    (requested : Option ℤ) (from to : ℕ) (es : List Event)
    → Asked from to es
    → Spaced from to
        (create requested).poll_interval_ms
        (fetches (create requested) es)
        (run (create requested) es)
unfolding run
run-Spaced requested from to [] h = record { same_poll = refl; since = unfold create in refl }
run-Spaced requested from to (asks now ∷ es) (lo, hi, h) =
    asks-Spaced from to _ _ now (run (create requested) es) lo hi
      (run-Spaced requested from to es h)
run-Spaced requested from to (settles fetched ∷ es) h =
    settles-Spaced from to _ _ fetched (run (create requested) es)
      (run-Spaced requested from to es h)
run-Spaced requested from to (refreshes now ∷ es) h = absurd h

poll-le : (requested : Option ℤ) → min_poll_interval_ms ≤ (create requested).poll_interval_ms
unfolding create
poll-le none = omega arith
poll-le (some ms) = omega arith

-- However many guards ask, between two clock readings a feed that nobody forces to refresh starts at most
-- one fetch more than intervals fit between them, and an interval is at least 15 seconds, whatever
-- was requested.
pub fetches-run :
    (requested : Option ℤ) (from to : ℕ) (es : List Event)
    → from ≤ to
    → Asked from to es
    → (fetches (create requested) es * (create requested).poll_interval_ms
        ≤ (to - from) + (create requested).poll_interval_ms)
      × (min_poll_interval_ms ≤ (create requested).poll_interval_ms)
fetches-run requested from to es span h =
    let s = run-Spaced requested from to es h in
    (
      elim (Option-cases (run (create requested) es).last_attempt) [
        | inl never ↦
            let zero_yet : fetches (create requested) es ≡ 0 =
              subst (Since from to _ _) never s.since in
            rw zero_yet (omega arith)
        | inr (last, tried) ↦
            let (spaced, before) = subst (Since from to _ _) tried s.since in omega arith
      ],
      poll-le requested,
    )
