-- ===== src/Node/Revocation.antt =====
-- node/revocationFeed.ts: the poller of the session-revocation feed. An async call is split where it
-- waits: what it does at once, and what its caller does when the fetch has settled. The clock is an
-- argument, in whole milliseconds. SHA-256 (`entry_for`) and the fetch are the platform's: the text
-- of a digest, and what a fetch answered.
pub mod Entries
pub mod Polls
mod Tests
use axiam_typescript_sdk.Prelude.{
  ℕ, zero, suc, ◌+◌, ◌-◌, ◌*◌, ◌^◌, ◌≤◌, ◌<◌, min, max, ◌≡◌, ◌≢◌, ◌↔◌, ◌∙◌, ◌⊎◌, inl, inr, refl,
  sym, ap, subst, String, Bool, true, false, not, ◌&&◌, ◌||◌, List, [], ◌∷◌, ◌++◌, map, Option,
  none, some, arith, str_eq, eq_iff, ltb, leb, ◌==◌, if◌then◌else◌, ltb→lt, lt→ltb, leb→le, le→leb,
  ==_iff, Bool-cases, Option-cases, or_else, is_some, length, length-append, All, All-append, any,
  contains,
}
use axiam_typescript_sdk.Prelude.Int.{ℤ, pos_part}
use axiam_typescript_sdk.Json.{
  Json, null, bool, num, real, str, arr, obj, items, property, is_object,
}

abbrev pub min_poll_interval_ms : ℕ
min_poll_interval_ms = 15000

abbrev pub default_poll_interval_ms : ℕ
default_poll_interval_ms = 30000

abbrev pub max_entries : ℕ
max_entries = 100000

-- How a fetch ended: it, or the decoding of the body, threw; or the status and the body.
pub data Fetched : Type 0 where
  failed : Fetched
  answered : (is_ok : Bool) (document : Option Json) → Fetched

-- `entries` is `none` before the first fetch that succeeded. `fetching` is `#inFlight`.
pub record RevocationFeed : Type 0 where
  pub poll_interval_ms : ℕ
  pub entries : Option (List String)
  pub last_attempt : Option ℕ
  pub fetching : Bool

unfoldable pub create : Option ℤ → RevocationFeed
create requested = record {
  poll_interval_ms =
      max (elim requested [ none ↦ default_poll_interval_ms | some ms ↦ pos_part ms ])
        min_poll_interval_ms;
  entries = none;
  last_attempt = none;
  fetching = false;
}

-- `revoked.filter((e) => typeof e === 'string')`
texts_of : List Json → List String
texts_of [] = []
texts_of (str s ∷ xs) = s ∷ texts_of xs
texts_of (_ ∷ xs) = texts_of xs

-- `Array.isArray(revoked)` and its bound.
bounded : Option Json → Option (List String)
unfolding texts_of
bounded (some (arr xs)) =
    if ltb max_entries (length (items xs)) then none else some (texts_of (items xs))
bounded _ = none

unfoldable pub is_supported : Option Json → Bool
is_supported (some (str s)) = str_eq s "SHA-256"
is_supported _ = false

document_entries : Json → Option (List String)
unfolding bounded
document_entries document =
    if not (is_object document)
    then none
    else if not (is_supported (property "alg" document))
    then none
    else bounded (property "revoked" document)

-- `#fetchOnce`
unfoldable pub fetch_once : Fetched → Option (List String)
unfolding document_entries
fetch_once failed = none
fetch_once (answered is_ok none) = none
fetch_once (answered is_ok (some document)) = if not is_ok then none else document_entries document

-- `refresh`, up to its wait: a fetch that is in flight is shared.
unfoldable pub refresh : ℕ → RevocationFeed → RevocationFeed
refresh now f = if f.fetching then f else record f { last_attempt = some now; fetching = true }

-- `now() - last < pollIntervalMs`, over the whole numbers.
is_recent : ℕ → RevocationFeed → Bool
is_recent now f = elim f.last_attempt [
  | none ↦ false
  | some last ↦ ltb now (last + f.poll_interval_ms)
]

-- `#refreshIfStale`, up to its wait: the new feed, and whether the caller waits for the fetch.
unfoldable pub refresh_if_stale : ℕ → RevocationFeed → RevocationFeed × Bool
unfolding is_recent
refresh_if_stale now f = if is_recent now f then (f, false) else (refresh now f, true)

-- The rest of `#doRefresh`, and the `finally` of `refresh`.
unfoldable pub settle : Fetched → RevocationFeed → RevocationFeed
settle fetched f = record f {
  entries = elim (fetch_once fetched) [ none ↦ f.entries | some fresh ↦ some fresh ];
  fetching = false;
}

-- `isRevoked`, past its wait. `entry` is `entryFor(sid)`.
unfoldable pub answer : String → RevocationFeed → Bool
answer entry f = elim f.entries [ none ↦ false | some known ↦ contains entry known ]

-- What happens to a feed, in order: a call of `isRevoked` or `refresh`, or the end of the fetch in
-- flight. A call waits or answers; that does not change the feed.
pub data Event : Type 0 where
  asks : (now : ℕ) → Event
  refreshes : (now : ℕ) → Event
  settles : (fetched : Fetched) → Event

-- A fetch ends only while one is in flight.
unfoldable pub happen : Event → RevocationFeed → RevocationFeed
happen (asks now) f = (refresh_if_stale now f).0
happen (refreshes now) f = refresh now f
happen (settles fetched) f = if f.fetching then settle fetched f else f

-- The events, the latest first.
pub run : RevocationFeed → List Event → RevocationFeed
run f [] = f
run f (e ∷ es) = happen e (run f es)
