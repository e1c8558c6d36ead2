-- ===== src/Node/Revocation/Tests.antt =====
-- A feed that is fetched, fails once, and is asked in between (node/revocationFeed.ts).
use axiam_typescript_sdk.Prelude.{◌+◌, ◌-◌, ◌*◌, ◌≤◌, ◌≡◌, refl, true, List, [], ◌∷◌, some, arith}
use axiam_typescript_sdk.Prelude.Int.{pos}
use axiam_typescript_sdk.Json.{Json, null, str, arr, obj, from_list, nil, cons}
use axiam_typescript_sdk.Node.Revocation.{
  Event, asks, settles, failed, answered, create, run, happen, settle, refresh, refresh_if_stale,
  fetch_once, is_supported, min_poll_interval_ms,
}
use axiam_typescript_sdk.Node.Revocation.Polls.{fetches, fetches-run}

abbrev document : Json
document =
    obj (
      from_list (("alg", str "SHA-256") ∷ ("revoked", arr (cons (str "e-1") (cons null nil))) ∷ []))

-- The latest first.
abbrev events : List Event
events =
    asks 50001
    ∷ settles failed
    ∷ asks 40000
    ∷ asks 20000
    ∷ settles (answered true (some document))
    ∷ asks 10000
    ∷ []

-- A stale feed makes its caller wait.
stale_waits :
    (refresh_if_stale 25000 (run (create (some (pos 1))) (settles failed ∷ asks 10000 ∷ []))).1
    ≡ true
unfolding run refresh_if_stale happen create refresh settle
stale_waits = refl

fetched_document : fetch_once (answered true (some document)) ≡ some ("e-1" ∷ [])
unfolding fetch_once is_supported
fetched_document = refl

two_fetches : fetches (create (some (pos 1))) events ≡ 2
unfolding run happen refresh_if_stale create refresh settle
two_fetches = refl

fetches-run_example :
    (fetches (create (some (pos 1))) events * (create (some (pos 1))).poll_interval_ms
      ≤ (50001 - 10000) + (create (some (pos 1))).poll_interval_ms)
    × (min_poll_interval_ms ≤ (create (some (pos 1))).poll_interval_ms)
fetches-run_example = fetches-run (some (pos 1)) 10000 50001 events (omega arith) (omega arith)
