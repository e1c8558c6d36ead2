-- ===== src/Core/Refresh/Tests.antt =====
-- The refresh guard (core/singleFlightRefresh.ts) at a concrete interleaving.
use axiam_typescript_sdk.Prelude.{◌≡◌, ◌⊎◌, refl, true, [], ◌∷◌, ◌==◌, any}
use axiam_typescript_sdk.Core.Refresh.{
  RefreshGuard, create_refresh_guard, call_guard, settle, calls, settles, Reachable, created,
  stepped,
}
use axiam_typescript_sdk.Core.Refresh.Shared.{call_guard-shared}

-- A call starts the refresh 0, which settles.
abbrev idle : RefreshGuard
idle = settle 0 (call_guard create_refresh_guard).0

-- A second call starts the refresh 1.
abbrev busy : RefreshGuard
busy = (call_guard idle).0

in_flight : any (λ m. m == 0) (call_guard create_refresh_guard).0.running ≡ true
unfolding call_guard
in_flight = refl

busy-Reachable : Reachable busy
busy-Reachable =
    stepped
      (stepped (stepped created (calls create_refresh_guard))
        (settles (call_guard create_refresh_guard).0 0 in_flight))
      (calls idle)

call_guard-shared_example :
    ((call_guard busy).0.running ≡ (call_guard busy).1 ∷ [])
    × ((busy.running ≡ []) ⊎ (busy.running ≡ (call_guard busy).1 ∷ []))
call_guard-shared_example = call_guard-shared busy busy-Reachable
