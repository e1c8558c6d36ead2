-- ===== src/Core/Refresh.antt =====
-- core/singleFlightRefresh.ts: the guard that shares one refresh among concurrent callers.
-- Calls and settlements interleave as steps. `doRefresh` is assumed not to call its own guard before
-- it has returned its promise, and the hook that resets a guard between tests is left out.
pub mod Shared
mod Tests
use axiam_typescript_sdk.Prelude.{
  ℕ, zero, suc, ◌+◌, ◌-◌, ◌*◌, ◌^◌, ◌≤◌, ◌<◌, min, max, ◌≡◌, ◌≢◌, ◌↔◌, ◌∙◌, ◌⊎◌, inl, inr, refl,
  sym, ap, subst, String, Bool, true, false, not, ◌&&◌, ◌||◌, List, [], ◌∷◌, ◌++◌, map, Option,
  none, some, arith, str_eq, eq_iff, ltb, leb, ◌==◌, if◌then◌else◌, ltb→lt, lt→ltb, leb→le, le→leb,
  ==_iff, Bool-cases, Option-cases, or_else, is_some, length, length-append, All, All-append, any,
  contains,
}

-- `refreshPromise`, and around it the refreshes in flight and the number of those started, which
-- also names the next one.
pub record RefreshGuard : Type 0 where
  pub refresh_promise : Option ℕ
  pub running : List ℕ
  pub started : ℕ

abbrev pub create_refresh_guard : RefreshGuard
create_refresh_guard = record { refresh_promise = none; running = []; started = 0 }

-- The promise that a call answers, and the guard after it.
pub call_guard : RefreshGuard → RefreshGuard × ℕ
call_guard g = elim g.refresh_promise [
  | some promise ↦ (g, promise)
  | none ↦ (
    record {
      refresh_promise = some g.started;
      running = g.started ∷ g.running;
      started = suc g.started;
    },
    g.started,
  )
]

abbrev pub without : ℕ → List ℕ → List ℕ
without n [] = []
without n (m ∷ ms) = if m == n then without n ms else m ∷ without n ms

-- The `finally` callback, of whichever refresh: it clears the guard and does not look whose it is.
pub settle : ℕ → RefreshGuard → RefreshGuard
settle n g = record g { refresh_promise = none; running = without n g.running }

-- What can happen next: a call, a call whose `doRefresh` throws at once, and the end of a refresh that
-- is in flight, well or badly.
pub data Step : RefreshGuard → RefreshGuard → Type 0 where
  calls : (g : RefreshGuard) → Step g (call_guard g).0
  throws : (g : RefreshGuard) → g.refresh_promise ≡ none → Step g g
  settles : (g : RefreshGuard) (n : ℕ) → any (λ m. m == n) g.running ≡ true → Step g (settle n g)

pub data Reachable : RefreshGuard → Type 0 where
  created : Reachable create_refresh_guard
  stepped : {g h : RefreshGuard} → Reachable g → Step g h → Reachable h
