-- ===== src/Core/Refresh/Shared.antt =====
-- One refresh at a time (core/singleFlightRefresh.ts).
use axiam_typescript_sdk.Prelude.{
  ℕ, ◌≡◌, ◌⊎◌, inl, inr, refl, true, List, [], ◌∷◌, Option, none, some, arith, ◌==◌, Option-cases,
  any,
}
use axiam_typescript_sdk.Core.Refresh.{
  RefreshGuard, call_guard, settle, calls, throws, settles, Reachable, created, stepped,
}

abbrev promised : Option ℕ → List ℕ
promised none = []
promised (some n) = n ∷ []

-- The refreshes in flight are the one that the guard holds.
abbrev IsSingle : RefreshGuard → Type 0
IsSingle g = g.running ≡ promised g.refresh_promise

call_guard-IsSingle : (g : RefreshGuard) → IsSingle g → IsSingle (call_guard g).0
unfolding call_guard
call_guard-IsSingle g h = elim (Option-cases g.refresh_promise) [
  | inl idle ↦ rw (idle, call_guard) (ground (arith, idle))
  | inr (n, busy) ↦ rw (busy, call_guard) h
]

settle-IsSingle :
    (g : RefreshGuard) (n : ℕ)
    → any (λ m. m == n) g.running ≡ true
    → IsSingle g
    → IsSingle (settle n g)
unfolding settle
settle-IsSingle g n here h = elim (Option-cases g.refresh_promise) [
  | inl idle ↦ ground (arith, idle)
  | inr (m, busy) ↦ ground (arith, busy)
]

Reachable-IsSingle : {g : RefreshGuard} → Reachable g → IsSingle g
Reachable-IsSingle created = refl
Reachable-IsSingle (stepped r (calls g)) = call_guard-IsSingle g (Reachable-IsSingle r)
Reachable-IsSingle (stepped r (throws g none_)) = Reachable-IsSingle r
Reachable-IsSingle (stepped r (settles g n here)) = settle-IsSingle g n here (Reachable-IsSingle r)

-- At every moment of every interleaving of calls and settlements, a call leaves exactly one refresh in
-- flight, the one whose promise it answers; and either that one was already the only one in flight,
-- or none was.
pub call_guard-shared :
    (g : RefreshGuard)
    → Reachable g
    → ((call_guard g).0.running ≡ (call_guard g).1 ∷ [])
      × ((g.running ≡ []) ⊎ (g.running ≡ (call_guard g).1 ∷ []))
unfolding call_guard
call_guard-shared g r =
    let h = Reachable-IsSingle r in
    elim (Option-cases g.refresh_promise) [
      | inl idle ↦ rw (idle, call_guard) (ground (arith, idle))
      | inr (n, busy) ↦ rw (busy, call_guard) (ground (arith, busy))
    ]
