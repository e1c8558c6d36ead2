-- ===== src/Core/Memo/History.antt =====
-- The decision memo against the history of its calls (core/decisionMemo.ts).
use axiam_typescript_sdk.Prelude.{
  ℕ, ◌+◌, ◌≤◌, ◌<◌, ◌≡◌, ◌∙◌, refl, ap, sym, String, true, List, [], ◌∷◌, Option, none, some, arith,
  str_eq, if◌then◌else◌, Option-cases, inl, inr, ltb,
}
use axiam_typescript_sdk.Prelude.Dict
use axiam_typescript_sdk.Prelude.Int.{ℤ, pos_part}
use axiam_typescript_sdk.Core.Memo.{
  AccessDecision, Entry, DecisionMemo, create, enabled, is_stale, look_up, get, set, clear, size,
}
use axiam_typescript_sdk.Core.Memo.Store.{
  IsValid, create-IsValid, get-IsValid, set-IsValid, clear-IsValid, get-evict,
}

pub data Call : Type 0 where
  gets : String → Call
  sets : String → AccessDecision → Call
  clears : Call

-- Each call comes with the clock that it reads.
unfoldable pub step : DecisionMemo → ℕ × Call → DecisionMemo
step m (now, gets key) = (get now key m).0
step m (now, sets key d) = set now key d m
step m (now, clears) = clear m

unfoldable pub run : DecisionMemo → List (ℕ × Call) → DecisionMemo
run m [] = m
run m (c ∷ cs) = run (step m c) cs

-- What was last written for a key since the last `clear`, by the history alone.
pub written_after : String → Option Entry → ℕ × Call → Option Entry
written_after k last (now, gets key) = last
written_after k last (now, sets key d) =
    if str_eq key k then some (record { decision = d; stored_at = now }) else last
written_after k last (now, clears) = none

pub written : String → Option Entry → List (ℕ × Call) → Option Entry
written k last [] = last
written k last (c ∷ cs) = written k (written_after k last c) cs

step-IsValid : (m : DecisionMemo) (c : ℕ × Call) → IsValid m → IsValid (step m c)
unfolding step
step-IsValid m (now, gets key) v = get-IsValid now key m v
step-IsValid m (now, sets key d) v = set-IsValid now key d m v
step-IsValid m (now, clears) v = clear-IsValid m v

run-IsValid : (m : DecisionMemo) (cs : List (ℕ × Call)) → IsValid m → IsValid (run m cs)
unfolding run
run-IsValid m [] v = v
run-IsValid m (c ∷ cs) v = run-IsValid (step m c) cs (step-IsValid m c v)

-- Whatever is done with a memo of any requested TTL, it never holds more than 1024 entries.
pub size-run-le : (ttl : ℤ) (cs : List (ℕ × Call)) → size (run (create ttl) cs) ≤ 1024
unfolding size
size-run-le ttl cs = (run-IsValid (create ttl) cs (create-IsValid ttl)).bounded

-- The memo agrees with the history wherever it holds anything.
abbrev Agrees : DecisionMemo → (String → Option Entry) → Type 0
Agrees m last = (k : String) (e : Entry) → Dict.get k m.entries ≡ some e → last k ≡ some e

look_up-get :
    (now : ℕ) (key k : String) (m : DecisionMemo) (o : Option Entry) (e : Entry)
    → Dict.get k (look_up now key m o).0.entries ≡ some e
    → Dict.get k m.entries ≡ some e
unfolding look_up
look_up-get now key k m none e h = h
look_up-get now key k m (some x) e h = ground (arith, Dict.get-delete key k m.entries)

step-ttl : (m : DecisionMemo) (c : ℕ × Call) → (step m c).ttl_ms ≡ m.ttl_ms
unfolding step get set clear look_up
step-ttl m (now, gets key) = ground arith
step-ttl m (now, sets key d) = ground arith
step-ttl m (now, clears) = refl

set-entries :
    (now : ℕ) (key : String) (d : AccessDecision) (m : DecisionMemo) (k : String) (e : Entry)
    → enabled m ≡ true
    → IsValid m
    → Dict.get k (set now key d m).entries ≡ some e
    → (if str_eq key k
        then some (record { decision = d; stored_at = now })
        else Dict.get k m.entries)
      ≡ some e
unfolding set
set-entries now key d m k e on v found = ground (
  arith,
  get-evict k e fresh
      (Dict.set-Distinct key entry _ (Dict.delete-Distinct key m.entries v.distinct)),
  Dict.get-set key k entry (Dict.delete key m.entries),
  Dict.get-delete key k m.entries,
)
  where
    entry : Entry
    entry = record { decision = d; stored_at = now }

    fresh : List (String × Entry)
    fresh = Dict.set key entry (Dict.delete key m.entries)

step-Agrees :
    (m : DecisionMemo) (last : String → Option Entry) (c : ℕ × Call)
    → enabled m ≡ true
    → IsValid m
    → Agrees m last
    → Agrees (step m c) (λ k. written_after k (last k) c)
unfolding step written_after get clear
step-Agrees m last (now, gets key) on v h k e found =
    ground (arith, h k e, look_up-get now key k m (Dict.get key m.entries) e)
step-Agrees m last (now, sets key d) on v h k e found =
    ground (arith, h k e, set-entries now key d m k e on v found)
step-Agrees m last (now, clears) on v h k e found = ground arith

run-Agrees :
    (m : DecisionMemo) (last : String → Option Entry) (cs : List (ℕ × Call))
    → enabled m ≡ true
    → IsValid m
    → Agrees m last
    → Agrees (run m cs) (λ k. written k (last k) cs)
unfolding run written
run-Agrees m last [] on v h = h
run-Agrees m last (c ∷ cs) on v h =
    run-Agrees (step m c) (λ k. written_after k (last k) c) cs
      (unfold enabled in ap (ltb 0) (step-ttl m c) ∙ on) (step-IsValid m c v)
      (step-Agrees m last c on v h)

run-ttl : (m : DecisionMemo) (cs : List (ℕ × Call)) → (run m cs).ttl_ms ≡ m.ttl_ms
unfolding run
run-ttl m [] = refl
run-ttl m (c ∷ cs) = run-ttl (step m c) cs ∙ step-ttl m c

get-some :
    (now : ℕ) (key : String) (m : DecisionMemo) (d : AccessDecision)
    → (get now key m).1 ≡ some d
    → (e : Entry) × (Dict.get key m.entries ≡ some e)
      × (e.decision ≡ d)
      × (now < e.stored_at + m.ttl_ms)
      × (enabled m ≡ true)
unfolding get look_up is_stale
get-some now key m d h = elim (Option-cases (Dict.get key m.entries)) [
  | inl e ↦ absurd (ground (arith, e))
  | inr (x, e) ↦ (x, e, ground (arith, e), ground (arith, e), ground (arith, e))
]

-- A decision that a memo returns is the one that was last memoised for that very key, no `clear`
-- came after it, and it is younger than the requested TTL and than five seconds: this holds after
-- every sequence of reads, writes and clears.
pub get-run :
    (ttl : ℤ) (cs : List (ℕ × Call)) (now : ℕ) (key : String) (d : AccessDecision)
    → (get now key (run (create ttl) cs)).1 ≡ some d
    → (e : Entry) × (written key none cs ≡ some e)
      × (e.decision ≡ d)
      × (now < e.stored_at + pos_part ttl)
      × (now < e.stored_at + 5000)
unfolding create
get-run ttl cs now key d h =
    let (e, found, same, fresh, on) = get-some now key (run (create ttl) cs) d h in
    let kept = run-ttl (create ttl) cs in
    let was_on : enabled (create ttl) ≡ true = unfold enabled in ap (ltb 0) (sym kept) ∙ on in
    let agreed =
      run-Agrees (create ttl) (λ _. none) cs was_on (create-IsValid ttl) (λ k x miss. cc) key e
        found in
    (e, agreed, same, omega arith, omega arith)
