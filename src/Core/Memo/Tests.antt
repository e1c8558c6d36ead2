-- ===== src/Core/Memo/Tests.antt =====
-- The decision memo (core/decisionMemo.ts) at concrete inputs.
use axiam_typescript_sdk.Prelude.{
  ℕ, ◌+◌, ◌<◌, ◌≡◌, refl, String, true, false, List, [], ◌∷◌, Option, none, some, arith, eq_iff,
}
use axiam_typescript_sdk.Prelude.Int.{pos}
use axiam_typescript_sdk.Core.Memo.{
  clear, absent, AccessDecision, Check, Entry, create, get, set, enabled,
}
use axiam_typescript_sdk.Core.Memo.Key.{IsCheck, memo_key_injective}
use axiam_typescript_sdk.Core.Memo.History.{Call, sets, gets, clears, run, step, written, get-run}

abbrev yes_decision : AccessDecision
yes_decision = record { allowed = true; reason = none; reason_code = none }

abbrev no_decision : AccessDecision
no_decision = record { allowed = false; reason = some "no grant"; reason_code = none }

-- A write, a clear, and two writes of the same key.
abbrev calls : List (ℕ × Call)
calls =
    (100, sets "a" no_decision)
    ∷ (200, clears)
    ∷ (300, sets "a" no_decision)
    ∷ (400, sets "a" yes_decision)
    ∷ (500, gets "b")
    ∷ []

read_back : (get 5000 "a" (run (create (pos 9000)) calls)).1 ≡ some yes_decision
unfolding get run step set create clear
read_back = refl

get-run_example :
    (e : Entry) × (written "a" none calls ≡ some e)
    × (e.decision ≡ yes_decision)
    × (5000 < e.stored_at + 9000)
    × (5000 < e.stored_at + 5000)
get-run_example = get-run (pos 9000) calls 5000 "a" yes_decision read_back

is_on : enabled (create (pos 50)) ≡ true
unfolding enabled create
is_on = refl

abbrev check : Check
check = record { action = "r"; resource_id = "d"; scope = some "s"; subject_id = none }

check-IsCheck : IsCheck check
check-IsCheck = record {
  subject = tt;
  resource = ((λ e. omega (arith, e)), tt);
  act = ((λ e. omega (arith, e)), tt);
  narrowed = (((λ e. omega (arith, e)), tt), λ e. absurd (ground (arith, (eq_iff "s" absent).1 e)));
}

memo_key_injective_example : (check ≡ check) × (◌≡◌ {A = Option String} none none)
memo_key_injective_example =
    memo_key_injective check check none none check-IsCheck check-IsCheck tt tt refl
