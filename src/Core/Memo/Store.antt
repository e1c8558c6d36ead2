-- ===== src/Core/Memo/Store.antt =====
-- The decision memo over time (core/decisionMemo.ts): what a read can return.
use axiam_typescript_sdk.Prelude.{
  ℕ, ◌+◌, ◌≤◌, ◌≡◌, String, Bool, true, false, ◌&&◌, List, [], ◌∷◌, ◌++◌, Option, none, some, arith,
  length, length-append, eq_iff, if◌then◌else◌, Bool-cases, inl, inr, ltb,
}
use axiam_typescript_sdk.Prelude.Dict
use axiam_typescript_sdk.Prelude.Int.{ℤ, pos, negsuc, ltb_ℤ}
use axiam_typescript_sdk.Prelude.Dict.{Distinct}
use axiam_typescript_sdk.Core.Memo.{
  AccessDecision, Entry, DecisionMemo, create, report_clamp, enabled, is_stale, look_up, get, evict,
  set, clear, max_entries, max_ttl_ms,
}

evict-le : (es : List (String × Entry)) → length (evict es) ≤ max_entries
unfolding evict
evict-le [] = omega arith
evict-le (e ∷ es) = ground (arith, evict-le es)

pub evict-Distinct : (es : List (String × Entry)) → Distinct es → Distinct (evict es)
unfolding evict
evict-Distinct [] h = tt
evict-Distinct ((k, e) ∷ es) (fresh, h) = ground (arith, evict-Distinct es h)

-- Eviction makes no entry up and brings no older one back.
pub get-evict :
    (k : String) (e : Entry) (es : List (String × Entry))
    → Distinct es
    → Dict.get k (evict es) ≡ some e
    → Dict.get k es ≡ some e
unfolding evict
get-evict k e [] h found = found
get-evict k e ((j, x) ∷ es) (fresh, h) found =
    elim (Bool-cases (ltb max_entries (length ((j, x) ∷ es)))) [
      | inl over ↦ Dict.get-tail j k x e es (fresh, h) (get-evict k e es h (rw over at found))
      | inr fits ↦ (rw fits at found)
    ]

-- The newest entry survives eviction.
get-evict_last :
    (k : String) (e : Entry) (es : List (String × Entry))
    → Dict.get k es ≡ none
    → Dict.get k (evict (es ++ (k, e) ∷ [])) ≡ some e
unfolding evict
get-evict_last k e [] h = ground (arith, eq_iff k k)
get-evict_last k e ((j, x) ∷ es) h =
    ground
      (arith, get-evict_last k e es, length-append es ((k, e) ∷ []), Dict.get-append_new k e es)

-- The state that every sequence of calls keeps: distinct keys, at most 1024 entries.
pub record IsValid (m : DecisionMemo) : Type 0 where
  pub distinct : Distinct m.entries
  pub bounded : length m.entries ≤ max_entries
  pub clamped : m.ttl_ms ≤ max_ttl_ms

pub create-IsValid : (ttl : ℤ) → IsValid (create ttl)
unfolding create
create-IsValid ttl = record { distinct = tt; bounded = omega arith; clamped = omega arith }

look_up-IsValid :
    (now : ℕ) (key : String) (m : DecisionMemo) (o : Option Entry)
    → IsValid m
    → IsValid (look_up now key m o).0
unfolding look_up
look_up-IsValid now key m none v = v
look_up-IsValid now key m (some e) v =
    ground (arith, Dict.delete-Distinct key m.entries v.distinct, Dict.length-delete key m.entries)

pub get-IsValid :
    (now : ℕ) (key : String) (m : DecisionMemo) → IsValid m → IsValid (get now key m).0
unfolding get
get-IsValid now key m v = ground (arith, look_up-IsValid now key m (Dict.get key m.entries) v)

pub set-IsValid :
    (now : ℕ) (key : String) (d : AccessDecision) (m : DecisionMemo)
    → IsValid m
    → IsValid (set now key d m)
unfolding set enabled
set-IsValid now key d m v = ground (
  arith,
  evict-le written,
  evict-Distinct written
      (Dict.set-Distinct key entry _ (Dict.delete-Distinct key m.entries v.distinct)),
)
  where
    entry : Entry
    entry = record { decision = d; stored_at = now }

    written : List (String × Entry)
    written = Dict.set key entry (Dict.delete key m.entries)

pub clear-IsValid : (m : DecisionMemo) → IsValid m → IsValid (clear m)
unfolding clear
clear-IsValid m v = record { distinct = tt; bounded = omega arith; clamped = v.clamped }

-- A decision that an enabled memo is given can be read back until the TTL has passed, and not
-- from then on, whatever else the memo holds; its reason and its code come with it.
pub get_after_set :
    (stored now : ℕ) (key : String) (d : AccessDecision) (m : DecisionMemo)
    → enabled m ≡ true
    → (get now key (set stored key d m)).1 ≡ (if ltb now (stored + m.ttl_ms) then some d else none)
unfolding get set enabled look_up is_stale
get_after_set stored now key d m on = ground (
  arith,
  Dict.set-append key entry (Dict.delete key m.entries),
  Dict.get-delete key key m.entries,
  eq_iff key key,
  get-evict_last key entry (Dict.delete key m.entries),
)
  where
    entry : Entry
    entry = record { decision = d; stored_at = stored }

-- A disabled memo stores nothing and answers nothing.
pub disabled_lem :
    (now : ℕ) (key : String) (d : AccessDecision) (m : DecisionMemo)
    → enabled m ≡ false
    → (get now key m ≡ (m, none)) × (set now key d m ≡ m)
unfolding get set
disabled_lem now key d m off = (rw off, rw off)

-- The clamp is reported exactly when a hook is installed and the TTL asked for is above five
-- seconds; the event names the TTL asked for and the five seconds in force.
pub report_clamp-create :
    (installed : Bool) (ttl : ℤ)
    → report_clamp installed ttl (create ttl) ≡ (
        if installed && ltb_ℤ (pos 5000) ttl
        then some (record {
          setting = "decisionMemoTtlMs";
          requested = ttl;
          effective = 5000;
          contract_reference = "§17.1 rule 2";
        })
        else none)
unfolding report_clamp create
report_clamp-create installed (pos n) = ground arith
report_clamp-create installed (negsuc n) = ground arith
