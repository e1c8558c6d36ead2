-- ===== src/Core/Memo.antt =====
-- core/decisionMemo.ts: the opt-in client-side memo of authorization decisions.
-- The clock is an argument, in whole milliseconds; a requested TTL is a whole number.
pub mod Key
pub mod Store
pub mod History
mod Tests
use axiam_typescript_sdk.Prelude.{
  ℕ, ◌+◌, ◌≡◌, String, Bool, true, false, not, ◌&&◌, ◌||◌, List, [], ◌∷◌, Option, none, some, min,
  ltb, leb, if◌then◌else◌, length, or_else,
}
use axiam_typescript_sdk.Prelude.Int.{ℤ, pos, negsuc, pos_part}
use axiam_typescript_sdk.Prelude.Dict
use Prim.Native.String

-- core/authz.ts, shared by the REST and gRPC transports.
pub record AccessDecision : Type 0 where
  pub allowed : Bool
  pub reason : Option String
  pub reason_code : Option String

-- The question that a decision answers.
pub record Check : Type 0 where
  pub action : String
  pub resource_id : String
  pub scope : Option String
  pub subject_id : Option String

abbrev pub max_ttl_ms : ℕ
max_ttl_ms = 5000

abbrev pub max_entries : ℕ
max_entries = 1024

abbrev pub separator : String
separator = "\u{1f}"

abbrev pub absent : String
absent = "\0"

-- `Array.prototype.join`.
unfoldable pub join : String → List String → String
join sep [] = ""
join sep (x ∷ []) = x
join sep (x ∷ y ∷ rest) = String.◌++◌ x (String.◌++◌ sep (join sep (y ∷ rest)))

pub memo_key : Check → Option String → String
memo_key check acting_tenant_id = join separator (
    or_else check.subject_id absent
    ∷ check.resource_id
    ∷ check.action
    ∷ or_else check.scope absent
    ∷ or_else acting_tenant_id absent
    ∷ [])

pub record Entry : Type 0 where
  pub decision : AccessDecision
  pub stored_at : ℕ

pub record DecisionMemo : Type 0 where
  pub ttl_ms : ℕ
  pub entries : List (String × Entry)

-- The constructor: `Math.min(Math.max(ttlMs, 0), MAX_TTL_MS)`.
pub create : ℤ → DecisionMemo
create ttl = record { ttl_ms = min (pos_part ttl) max_ttl_ms; entries = [] }

pub enabled : DecisionMemo → Bool
enabled m = ltb 0 m.ttl_ms

-- `now - storedAt >= ttl`, over the whole numbers.
pub is_stale : ℕ → DecisionMemo → Entry → Bool
is_stale now m e = leb (e.stored_at + m.ttl_ms) now

look_up : ℕ → String → DecisionMemo → Option Entry → DecisionMemo × Option AccessDecision
unfolding is_stale
look_up now key m none = (m, none)
look_up now key m (some e) =
    if is_stale now m e
    then (record m { entries = Dict.delete key m.entries }, none)
    else (m, some e.decision)

pub get : ℕ → String → DecisionMemo → DecisionMemo × Option AccessDecision
unfolding enabled look_up
get now key m = if not (enabled m) then (m, none) else look_up now key m (Dict.get key m.entries)

-- The eviction loop. The keys of a `Map` are distinct, so deleting its first key drops its first
-- entry.
pub evict : List (String × Entry) → List (String × Entry)
evict [] = []
evict (e ∷ es) = if ltb max_entries (length (e ∷ es)) then evict es else e ∷ es

pub set : ℕ → String → AccessDecision → DecisionMemo → DecisionMemo
unfolding enabled evict
set now key decision m = if not (enabled m) then m else record m {
  entries =
      evict (
        Dict.set key (record { decision = decision; stored_at = now }) (Dict.delete key m.entries));
}

pub clear : DecisionMemo → DecisionMemo
clear m = record m { entries = [] }

pub size : DecisionMemo → ℕ
size m = length m.entries

-- core/telemetry.ts: the event that the memo emits. The numbers stand for their renderings.
pub record ConfigClampedEvent : Type 0 where
  pub setting : String
  pub requested : ℤ
  pub effective : ℕ
  pub contract_reference : String

-- `requestedMs <= 0 || requestedMs === this.ttlMs`
is_unclamped : ℤ → ℕ → Bool
is_unclamped (pos n) ttl = leb n 0 || (leb n ttl && leb ttl n)
is_unclamped (negsuc n) ttl = true

-- `installed` says whether the dispatcher has a hook; the result is the event emitted, if any.
pub report_clamp : Bool → ℤ → DecisionMemo → Option ConfigClampedEvent
unfolding is_unclamped
report_clamp installed requested m =
    if not installed || is_unclamped requested m.ttl_ms
    then none
    else some (record {
      setting = "decisionMemoTtlMs";
      requested = requested;
      effective = m.ttl_ms;
      contract_reference = "§17.1 rule 2";
    })
