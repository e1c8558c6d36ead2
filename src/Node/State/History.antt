-- ===== src/Node/State/History.antt =====
-- The login-state store against the history of its calls (node/oidcState.ts).
use axiam_typescript_sdk.Prelude.{
  ℕ, ◌+◌, ◌≤◌, ◌<◌, ◌≡◌, refl, String, not, List, [], ◌∷◌, Option, none, some, arith, eq_iff,
  str_eq, leb, if◌then◌else◌, Option-cases, Bool-cases, inl, inr,
}
use axiam_typescript_sdk.Prelude.Int.{ℤ, pos, negsuc, pos_part}
use axiam_typescript_sdk.Prelude.Dict
use axiam_typescript_sdk.Prelude.Dict.{Distinct}
use axiam_typescript_sdk.Node.State.{
  OidcStateEntry, Held, MemoryOidcStateStore, create, is_expired, sweep, size, plus_ttl, save,
  taken, consume,
}

pub record IsValid (s : MemoryOidcStateStore) : Type 0 where
  pub distinct : Distinct s.entries
  pub bounded : pos_part s.ttl_ms ≤ 600000

create-IsValid : (ttl : ℤ) → IsValid (create ttl)
unfolding create
create-IsValid (pos n) = record { distinct = tt; bounded = omega arith }
create-IsValid (negsuc n) = record { distinct = tt; bounded = omega arith }

sweep-IsValid : (now : ℕ) (s : MemoryOidcStateStore) → IsValid s → IsValid (sweep now s)
unfolding sweep
sweep-IsValid now s v = record {
  distinct = Dict.keep-Distinct (λ held. not (is_expired now held)) s.entries v.distinct;
  bounded = v.bounded;
}

save-IsValid :
    (now : ℕ) (e : OidcStateEntry) (s : MemoryOidcStateStore) → IsValid s → IsValid (save now e s)
unfolding save
save-IsValid now e s v =
    let swept = sweep-IsValid now s v in
    record {
      distinct = Dict.set-Distinct e.state _ (sweep now s).entries swept.distinct;
      bounded = swept.bounded;
    }

taken-IsValid :
    (now : ℕ) (s : MemoryOidcStateStore) (state : String) (o : Option Held)
    → IsValid s
    → IsValid (taken now s state o).0
unfolding taken
taken-IsValid now s state none v = v
taken-IsValid now s state (some held) v =
    ground (arith, Dict.delete-Distinct state s.entries v.distinct)

-- What `consume` leaves behind.
get-consume :
    (now : ℕ) (state k : String) (s : MemoryOidcStateStore)
    → Dict.get k (consume now state s).0.entries
      ≡ (if str_eq state k then none else Dict.get k s.entries)
unfolding consume taken
get-consume now state k s = elim (Option-cases (Dict.get state s.entries)) [
  | inl e ↦ rw (e, taken) (ground (arith, eq_iff state k, e))
  | inr (held, e) ↦ rw (e, taken) (ground (arith, Dict.get-delete state k s.entries))
]

-- What a sweep leaves behind.
get-sweep :
    (now : ℕ) (k : String) (s : MemoryOidcStateStore) (held : Held)
    → IsValid s
    → Dict.get k (sweep now s).entries ≡ some held
    → Dict.get k s.entries ≡ some held
unfolding sweep
get-sweep now k s held v found = elim (Option-cases (Dict.get k s.entries)) [
  | inl e ↦
      ground (arith, Dict.get-keep (λ h. not (is_expired now h)) k s.entries v.distinct, e, found)
  | inr (x, e) ↦
      ground (arith, Dict.get-keep (λ h. not (is_expired now h)) k s.entries v.distinct, e, found)
]

consume-none :
    (now : ℕ) (state : String) (s : MemoryOidcStateStore)
    → Dict.get state s.entries ≡ none
    → (consume now state s).1 ≡ none
unfolding consume taken
consume-none now state s e = rw (e, taken)

-- A consumed state is gone, whether it was held, expired or never there: a second `consume` of it
-- answers nothing, at any time.
pub consume_twice :
    (now later : ℕ) (state : String) (s : MemoryOidcStateStore)
    → (consume later state (consume now state s).0).1 ≡ none
consume_twice now later state s =
    consume-none later state (consume now state s).0
      (ground (arith, get-consume now state state s, eq_iff state state))

-- A saved login can be consumed until its TTL has passed, and not from then on.
pub consume-save :
    (now later : ℕ) (e : OidcStateEntry) (s : MemoryOidcStateStore)
    → (consume later e.state (save now e s)).1
      ≡ (if leb (plus_ttl now s.ttl_ms) later then none else some e)
unfolding consume taken save sweep is_expired
consume-save now later e s = ground (
  arith,
  Dict.get-set e.state e.state (record { entry = e; expires_at = plus_ttl now s.ttl_ms })
      (sweep now s).entries,
  eq_iff e.state e.state,
)

pub data Call : Type 0 where
  saves : OidcStateEntry → Call
  consumes : String → Call
  sizes : Call

unfoldable pub step : MemoryOidcStateStore → ℕ × Call → MemoryOidcStateStore
step s (now, saves e) = save now e s
step s (now, consumes state) = (consume now state s).0
step s (now, sizes) = (size now s).0

unfoldable pub run : MemoryOidcStateStore → List (ℕ × Call) → MemoryOidcStateStore
run s [] = s
run s (c ∷ cs) = run (step s c) cs

-- The login that a history leaves open for a state, with the time it was saved at: the last one
-- saved under it, if no `consume` of it came after.
pub open_after : String → Option (OidcStateEntry × ℕ) → ℕ × Call → Option (OidcStateEntry × ℕ)
open_after k last (now, saves e) = if str_eq e.state k then some (e, now) else last
open_after k last (now, consumes state) = if str_eq state k then none else last
open_after k last (now, sizes) = last

pub open_login :
    String → Option (OidcStateEntry × ℕ) → List (ℕ × Call) → Option (OidcStateEntry × ℕ)
open_login k last [] = last
open_login k last (c ∷ cs) = open_login k (open_after k last c) cs

step-IsValid : (s : MemoryOidcStateStore) (c : ℕ × Call) → IsValid s → IsValid (step s c)
unfolding step size consume
step-IsValid s (now, saves e) v = save-IsValid now e s v
step-IsValid s (now, consumes state) v = taken-IsValid now s state (Dict.get state s.entries) v
step-IsValid s (now, sizes) v = sweep-IsValid now s v

-- Every entry held is the open login of its state, and expires within ten minutes of its `save`.
abbrev Agrees : MemoryOidcStateStore → (String → Option (OidcStateEntry × ℕ)) → Type 0
Agrees s last =
    (k : String) (held : Held)
    → Dict.get k s.entries ≡ some held
    → (t : ℕ) × (last k ≡ some (held.entry, t)) × (held.expires_at ≤ t + 600000)

plus_ttl-le : (now : ℕ) (ttl : ℤ) → pos_part ttl ≤ 600000 → plus_ttl now ttl ≤ now + 600000
unfolding plus_ttl
plus_ttl-le now (pos n) h = omega arith
plus_ttl-le now (negsuc n) h = omega arith

get-save :
    (now : ℕ) (e : OidcStateEntry) (k : String) (s : MemoryOidcStateStore)
    → Dict.get k (save now e s).entries ≡ (
        if str_eq e.state k
        then some (record { entry = e; expires_at = plus_ttl now s.ttl_ms })
        else Dict.get k (sweep now s).entries)
unfolding save sweep
get-save now e k s = Dict.get-set e.state k _ (sweep now s).entries

step-Agrees :
    (s : MemoryOidcStateStore) (last : String → Option (OidcStateEntry × ℕ)) (c : ℕ × Call)
    → IsValid s
    → Agrees s last
    → Agrees (step s c) (λ k. open_after k (last k) c)
unfolding step open_after size
step-Agrees s last (now, saves e) v h k held found = elim (Bool-cases (str_eq e.state k)) [
  | inl hit ↦
      let same : record { entry = e; expires_at = plus_ttl now s.ttl_ms } ≡ held =
        ground (arith, get-save now e k s) in
      rw (hit, ← same) (now, refl, plus_ttl-le now s.ttl_ms v.bounded)
  | inr miss ↦ rw miss (h k held (get-sweep now k s held v (ground (arith, get-save now e k s))))
]
step-Agrees s last (now, consumes state) v h k held found = elim (Bool-cases (str_eq state k)) [
  | inl hit ↦ absurd (ground (arith, get-consume now state k s))
  | inr miss ↦ rw miss (h k held (ground (arith, get-consume now state k s)))
]
step-Agrees s last (now, sizes) v h k held found = h k held (get-sweep now k s held v found)

run-Agrees :
    (s : MemoryOidcStateStore) (last : String → Option (OidcStateEntry × ℕ)) (cs : List (ℕ × Call))
    → IsValid s
    → Agrees s last
    → Agrees (run s cs) (λ k. open_login k (last k) cs)
unfolding run open_login
run-Agrees s last [] v h = h
run-Agrees s last (c ∷ cs) v h =
    run-Agrees (step s c) (λ k. open_after k (last k) c) cs (step-IsValid s c v)
      (step-Agrees s last c v h)

consume-some :
    (now : ℕ) (state : String) (s : MemoryOidcStateStore) (e : OidcStateEntry)
    → (consume now state s).1 ≡ some e
    → (held : Held) × (Dict.get state s.entries ≡ some held)
      × (held.entry ≡ e)
      × (now < held.expires_at)
unfolding consume taken is_expired
consume-some now state s e h = elim (Option-cases (Dict.get state s.entries)) [
  | inl miss ↦ absurd (ground (arith, miss))
  | inr (held, found) ↦ (held, found, ground (arith, found), ground (arith, found))
]

-- A login that `consume` answers is the one that was saved last under that state, it was not
-- consumed since, and it is younger than ten minutes: this holds after every sequence of calls on
-- a store of any requested TTL.
pub consume-run :
    (ttl : ℤ) (cs : List (ℕ × Call)) (now : ℕ) (state : String) (e : OidcStateEntry)
    → (consume now state (run (create ttl) cs)).1 ≡ some e
    → (t : ℕ) × (open_login state none cs ≡ some (e, t)) × (now < t + 600000)
consume-run ttl cs now state e h =
    let (held, found, same, fresh) = consume-some now state (run (create ttl) cs) e h in
    let (t, last, bound) =
      run-Agrees (create ttl) (λ _. none) cs (create-IsValid ttl)
        (λ k x miss. absurd (unfold create in cc miss)) state held found in
    (t, rw (← same) last, omega arith)
