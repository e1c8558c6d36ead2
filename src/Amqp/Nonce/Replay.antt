-- ===== src/Amqp/Nonce/Replay.antt =====
-- How long the nonce store of amqp/consumer.ts remembers.
use axiam_typescript_sdk.Prelude.{
  ℕ, ◌+◌, ◌≤◌, ◌<◌, ◌≡◌, ◌∙◌, inl, inr, String, true, false, not, List, [], ◌∷◌, none, some, arith,
  eq_iff, ltb, leb, lt→ltb, Option-cases, All,
}
use axiam_typescript_sdk.Prelude.Dict
use axiam_typescript_sdk.Prelude.Dict.{Distinct}
use axiam_typescript_sdk.Amqp.Nonce.{SeenUntil, prune, check_and_record}

pub check_and_record-Distinct :
    (now : ℕ) (nonce : String) (ttl : ℕ) (seen : SeenUntil)
    → Distinct seen
    → Distinct (check_and_record now nonce ttl seen).0
unfolding check_and_record prune
check_and_record-Distinct now nonce ttl seen h = ground (
  arith,
  Dict.keep-Distinct (λ expiry. not (leb expiry now)) seen h,
  Dict.set-Distinct nonce (now + ttl) (prune now seen),
)

-- Until when a nonce counts as seen, whatever is pruned: 0 if it does not.
abbrev pub until : String → SeenUntil → ℕ
until nonce seen = elim (Dict.get nonce seen) [ none ↦ 0 | some expiry ↦ expiry ]

-- In a store whose entries have distinct nonces, the answer is that the nonce is seen exactly while
-- its time has not come.
pub check_and_record_iff :
    (now : ℕ) (nonce : String) (ttl : ℕ) (seen : SeenUntil)
    → Distinct seen
    → (check_and_record now nonce ttl seen).1 ≡ ltb now (until nonce seen)
unfolding check_and_record prune
check_and_record_iff now nonce ttl seen h = elim (Option-cases (Dict.get nonce seen)) [
  | inl e ↦ ground (arith, e, Dict.get-keep (λ expiry. not (leb expiry now)) nonce seen h)
  | inr (x, e) ↦ ground (arith, e, Dict.get-keep (λ expiry. not (leb expiry now)) nonce seen h)
]

-- A check for any nonce, before the time until which this one is remembered, does not shorten it.
until-check_and_record :
    (now : ℕ) (k : String) (ttl : ℕ) (seen : SeenUntil) (nonce : String) (u : ℕ)
    → Distinct seen
    → now < u
    → u ≤ until nonce seen
    → u ≤ until nonce (check_and_record now k ttl seen).0
unfolding check_and_record prune
until-check_and_record now k ttl seen nonce u h early kept =
    elim (Option-cases (Dict.get nonce seen)) [
      | inl e ↦ absurd (ground (arith, e))
      | inr (x, e) ↦ ground (
        arith,
        e,
        Dict.get-keep (λ expiry. not (leb expiry now)) nonce seen h,
        Dict.get-set k nonce (now + ttl) (prune now seen),
        eq_iff k nonce,
      )
    ]

pub until_accepted :
    (now : ℕ) (nonce : String) (ttl : ℕ) (seen : SeenUntil)
    → (check_and_record now nonce ttl seen).1 ≡ false
    → until nonce (check_and_record now nonce ttl seen).0 ≡ now + ttl
unfolding check_and_record
until_accepted now nonce ttl seen new =
    ground (arith, Dict.get-set nonce nonce (now + ttl) (prune now seen), eq_iff nonce nonce)

-- A call: the clock, the nonce and the TTL.
abbrev pub Check : Type 0
Check = ℕ × String × ℕ

unfoldable pub run : SeenUntil → List Check → SeenUntil
run seen [] = seen
run seen ((now, nonce, ttl) ∷ cs) = run (check_and_record now nonce ttl seen).0 cs

run-until :
    (seen : SeenUntil) (cs : List Check) (nonce : String) (u : ℕ)
    → Distinct seen
    → All (λ c. c.0 < u) cs
    → u ≤ until nonce seen
    → Distinct (run seen cs) × (u ≤ until nonce (run seen cs))
unfolding run
run-until seen [] nonce u h early kept = (h, kept)
run-until seen ((now, k, ttl) ∷ cs) nonce u h (early, rest) kept =
    run-until (check_and_record now k ttl seen).0 cs nonce u
      (check_and_record-Distinct now k ttl seen h) rest
      (until-check_and_record now k ttl seen nonce u h early kept)

-- A nonce that was accepted is answered as seen for the whole of its TTL, whatever other nonces are
-- checked in between, at any clock readings below the end of that TTL. The store starts with
-- distinct nonces.
pub accepted_once :
    (seen : SeenUntil) (now : ℕ) (nonce : String) (ttl : ℕ) (cs : List Check) (later ttl' : ℕ)
    → Distinct seen
    → (check_and_record now nonce ttl seen).1 ≡ false
    → All (λ c. c.0 < now + ttl) cs
    → later < now + ttl
    → (check_and_record later nonce ttl' (run (check_and_record now nonce ttl seen).0 cs)).1 ≡ true
accepted_once seen now nonce ttl cs later ttl' h new early soon =
    let after = (check_and_record now nonce ttl seen).0 in
    let kept = until_accepted now nonce ttl seen new in
    let (distinct, long) =
      run-until after cs nonce (now + ttl) (check_and_record-Distinct now nonce ttl seen h) early
        (omega arith) in
    check_and_record_iff later nonce ttl' (run after cs) distinct
    ∙ lt→ltb later (until nonce (run after cs)) (omega arith)

prune-All : (now : ℕ) (seen : SeenUntil) → All (λ e. now < e.1) (prune now seen)
unfolding prune
prune-All now [] = tt
prune-All now ((k, expiry) ∷ seen) = ground (arith, prune-All now seen)

set-All :
    (now : ℕ) (k : String) (expiry : ℕ) (seen : SeenUntil)
    → now < expiry
    → All (λ e. now < e.1) seen
    → All (λ e. now < e.1) (Dict.set k expiry seen)
set-All now k expiry [] h all = (h, tt)
set-All now k expiry ((j, x) ∷ seen) h (first, rest) =
    ground (arith, set-All now k expiry seen h rest)

-- After every check the store holds no expired entry, so it grows with the traffic of one TTL only.
pub check_and_record-All :
    (now : ℕ) (nonce : String) (ttl : ℕ) (seen : SeenUntil)
    → 0 < ttl
    → All (λ e. now < e.1) (check_and_record now nonce ttl seen).0
unfolding check_and_record
check_and_record-All now nonce ttl seen h =
    ground (arith, prune-All now seen, set-All now nonce (now + ttl) (prune now seen))
