-- ===== src/Rest/Retry/Policy.antt =====
-- The retry policy that rest/retry.ts promises, stated apart from the loop, and the loop's runs.
use native.Mathlib.Nat.{mul-le-mul}
use axiam_typescript_sdk.Prelude.{
  ℕ, zero, suc, ◌+◌, ◌*◌, ◌≤◌, ◌<◌, ◌≡◌, ◌⊎◌, inl, inr, refl, ◌∙◌, true, false, List, [], ◌∷◌,
  Option, none, some, arith, min, max, or_else, Bool-cases, Option-cases,
}
use axiam_typescript_sdk.Prelude.Int.{ℤ, pos_part}
use axiam_typescript_sdk.Rest.Retry.{
  Thrown, is_network, retry_after, Outcome, returned, threw, RetryOptions, Event, called, slept,
  unit, backoff_ms, delay_ms, retryable, announcement, retry_loop, with_retry, wait_and_retry,
  is_final,
}

-- The wait after an attempt: at most five seconds of its own, raised to what the server asked for
-- and never above both.
pub record IsDelay (asked : Option ℕ) (delay : ℕ) : Type 0 where
  pub floor : or_else asked 0 * unit ≤ delay
  pub ceiling : delay ≤ max (5000 * unit) (or_else asked 0 * unit)

backoff_ms-le : (attempt : ℕ) → backoff_ms attempt ≤ 5000
unfolding backoff_ms
backoff_ms-le attempt = omega arith

scaled-le : (b f : ℕ) → b ≤ 5000 → b * min f unit ≤ 5000 * unit
scaled-le b f h = mul-le-mul {m₂ = unit} h (omega arith)

-- Full jitter: whatever fraction is drawn, the wait is no longer than five seconds or the server's
-- `Retry-After`, and no shorter than the `Retry-After`.
pub delay_ms-IsDelay :
    (attempt : ℕ) (asked : Option ℕ) (fraction : ℤ)
    → IsDelay asked (delay_ms attempt asked fraction)
unfolding delay_ms
delay_ms-IsDelay attempt none fraction = record {
  floor = omega arith;
  ceiling = scaled-le (backoff_ms attempt) (pos_part fraction) (backoff_ms-le attempt);
}
delay_ms-IsDelay attempt (some ms) fraction = record {
  floor = omega arith;
  ceiling =
      omega (arith, scaled-le (backoff_ms attempt) (pos_part fraction) (backoff_ms-le attempt));
}

module _ {ℓ} {T : Type ℓ} (fn : ℕ → Outcome T) (options : RetryOptions) where
  -- A run from attempt `n` on, by the rules of the policy.
  pub data Run : ℕ → Outcome T → List Event → Type ℓ where
    answers : {n : ℕ} {v : T} → fn n ≡ returned v → Run n (returned v) (called n ∷ [])
    gives_up :
        {n : ℕ} {e : Thrown}
        → fn n ≡ threw e
        → (is_network e ≡ false) ⊎ (n ≡ 3)
        → Run n (threw e) (called n ∷ [])
    is_refused :
        {n : ℕ} {e refusal : Thrown} (delay : ℕ)
        → n < 3
        → fn n ≡ threw e
        → is_network e ≡ true
        → IsDelay (retry_after e) delay
        → options.admit delay ≡ some refusal
        → Run n (threw refusal) (called n ∷ [])
    retries :
        {n : ℕ} {e : Thrown} {r : Outcome T} {t : List Event} (delay : ℕ)
        → n < 3
        → fn n ≡ threw e
        → is_network e ≡ true
        → IsDelay (retry_after e) delay
        → options.admit delay ≡ none
        → Run (n + 1) r t
        → Run n r (called n ∷ announcement options n delay e (slept delay ∷ t))

  Outcome-cases : (o : Outcome T) → ((v : T) × (o ≡ returned v)) ⊎ ((x : Thrown) × (o ≡ threw x))
  Outcome-cases (returned v) = inl (v, refl)
  Outcome-cases (threw x) = inr (x, refl)

  wait_and_retry-Run :
      (n : ℕ) (x : Thrown) (rest : Outcome T × List Event)
      → n < 3
      → fn n ≡ threw x
      → is_network x ≡ true
      → Run (n + 1) rest.0 rest.1
      → let delay = delay_ms n (retry_after x) (options.random n) in
        let run = wait_and_retry options n delay x rest in Run n run.0 run.1
  unfolding wait_and_retry
  wait_and_retry-Run n x rest early e net r =
      let delay = delay_ms n (retry_after x) (options.random n) in
      let fits = delay_ms-IsDelay n (retry_after x) (options.random n) in
      elim (Option-cases (options.admit delay)) [
        | inl passes ↦ rw (passes, wait_and_retry) (retries delay early e net fits passes r)
        | inr (refusal, stops) ↦
            rw (stops, wait_and_retry) (is_refused delay early e net fits stops)
      ]

  final_cases :
      (left : ℕ) (x : Thrown)
      → retryable options ≡ true
      → ((is_final options left x ≡ true) × ((is_network x ≡ false) ⊎ (left ≡ 0)))
        ⊎ ((is_final options left x ≡ false) × (is_network x ≡ true) × (0 < left))
  unfolding is_final
  final_cases left x on = ground arith

  loop_answers :
      (left n : ℕ) (v : T)
      → fn n ≡ returned v
      → retry_loop fn options (suc left) n ≡ (returned v, called n ∷ [])
  unfolding retry_loop
  loop_answers left n v e = rw (e, retry_loop)

  loop_ends :
      (left n : ℕ) (x : Thrown)
      → fn n ≡ threw x
      → is_final options left x ≡ true
      → retry_loop fn options (suc left) n ≡ (threw x, called n ∷ [])
  unfolding retry_loop
  loop_ends left n x e final = rw (e, retry_loop, final)

  loop_goes_on :
      (left n : ℕ) (x : Thrown)
      → fn n ≡ threw x
      → is_final options left x ≡ false
      → retry_loop fn options (suc left) n
        ≡ wait_and_retry options n
            (delay_ms n (retry_after x) (options.random n))
            x
            (retry_loop fn options left (n + 1))
  unfolding retry_loop
  loop_goes_on left n x e more = rw (e, retry_loop, more)

  retry_loop-Run :
      (left n : ℕ)
      → retryable options ≡ true
      → left + n ≡ 3
      → let run = retry_loop fn options (suc left) n in Run n run.0 run.1
  retry_loop-Run zero n on total = elim (Outcome-cases (fn n)) [
    | inl (v, e) ↦ rw (loop_answers 0 n v e) (answers e)
    | inr (x, e) ↦ elim (final_cases 0 x on) [
      | inl (final, why) ↦ rw (loop_ends 0 n x e final) (gives_up e (inr (omega arith)))
      | inr (more, net, later) ↦ absurd (omega arith)
    ]
  ]
  retry_loop-Run (suc left) n on total = elim (Outcome-cases (fn n)) [
    | inl (v, e) ↦ rw (loop_answers (suc left) n v e) (answers e)
    | inr (x, e) ↦ elim (final_cases (suc left) x on) [
      | inl (final, why) ↦ rw (loop_ends (suc left) n x e final) (gives_up e (ground (arith, why)))
      | inr (more, net, later) ↦ rw (loop_goes_on (suc left) n x e more) (
          wait_and_retry-Run n x (retry_loop fn options (suc left) (n + 1)) (omega arith) e net
            (retry_loop-Run left (n + 1) on (omega arith)))
    ]
  ]

  with_retry_loop : retryable options ≡ true → with_retry fn options ≡ retry_loop fn options 3 1
  unfolding with_retry
  with_retry_loop on = rw on

  -- A retryable operation runs by the policy: at most three attempts, a next one only after a
  -- `NetworkError`, each wait inside its bounds, and `admit` may refuse it.
  pub with_retry-Run :
      retryable options ≡ true → let run = with_retry fn options in Run 1 run.0 run.1
  with_retry-Run on = rw (with_retry_loop on) (retry_loop-Run 2 1 on (omega arith))

  -- An operation that changes state, or one with retries switched off, is called exactly once, and
  -- its outcome is handed on: nothing is retried, announced or waited for.
  pub with_retry_once : retryable options ≡ false → with_retry fn options ≡ (fn 1, called 1 ∷ [])
  unfolding with_retry
  with_retry_once off = rw off (elim (Outcome-cases (fn 1)) [
    | inl (v, e) ↦ loop_answers 0 1 v e ∙ rw e
    | inr (x, e) ↦ loop_ends 0 1 x e (unfold is_final in rw off) ∙ rw e
  ])

-- How many times the operation was called.
abbrev pub calls : List Event → ℕ
calls [] = 0
calls (called n ∷ t) = calls t + 1
calls (_ ∷ t) = calls t

calls-announcement :
    (options : RetryOptions) (n delay : ℕ) (x : Thrown) (t : List Event)
    → calls (announcement options n delay x (slept delay ∷ t)) ≡ calls t
unfolding announcement
calls-announcement options n delay x t = ground arith

module _ {ℓ} {T : Type ℓ} (fn : ℕ → Outcome T) (options : RetryOptions) where
  Run-calls :
      {n : ℕ} {r : Outcome T} {t : List Event}
      → Run fn options n r t
      → n ≤ 3
      → (1 ≤ calls t) × (calls t + n ≤ 4)
  Run-calls (answers e) h = omega arith
  Run-calls (gives_up e why) h = omega arith
  Run-calls (is_refused delay early e net fits stops) h = omega arith
  Run-calls (retries {n = n} {e = x} {t = t} delay early e net fits passes r) h =
      omega (arith, Run-calls r (omega arith), calls-announcement options n delay x t)

  -- Every run calls the operation at least once and at most three times.
  pub with_retry-calls : let run = with_retry fn options in (1 ≤ calls run.1) × (calls run.1 ≤ 3)
  with_retry-calls = elim (Bool-cases (retryable options)) [
    | inl on ↦ omega (arith, Run-calls (with_retry-Run fn options on) (omega arith))
    | inr off ↦ rw (with_retry_once fn options off) (omega arith)
  ]
