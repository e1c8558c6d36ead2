-- ===== src/Rest/Retry.antt =====
-- rest/retry.ts: the bounded retry policy of the read-only operations.
-- A jitter fraction is a whole number of parts of `unit`, the grain of `Math.random`, and a wait is
-- counted in the same parts of a millisecond, so that the product is exact.
pub mod Policy
mod Tests
use axiam_typescript_sdk.Prelude.{
  ℕ, zero, suc, ◌+◌, ◌-◌, ◌*◌, ◌^◌, ◌≡◌, String, Bool, true, false, not, ◌&&◌, ◌||◌, List, [], ◌∷◌,
  Option, none, some, min, max, ◌==◌, if◌then◌else◌, or_else,
}
use axiam_typescript_sdk.Prelude.Int.{ℤ, pos_part}
use axiam_typescript_sdk.Core.Errors.{AxiamError, network, is_network_error, message_of}

abbrev pub max_attempts : ℕ
max_attempts = 3

abbrev pub base_delay_ms : ℕ
base_delay_ms = 200

abbrev pub max_delay_ms : ℕ
max_delay_ms = 5000

abbrev pub unit : ℕ
unit = 0x20000000000000

-- What an attempt throws: an error of the SDK with the `retryAfterMs` that it carries, if it does,
-- or any other value, by its text.
pub data Thrown : Type 0 where
  axiam : AxiamError → (retry_after_ms : Option ℕ) → Thrown
  other : String → Thrown

-- `err instanceof NetworkError`
abbrev pub is_network : Thrown → Bool
is_network (axiam e r) = is_network_error e
is_network (other s) = false

abbrev pub retry_after : Thrown → Option ℕ
retry_after (axiam e r) = r
retry_after (other s) = none

abbrev pub reason_of : Thrown → String
reason_of (axiam e r) = message_of e
reason_of (other s) = s

pub data Outcome {ℓ} (T : Type ℓ) : Type ℓ where
  returned : T → Outcome T
  threw : Thrown → Outcome T

pub record RetryOptions : Type 0 where
  pub idempotent : Bool
  pub operation : Option String
  -- `options.enabled !== false`
  pub enabled : Bool
  -- Whether a telemetry dispatcher was given.
  pub telemetry : Bool
  -- `none` lets the wait pass; otherwise what `admit` throws.
  pub admit : ℕ → Option Thrown
  -- The jitter drawn after each attempt.
  pub random : ℕ → ℤ

-- What can be seen from outside: the calls of `fn`, the `retry` events and the waits.
pub data Event : Type 0 where
  called : (attempt : ℕ) → Event
  retried : (operation : String) (attempt delay : ℕ) (reason : String) → Event
  slept : (delay : ℕ) → Event

-- Attempts count from 1.
pub backoff_ms : ℕ → ℕ
backoff_ms attempt = min max_delay_ms (base_delay_ms * 2 ^ (attempt - 1))

pub delay_ms : ℕ → Option ℕ → ℤ → ℕ
unfolding backoff_ms
delay_ms attempt none fraction = backoff_ms attempt * min (pos_part fraction) unit
delay_ms attempt (some ms) fraction =
    max (backoff_ms attempt * min (pos_part fraction) unit) (ms * unit)

pub retryable : RetryOptions → Bool
retryable options = options.idempotent && options.enabled

pub announcement : RetryOptions → ℕ → ℕ → Thrown → List Event → List Event
announcement options attempt delay e rest =
    if options.telemetry
    then retried (or_else options.operation "unknown") attempt delay (reason_of e) ∷ rest
    else rest

-- `!retryable || !(err instanceof NetworkError) || isLastAttempt`
pub is_final : RetryOptions → ℕ → Thrown → Bool
unfolding retryable
is_final options left e = not (retryable options) || (not (is_network e) || (left == 0))

module _ {ℓ} {T : Type ℓ} where
  -- After a failed attempt that is not final: `admit`, the event, the wait, and then `rest`.
  pub wait_and_retry :
      RetryOptions → ℕ → ℕ → Thrown → Outcome T × List Event → Outcome T × List Event
  unfolding announcement
  wait_and_retry options attempt delay e rest = elim (options.admit delay) [
    | some refusal ↦ (threw refusal, called attempt ∷ [])
    | none ↦ (rest.0, called attempt ∷ announcement options attempt delay e (slept delay ∷ rest.1))
  ]

  -- The loop, on the number of attempts left; `attempt` is the 1-based number of the next one.
  pub retry_loop : (ℕ → Outcome T) → RetryOptions → ℕ → ℕ → Outcome T × List Event
  unfolding is_final delay_ms wait_and_retry
  retry_loop fn options zero attempt =
      (threw (axiam (network "retry loop exhausted without a result" none) none), [])
  retry_loop fn options (suc left) attempt = elim (fn attempt) [
    | returned v ↦ (returned v, called attempt ∷ [])
    | threw e ↦
        let delay = delay_ms attempt (retry_after e) (options.random attempt) in
        let rest = retry_loop fn options left (attempt + 1) in
        if is_final options left e
        then (threw e, called attempt ∷ [])
        else wait_and_retry options attempt delay e rest
  ]

  pub with_retry : (ℕ → Outcome T) → RetryOptions → Outcome T × List Event
  unfolding retry_loop retryable
  with_retry fn options = retry_loop fn options (if retryable options then max_attempts else 1) 1
