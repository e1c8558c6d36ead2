-- ===== src/Rest/Retry/Tests.antt =====
-- The retry policy (rest/retry.ts) at concrete inputs.
use axiam_typescript_sdk.Prelude.{ℕ, ◌≡◌, refl, String, true, false, none, some, ltb, if◌then◌else◌}
use axiam_typescript_sdk.Prelude.Int.{pos}
use axiam_typescript_sdk.Core.Errors.{network}
use axiam_typescript_sdk.Rest.Retry.{
  axiam, Outcome, returned, threw, RetryOptions, retryable, with_retry,
}
use axiam_typescript_sdk.Rest.Retry.Policy.{Run, with_retry-Run}

-- It answers on the third call.
abbrev flaky : ℕ → Outcome String
flaky n = if ltb n 3 then threw (axiam (network "down" none) (some 700)) else returned "up"

abbrev reading : RetryOptions
reading = record {
  idempotent = true;
  operation = some "users.get";
  enabled = true;
  telemetry = true;
  admit = λ delay. none;
  random = λ attempt. pos 5;
}

abbrev writing : RetryOptions
writing = record reading { idempotent = false }

answers_third : (with_retry flaky reading).0 ≡ returned "up"
unfolding with_retry
answers_third = refl

reads_retry : retryable reading ≡ true
unfolding retryable
reads_retry = refl

writes_do_not : retryable writing ≡ false
unfolding retryable
writes_do_not = refl

with_retry-Run_example : let run = with_retry flaky reading in Run flaky reading 1 run.0 run.1
with_retry-Run_example = with_retry-Run flaky reading reads_retry
