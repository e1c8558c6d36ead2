-- ===== src/Amqp/Nonce.antt =====
-- amqp/consumer.ts: the replay store of message nonces. The clock is an argument, in milliseconds.
pub mod Replay
mod Tests
use axiam_typescript_sdk.Prelude.{
  ℕ, ◌+◌, ◌≡◌, String, Bool, true, false, not, List, [], ◌∷◌, Option, none, some, leb, ltb,
  if◌then◌else◌,
}
use axiam_typescript_sdk.Prelude.Dict

-- The interface `NonceStore`: a store in a state of type `S`, which reads the clock.
pub record NonceStore (S : Type 0) : Type 0 where
  pub check_and_record : (now : ℕ) → (nonce : String) → (ttl_ms : ℕ) → S → S × Bool

-- `InMemoryNonceStore`: each nonce with the time until which it counts as seen.
abbrev pub SeenUntil : Type 0
SeenUntil = List (String × ℕ)

pub prune : ℕ → SeenUntil → SeenUntil
prune now seen = Dict.keep (λ expiry. not (leb expiry now)) seen

abbrev is_seen : ℕ → Option ℕ → Bool
is_seen now none = false
is_seen now (some expiry) = ltb now expiry

unfoldable pub check_and_record : ℕ → String → ℕ → SeenUntil → SeenUntil × Bool
unfolding prune
check_and_record now nonce ttl_ms seen =
    let pruned = prune now seen in
    if is_seen now (Dict.get nonce pruned)
    then (pruned, true)
    else (Dict.set nonce (now + ttl_ms) pruned, false)

abbrev pub in_memory : NonceStore SeenUntil
in_memory = record { check_and_record = check_and_record }
