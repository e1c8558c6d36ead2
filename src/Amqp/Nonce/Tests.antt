-- ===== src/Amqp/Nonce/Tests.antt =====
-- The nonce store (amqp/consumer.ts) at concrete inputs.
use axiam_typescript_sdk.Prelude.{◌+◌, ◌<◌, ◌≡◌, refl, true, false, List, [], ◌∷◌, arith, All}
use axiam_typescript_sdk.Prelude.Dict.{Distinct}
use axiam_typescript_sdk.Amqp.Nonce.{SeenUntil, check_and_record}
use axiam_typescript_sdk.Amqp.Nonce.Replay.{Check, run, accepted_once}

abbrev seen : SeenUntil
seen = ("old", 50) ∷ ("other", 900) ∷ []

seen-Distinct : Distinct seen
seen-Distinct = ground arith

is_new : (check_and_record 100 "n" 600 seen).1 ≡ false
unfolding check_and_record
is_new = refl

abbrev between : List Check
between = (200, "m", 600) ∷ (300, "n", 5) ∷ []

between_early : All (λ c. c.0 < 100 + 600) between
between_early = ground arith

later_early : 650 < 100 + 600
later_early = omega arith

accepted_once_example :
    (check_and_record 650 "n" 600 (run (check_and_record 100 "n" 600 seen).0 between)).1 ≡ true
accepted_once_example =
    accepted_once seen 100 "n" 600 between 650 600 seen-Distinct is_new between_early later_early

ttl_is_positive : 0 < 600
ttl_is_positive = omega arith
