-- ===== src/Amqp/Consumer/Tests.antt =====
-- The dispatch of amqp/consumer.ts at concrete inputs.
use axiam_typescript_sdk.Prelude.{
  ◌+◌, ◌*◌, ◌≡◌, ◌≤◌, ◌≢◌, ◌↔◌, inl, refl, String, true, [], Option, none, some, arith,
}
use axiam_typescript_sdk.Prelude.Int.{ℤ, pos}
use axiam_typescript_sdk.Json.{Json, null, property, as_string}
use axiam_typescript_sdk.Amqp.Samples.{platform, body}
use axiam_typescript_sdk.Amqp.Hmac.{verify_payload}
use axiam_typescript_sdk.Amqp.Nonce.{SeenUntil, in_memory, check_and_record}
use axiam_typescript_sdk.Amqp.Nonce.Replay.{run}
use axiam_typescript_sdk.Amqp.Consumer.{
  Delivery, verify_and_dispatch, check_replay_protection, issued_of, without,
}
use axiam_typescript_sdk.Amqp.Consumer.Accepts.{
  IsSettled, verify_and_dispatch-IsSettled, settlements, verify_and_dispatch-throws_iff,
}
use axiam_typescript_sdk.Amqp.Consumer.Handler.{Handles, IsAuthentic, IsCurrent, handled_only_if}
use axiam_typescript_sdk.Amqp.Consumer.Edge.{NearEdges, gates, replay_only_at_edge, edge_is_open}

abbrev delivery : Delivery
delivery = record { content = "message"; exchange = "e"; routing_key = "r" }

abbrev handler : Json → Option String
handler value = none

not_null : platform.parse_json delivery.content ≢ some null
not_null e = cc e

verify_and_dispatch-IsSettled_example :
    IsSettled (verify_and_dispatch platform in_memory 7 handler true 300 1100 1100 delivery [])
verify_and_dispatch-IsSettled_example =
    verify_and_dispatch-IsSettled platform in_memory 7 handler true 300 1100 1100 delivery []
      not_null

is_handled :
    Handles body
      (verify_and_dispatch platform in_memory 7 handler true 300 1100 1101 delivery []).effects
unfolding verify_and_dispatch check_and_record verify_payload
is_handled = inl refl

handled_only_if_example :
    (parsed : Json) × (platform.parse_json delivery.content ≡ some parsed)
    × (without "hmac_signature" parsed ≡ body)
    × IsAuthentic platform in_memory 7 handler true parsed
    × IsCurrent platform in_memory 1100 1101 300 [] body
handled_only_if_example =
    handled_only_if platform in_memory 7 handler true 300 1100 1101 delivery [] body is_handled

abbrev empty_store : SeenUntil
empty_store = []

-- The issue time is 1000: the window of 300 opens at 700 and closes at 1300. The first pass is a
-- millisecond late, and so is the nonce check of the second.
first_passes : (gates platform 701 701 300 body empty_store).1 ≡ none
unfolding check_replay_protection check_and_record
first_passes = refl

second_passes :
    (gates platform 1300 1301 300 body (run (gates platform 701 701 300 body empty_store).0 [])).1
    ≡ none
unfolding check_replay_protection check_and_record run
second_passes = refl

replay_only_at_edge_example :
    (issued : ℤ) × (issued_of platform in_memory (as_string (property "issued_at" body))
      ≡ some issued)
    × (701 + 300 * 2 ≤ 1301)
    × NearEdges platform issued 300 701 1300 1301
replay_only_at_edge_example =
    replay_only_at_edge platform 300 701 701 1300 1301 body empty_store [] tt (ground arith)
      first_passes (ground arith) second_passes

is_dated :
    issued_of platform in_memory (as_string (property "issued_at" body)) ≡ some (pos (700 + 300))
unfolding issued_of
is_dated = refl

passes_at_opening : (gates platform 700 700 300 body empty_store).1 ≡ none
unfolding check_replay_protection check_and_record
passes_at_opening = refl

edge_is_open_example :
    (gates platform
      (700 + 300 * 2)
      (700 + 300 * 2)
      300
      body
      (gates platform 700 700 300 body empty_store).0).1
    ≡ none
edge_is_open_example = edge_is_open platform 300 700 body empty_store tt is_dated passes_at_opening

abbrev null_delivery : Delivery
null_delivery = record delivery { content = "null" }

verify_and_dispatch-throws_iff_example :
    (((verify_and_dispatch platform in_memory 7 handler true 300 1100 1100 null_delivery
          empty_store).threw
        ≡ true)
      ↔ (platform.parse_json null_delivery.content ≡ some null))
    × ((settlements
            (verify_and_dispatch platform in_memory 7 handler true 300 1100 1100 null_delivery
              empty_store).effects
          ≡ 0)
        ↔ (platform.parse_json null_delivery.content ≡ some null))
verify_and_dispatch-throws_iff_example =
    verify_and_dispatch-throws_iff platform in_memory 7 handler true 300 1100 1100 null_delivery
      empty_store
