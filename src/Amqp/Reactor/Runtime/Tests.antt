-- ===== src/Amqp/Reactor/Runtime/Tests.antt =====
-- The dispatch of amqp/reactor/runtime.ts at concrete inputs.
use axiam_typescript_sdk.Prelude.{ℕ, ◌↔◌, inl, refl, true, [], none, some}
use axiam_typescript_sdk.Prelude.Int.{pos}
use axiam_typescript_sdk.Json.{from_list}
use axiam_typescript_sdk.Amqp.Hmac.{verify_payload}
use axiam_typescript_sdk.Amqp.Samples.{platform}
use axiam_typescript_sdk.Amqp.Nonce.{in_memory, check_and_record}
use axiam_typescript_sdk.Amqp.Reactor.Registry.{intercept}
use axiam_typescript_sdk.Amqp.Reactor.Protocol.{ReactorEvent, ReactorReply}
use axiam_typescript_sdk.Amqp.Reactor.Runtime.{
  ReactorDelivery, Config, Moment, HandlerRun, settles, allows, allow_input, reply_for,
  dispatch_reactor_delivery,
}
use axiam_typescript_sdk.Amqp.Reactor.Runtime.Settled.{
  IsSettled, dispatch_reactor_delivery-IsSettled,
}
use axiam_typescript_sdk.Amqp.Reactor.Runtime.Replies.{Publishes}
use axiam_typescript_sdk.Amqp.Reactor.Runtime.Published.{
  IsAnswered, dispatch_reactor_delivery-published_iff,
}

abbrev config : Config ℕ
config = record { signing_key = 7; tenant_id = "t"; mode = intercept; skew_ms = 300 }

abbrev delivery : ReactorDelivery
delivery = record {
  content = "event";
  exchange = "e";
  routing_key = "r";
  reply_to = some "replies";
  correlation_id = none;
}

abbrev moment : Moment
moment = record {
  verified_at = 1100;
  recorded_at = 1100;
  started_at = 1101;
  ended_at = 1110;
  published_at = 1111;
  nonce = "m";
  issued_at = "now";
}

abbrev handler : ReactorEvent → HandlerRun
handler event = settles (allows true)

abbrev event : ReactorEvent
event = record {
  tenant_id = "t";
  event = "login.post_auth";
  correlation_id = "c";
  payload = from_list [];
  timeout_ms = pos 100;
  key_version = pos 2;
  nonce = "n";
  issued_at = "date";
  hmac_signature = "07";
}

abbrev reply : ReactorReply
reply = reply_for platform config moment event (allow_input true)

is_published :
    Publishes "replies" reply "c"
      (dispatch_reactor_delivery platform in_memory config handler moment delivery []).1
unfolding dispatch_reactor_delivery check_and_record verify_payload
is_published = inl (refl, refl, refl)

dispatch_reactor_delivery-published_iff_example :
    Publishes "replies" reply "c"
      (dispatch_reactor_delivery platform in_memory config handler moment delivery []).1
    ↔ IsAnswered platform in_memory config handler moment delivery [] "replies" reply "c"
dispatch_reactor_delivery-published_iff_example =
    dispatch_reactor_delivery-published_iff platform in_memory config handler moment delivery []
      "replies" reply "c"

dispatch_reactor_delivery-IsSettled_example :
    IsSettled (dispatch_reactor_delivery platform in_memory config handler moment delivery []).1
dispatch_reactor_delivery-IsSettled_example =
    dispatch_reactor_delivery-IsSettled platform in_memory config handler moment delivery []
