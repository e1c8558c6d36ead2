-- ===== src/Amqp/Reactor/Protocol/Tests.antt =====
-- The reactor protocol (amqp/reactor/protocol.ts) at concrete inputs.
use axiam_typescript_sdk.Prelude.{◌≡◌, ◌↔◌, refl, String, true, List, [], ◌∷◌, none, arith}
use axiam_typescript_sdk.Prelude.Int.{pos}
use axiam_typescript_sdk.Prelude.Dict.{Distinct}
use axiam_typescript_sdk.Json.{from_list}
use axiam_typescript_sdk.Amqp.Hmac.{verify_payload}
use axiam_typescript_sdk.Amqp.Samples.{platform, event_fields, hmac-bytes}
use axiam_typescript_sdk.Amqp.Reactor.Protocol.{
  ReactorEvent, ReactorReply, verified, verify_event, allow, build_reactor_reply,
  sign_reactor_reply, reactor_reply_signature_valid, canonical_reply_text,
}
use axiam_typescript_sdk.Amqp.Reactor.Protocol.Verified.{IsVerified, verify_event_iff}
use axiam_typescript_sdk.Amqp.Reactor.Protocol.Signing.{signature_valid-sign_iff}

abbrev event : ReactorEvent
event = record {
  tenant_id = "t";
  event = "login.post_auth";
  correlation_id = "c";
  payload = from_list [];
  timeout_ms = pos 100;
  key_version = pos 2;
  nonce = "n";
  issued_at = "date";
  hmac_signature = "07";
}

is_verified : verify_event platform event_fields 7 1100 300 ≡ verified event
unfolding verify_event verify_payload
is_verified = refl

verify_event_iff_example :
    (verify_event platform event_fields 7 1100 300 ≡ verified event)
    ↔ IsVerified platform 7 1100 300 event_fields event
verify_event_iff_example = verify_event_iff platform 7 1100 300 event_fields event

abbrev patch : List (String × String)
patch = ("claims.team", "a") ∷ ("claims.area", "b") ∷ []

patch-Distinct : Distinct patch
patch-Distinct = ground arith

abbrev reply : ReactorReply
reply =
    build_reactor_reply event
      (record { decision = allow; reason = none; patch = none; require_mfa = true }) "m" "now"

signature_valid-sign_iff_example :
    (reactor_reply_signature_valid platform (sign_reactor_reply platform reply 7) 8 ≡ true) ↔ (
      platform.hmac 7 (canonical_reply_text platform reply)
      ≡ platform.hmac 8 (canonical_reply_text platform reply))
signature_valid-sign_iff_example = signature_valid-sign_iff platform hmac-bytes reply 7 8
