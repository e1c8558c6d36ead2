-- ===== src/Amqp/Reactor/Handlers/Tests.antt =====
-- Groups of handlers (amqp/reactor/handlers.ts) at concrete inputs.
use axiam_typescript_sdk.Prelude.{◌≡◌, refl, String, false, List, [], ◌∷◌, none, some}
use axiam_typescript_sdk.Prelude.Int.{pos}
use axiam_typescript_sdk.Json.{from_list}
use axiam_typescript_sdk.Amqp.Reactor.Registry.{token_pre_issue, login_post_auth}
use axiam_typescript_sdk.Amqp.Reactor.Protocol.{ReactorEvent}
use axiam_typescript_sdk.Amqp.Reactor.Runtime.{settles, allows, denies}
use axiam_typescript_sdk.Amqp.Reactor.Handlers.{
  ReactorHandler, ReactorHandlerMap, bound, reactor_handlers,
}

abbrev allowing : ReactorHandler
allowing event = settles (allows false)

abbrev denying : ReactorHandler
denying event = settles (denies none)

abbrev groups : List ReactorHandlerMap
groups = ((token_pre_issue, some allowing) ∷ []) ∷ ((login_post_auth, some denying) ∷ []) ∷ []

abbrev table : List (String × ReactorHandler)
table = (token_pre_issue, allowing) ∷ (login_post_auth, denying) ∷ []

abbrev event : ReactorEvent
event = record {
  tenant_id = "t";
  event = login_post_auth;
  correlation_id = "c";
  payload = from_list [];
  timeout_ms = pos 100;
  key_version = pos 2;
  nonce = "n";
  issued_at = "date";
  hmac_signature = "07";
}

both_bound : reactor_handlers groups ≡ bound table
unfolding reactor_handlers
both_bound = refl
