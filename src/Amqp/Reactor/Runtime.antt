-- ===== src/Amqp/Reactor/Runtime.antt =====
-- amqp/reactor/runtime.ts: one delivery, from verification to the published reply.
-- The effects are listed in order; where no logger or no telemetry hook is installed, its effects
-- go nowhere. The clock readings and the fresh values of a dispatch are arguments.
pub mod Settled
pub mod Replies
pub mod Sending
pub mod Published
mod Tests
use axiam_typescript_sdk.Prelude.{
  ℕ, zero, suc, ◌+◌, ◌-◌, ◌*◌, ◌^◌, ◌≤◌, ◌<◌, min, max, ◌≡◌, ◌≢◌, ◌↔◌, ◌∙◌, ◌⊎◌, inl, inr, refl,
  sym, ap, subst, String, Bool, true, false, not, ◌&&◌, ◌||◌, List, [], ◌∷◌, ◌++◌, map, Option,
  none, some, arith, str_eq, eq_iff, ltb, leb, ◌==◌, if◌then◌else◌, ltb→lt, lt→ltb, leb→le, le→leb,
  ==_iff, Bool-cases, Option-cases, or_else, is_some, length, length-append, All, All-append, any,
  contains,
}
use axiam_typescript_sdk.Prelude.Int.{ℤ, is_past}
use axiam_typescript_sdk.Json.{Json, obj, Fields, fields}
use axiam_typescript_sdk.Amqp.Platform.{Platform}
use axiam_typescript_sdk.Amqp.Nonce.{NonceStore}
use axiam_typescript_sdk.Amqp.Reactor.Registry.{
  ReactorMode, intercept, listen, ReactorEventSpec, login_post_auth, event_spec,
}
use axiam_typescript_sdk.Amqp.Reactor.Protocol.{
  ReactorEvent, EventRejection, malformed, replayed_nonce, VerifyEventResult, verified, rejected,
  verify_event, ReplyDecision, allow, deny, mutate, ReactorReply, ReplyInput, build_reactor_reply,
  reply_json, sign_reactor_reply,
}

pub data ReactorDecision : Type 0 where
  allows : (require_mfa : Bool) → ReactorDecision
  denies : (reason : Option String) → ReactorDecision
  mutates : (patch : List (String × String)) → ReactorDecision
  abstains : ReactorDecision

-- What becomes of the handler inside its window: it settles, it throws, or the timer fires first.
pub data HandlerRun : Type 0 where
  settles : ReactorDecision → HandlerRun
  throws : (error : String) → HandlerRun
  outruns : HandlerRun

pub data Warning : Type 0 where
  refused : EventRejection → (exchange routing_key : String) → Warning
  handler_failed :
      (event correlation_id : String) → (timeout_ms : ℤ) → (error : Option String) → Warning
  empty_patch require_mfa_not_supported : (event correlation_id : String) → Warning
  window_closed : (event correlation_id : String) → (timeout_ms : ℤ) → Warning
  no_reply_to : (correlation_id : String) → Warning

pub data Effect : Type 0 where
  warned : Warning → Effect
  request_start : (path_template : String) → Effect
  request_end : (path_template : String) → (duration_ms : ℕ) → (success : Bool) → Effect
  -- `sendToQueue`: the reply that is serialised, and the correlation id of the properties.
  published : (queue : String) → ReactorReply → (correlation_id : String) → Effect
  acked : Effect
  nacked : (all_up_to requeue : Bool) → Effect

-- A property that is not a string counts as absent.
pub record ReactorDelivery : Type 0 where
  pub content : String
  pub exchange : String
  pub routing_key : String
  pub reply_to : Option String
  pub correlation_id : Option String

pub record Config (Key : Type 0) : Type 0 where
  pub signing_key : Key
  pub tenant_id : String
  pub mode : ReactorMode
  pub skew_ms : ℕ

-- The readings of `Date.now()` in the order in which they are made, and what is drawn for a reply.
pub record Moment : Type 0 where
  pub verified_at : ℕ
  pub recorded_at : ℕ
  pub started_at : ℕ
  pub ended_at : ℕ
  pub published_at : ℕ
  pub nonce : String
  pub issued_at : String

abbrev reject : EventRejection → ReactorDelivery → List Effect
reject r d = warned (refused r d.exchange d.routing_key) ∷ nacked false false ∷ []

pub registry_label : String → String
registry_label name = elim (event_spec name) [ none ↦ "unknown_event" | some spec ↦ spec.name ]

-- `withDeadline`: the decision, or the error that the `catch` sees.
abbrev pub with_deadline : HandlerRun → Option ReactorDecision
with_deadline (settles decision) = some decision
with_deadline _ = none

abbrev failure_warning : ReactorEvent → HandlerRun → List Effect
failure_warning event (settles decision) = []
failure_warning event (throws error) =
    warned (handler_failed event.event event.correlation_id event.timeout_ms (some error)) ∷ []
failure_warning event outruns =
    warned (handler_failed event.event event.correlation_id event.timeout_ms none) ∷ []

-- The reply's content for a decision, or the warning that explains why there is none.
pub data Answer : Type 0 where
  silent : List Effect → Answer
  answers : ReplyInput → Answer

abbrev pub allow_input : Bool → ReplyInput
allow_input require_mfa = record {
  decision = allow;
  reason = none;
  patch = none;
  require_mfa = require_mfa;
}

abbrev pub deny_input : Option String → ReplyInput
deny_input reason = record { decision = deny; reason = reason; patch = none; require_mfa = false }

abbrev pub mutate_input : List (String × String) → ReplyInput
mutate_input patch = record {
  decision = mutate;
  reason = none;
  patch = some patch;
  require_mfa = false;
}

pub answer_of : ReactorEvent → ReactorDecision → Answer
answer_of event abstains = silent []
answer_of event (allows require_mfa) =
    if require_mfa && not (str_eq event.event login_post_auth)
    then silent (warned (require_mfa_not_supported event.event event.correlation_id) ∷ [])
    else answers (allow_input require_mfa)
answer_of event (denies reason) = answers (deny_input reason)
answer_of event (mutates []) = silent (warned (empty_patch event.event event.correlation_id) ∷ [])
answer_of event (mutates (f ∷ patch)) = answers (mutate_input (f ∷ patch))

module _ (platform : Platform) where
  open platform use {Key, parse_json}

  -- The reply that is signed and sent.
  pub reply_for : Config Key → Moment → ReactorEvent → ReplyInput → ReactorReply
  unfolding build_reactor_reply sign_reactor_reply
  reply_for config moment event input =
      sign_reactor_reply platform (build_reactor_reply event input moment.nonce moment.issued_at)
        config.signing_key

  send :
      Config Key
      → Moment
      → ReactorDelivery
      → ReactorEvent
      → ReplyInput
      → Option String
      → List Effect
  unfolding reply_for
  send config moment d event input none = warned (no_reply_to event.correlation_id) ∷ []
  send config moment d event input (some reply_to) =
      if str_eq reply_to ""
      then warned (no_reply_to event.correlation_id) ∷ []
      else published reply_to (reply_for config moment event input)
          (or_else d.correlation_id event.correlation_id)
        ∷ []

  send_in_time : Config Key → Moment → ReactorDelivery → ReactorEvent → ReplyInput → List Effect
  unfolding send
  send_in_time config moment d event input =
      if is_past moment.started_at event.timeout_ms moment.published_at
      then warned (window_closed event.event event.correlation_id event.timeout_ms) ∷ []
      else send config moment d event input d.reply_to

  pub publish_answer :
      Config Key → Moment → ReactorDelivery → ReactorEvent → ReactorDecision → List Effect
  unfolding answer_of send_in_time
  publish_answer config moment d event decision = elim (answer_of event decision) [
    | silent effects ↦ effects
    | answers input ↦ send_in_time config moment d event input
  ]

  -- After the telemetry: a listener publishes nothing, and so does a handler that failed.
  abbrev answer_in_mode :
      ReactorMode
      → Config Key
      → Moment
      → ReactorDelivery
      → ReactorEvent
      → Option ReactorDecision
      → List Effect
  answer_in_mode listen config moment d event decision = []
  answer_in_mode intercept config moment d event none = []
  answer_in_mode intercept config moment d event (some decision) =
      publish_answer config moment d event decision

  -- The event has passed every check.
  pub run_handler : Config Key → Moment → ReactorDelivery → ReactorEvent → HandlerRun → List Effect
  unfolding registry_label publish_answer
  run_handler config moment d event ran =
      let label = registry_label event.event in
      request_start label
      ∷ (failure_warning event ran
          ++ request_end label (moment.ended_at - moment.started_at) (is_some (with_deadline ran))
            ∷ (answer_in_mode config.mode config moment d event (with_deadline ran) ++ acked ∷ []))

  module _ {S : Type 0} (nonces : NonceStore S) where
    after_nonce_check :
        Config Key
        → Moment
        → ReactorDelivery
        → ReactorEvent
        → HandlerRun
        → S × Bool
        → S × List Effect
    unfolding run_handler
    after_nonce_check config moment d event ran (s, true) = (s, reject replayed_nonce d)
    after_nonce_check config moment d event ran (s, false) =
        if str_eq event.tenant_id config.tenant_id
        then (s, run_handler config moment d event ran)
        else (s, reject malformed d)

    after_verification :
        Config Key
        → (ReactorEvent → HandlerRun)
        → Moment
        → ReactorDelivery
        → S
        → VerifyEventResult
        → S × List Effect
    unfolding after_nonce_check
    after_verification config handler moment d s (rejected r) = (s, reject r d)
    after_verification config handler moment d s (verified event) =
        after_nonce_check config moment d event (handler event)
          (nonces.check_and_record moment.recorded_at event.nonce (config.skew_ms * 2) s)

    abbrev object_of : Option Json → Option Fields
    object_of (some (obj fs)) = some fs
    object_of _ = none

    -- A body that does not parse, and one that is not an object, are both malformed.
    pub dispatch_reactor_delivery :
        Config Key → (ReactorEvent → HandlerRun) → Moment → ReactorDelivery → S → S × List Effect
    unfolding after_verification verify_event
    dispatch_reactor_delivery config handler moment d s = elim (object_of (parse_json d.content)) [
      | none ↦ (s, reject malformed d)
      | some body ↦
          after_verification config handler moment d s (
            verify_event platform (fields body) config.signing_key moment.verified_at
              config.skew_ms)
    ]
