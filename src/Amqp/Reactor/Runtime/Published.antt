-- ===== src/Amqp/Reactor/Runtime/Published.antt =====
-- When amqp/reactor/runtime.ts publishes a reply, and which.
use axiam_typescript_sdk.Prelude.{
  ◌*◌, ◌≡◌, ◌≢◌, ◌↔◌, ◌⊎◌, inl, inr, refl, String, Bool, true, false, Option, some, arith, str_eq,
  eq_iff, Bool-cases, Option-cases, or_else,
}
use axiam_typescript_sdk.Prelude.Int.{is_past}
use axiam_typescript_sdk.Json.{Json, obj, Fields, fields}
use axiam_typescript_sdk.Amqp.Platform.{Platform}
use axiam_typescript_sdk.Amqp.Nonce.{NonceStore}
use axiam_typescript_sdk.Amqp.Reactor.Registry.{intercept}
use axiam_typescript_sdk.Amqp.Reactor.Protocol.{
  ReactorEvent, ReactorReply, ReplyInput, VerifyEventResult, verified, rejected, verify_event,
  EventRejection,
}
use axiam_typescript_sdk.Amqp.Reactor.Protocol.Verified.{IsVerified, verify_event_iff}
use axiam_typescript_sdk.Amqp.Reactor.Runtime.{
  ReactorDelivery, Config, Moment, HandlerRun, settles, ReactorDecision, reply_for,
  after_nonce_check, after_verification, dispatch_reactor_delivery, object_of,
}
use axiam_typescript_sdk.Amqp.Reactor.Runtime.Replies.{Publishes, Answers}
use axiam_typescript_sdk.Amqp.Reactor.Runtime.Sending.{IsReplied, run_handler_iff}

module _ (platform : Platform) where
  open platform use {Key, parse_json}

  -- What stands behind a published reply: the delivery's body, its verified event, a decision that
  -- the handler settled in its window, and a place to send the answer to before the event's deadline.
  pub record IsAnswered {S : Type 0} (nonces : NonceStore S) (config : Config Key)
      (handler : ReactorEvent → HandlerRun) (moment : Moment) (d : ReactorDelivery) (s : S)
      (queue : String) (reply : ReactorReply) (id : String) : Type 0 where
    pub body : Fields
    pub parsed : parse_json d.content ≡ some (obj body)
    pub event : ReactorEvent
    pub is_verified :
        IsVerified platform config.signing_key moment.verified_at config.skew_ms (fields body) event
    pub unseen :
        (nonces.check_and_record moment.recorded_at event.nonce (config.skew_ms * 2) s).1 ≡ false
    pub own : event.tenant_id ≡ config.tenant_id
    pub intercepts : config.mode ≡ intercept
    pub decision : ReactorDecision
    pub settled : handler event ≡ settles decision
    pub input : ReplyInput
    pub content : Answers event decision input
    pub built : reply ≡ reply_for platform config moment event input
    pub in_time : is_past moment.started_at event.timeout_ms moment.published_at ≡ false
    pub addressed : d.reply_to ≡ some queue
    pub named : queue ≢ ""
    pub correlated : id ≡ or_else d.correlation_id event.correlation_id

  module _ {S : Type 0} (nonces : NonceStore S) where
    module _ (config : Config Key) (handler : ReactorEvent → HandlerRun) (moment : Moment)
        (d : ReactorDelivery) (s : S) (queue : String) (reply : ReactorReply) (id : String) where
      after_nonce_check_iff :
          (event : ReactorEvent) (r : S × Bool)
          → Publishes queue reply id
              (after_nonce_check platform nonces config moment d event (handler event) r).1
            ↔ ((r.1 ≡ false)
                × (event.tenant_id ≡ config.tenant_id)
                × IsReplied platform config moment d queue reply id event config.mode
                    (handler event))
      unfolding after_nonce_check
      after_nonce_check_iff event (s, true) =
          ((λ h. absurd h), λ (seen, _, _). absurd (ground (arith, seen)))
      after_nonce_check_iff event (s, false) =
          elim (Bool-cases (str_eq event.tenant_id config.tenant_id)) [
            | inl own ↦ rw own (
              (λ h. (
                refl,
                (eq_iff event.tenant_id config.tenant_id).0 own,
                (run_handler_iff platform config moment d queue reply id event (handler event)).0 h,
              )),
              λ (_, _, h).
                  (run_handler_iff platform config moment d queue reply id event (handler event)).1
                    h,
            )
            | inr strange ↦ rw strange (
              (λ h. absurd h),
              λ (_, own, _).
                  absurd (ground (arith, strange, (eq_iff event.tenant_id config.tenant_id).1 own)),
            )
          ]

      verify_cases :
          (v : VerifyEventResult)
          → ((r : EventRejection) × (v ≡ rejected r))
            ⊎ ((event : ReactorEvent) × (v ≡ verified event))
      verify_cases (rejected r) = inl (r, refl)
      verify_cases (verified event) = inr (event, refl)

      object_of_lem :
          (j : Option Json) (body : Fields)
          → object_of platform nonces j ≡ some body
          → j ≡ some (obj body)
      object_of_lem (some (obj fs)) body e = cc
      object_of_lem j body e = cc

      verified_injective : {e f : ReactorEvent} → verified e ≡ verified f → e ≡ f
      verified_injective e = cc

      after_verification-IsAnswered :
          (body : Fields)
          → parse_json d.content ≡ some (obj body)
          → Publishes queue reply id
              (after_verification platform nonces config handler moment d s (
                verify_event platform
                  (fields body)
                  config.signing_key
                  moment.verified_at
                  config.skew_ms)).1
          → IsAnswered nonces config handler moment d s queue reply id
      unfolding after_verification
      after_verification-IsAnswered body parsed h =
          elim (verify_cases (
            verify_event platform (fields body) config.signing_key moment.verified_at
              config.skew_ms)) [
                | inl (r, bad) ↦ absurd (rw (bad, after_verification) at h)
                | inr (event, good) ↦
                    let (unseen, own, replied) =
                      (after_nonce_check_iff event (
                          nonces.check_and_record moment.recorded_at event.nonce
                            (config.skew_ms * 2) s)).0
                        (rw (good, after_verification) at h) in
                    let (intercepts, decision, settled, input, content, sent) = replied in
                    let (in_time, addressed, named, built, correlated) = sent in
                    record {
                      body = body;
                      parsed = parsed;
                      event = event;
                      is_verified =
                          (verify_event_iff platform config.signing_key moment.verified_at
                              config.skew_ms (fields body) event).0
                            good;
                      unseen = unseen;
                      own = own;
                      intercepts = intercepts;
                      decision = decision;
                      settled = settled;
                      input = input;
                      content = content;
                      built = built;
                      in_time = in_time;
                      addressed = addressed;
                      named = named;
                      correlated = correlated;
                    }
              ]

      -- A reply is published exactly if the delivery is a body whose event passes every check
      -- (version, MAC, freshness), whose nonce the store has not seen and whose tenant is the
      -- reactor's, the reactor intercepts, the handler settles in its window on a decision that
      -- has a reply, the clock stands before the event's deadline, and the delivery names a queue
      -- to reply to; the reply is then the signed one for that event and decision.
      pub dispatch_reactor_delivery-published_iff :
          Publishes queue reply id
            (dispatch_reactor_delivery platform nonces config handler moment d s).1
          ↔ IsAnswered nonces config handler moment d s queue reply id
      unfolding dispatch_reactor_delivery
      dispatch_reactor_delivery-published_iff = (
        (λ h. elim (Option-cases (object_of platform nonces (parse_json d.content))) [
          | inl none_ ↦ absurd (rw (none_, dispatch_reactor_delivery) at h)
          | inr (body, found) ↦
              after_verification-IsAnswered body (object_of_lem (parse_json d.content) body found)
                (rw (found, dispatch_reactor_delivery) at h)
        ]),
        λ a.
            rw (a.parsed, dispatch_reactor_delivery)
              (rw
                (
                  (verify_event_iff platform config.signing_key moment.verified_at config.skew_ms
                        (fields a.body) a.event).1
                      a.is_verified,
                  after_verification,
                )
                ((after_nonce_check_iff a.event (
                    nonces.check_and_record moment.recorded_at a.event.nonce (config.skew_ms * 2)
                      s)).1
                  (
                    a.unseen,
                    a.own,
                    (
                      a.intercepts,
                      a.decision,
                      a.settled,
                      a.input,
                      a.content,
                      (a.in_time, a.addressed, a.named, a.built, a.correlated),
                    ),
                  ))),
      )
