-- ===== src/Amqp/Reactor/Runtime/Settled.antt =====
-- How amqp/reactor/runtime.ts settles each delivery.
use axiam_typescript_sdk.Prelude.{
  ℕ, suc, ◌+◌, ◌≡◌, ◌∙◌, inl, inr, refl, String, Bool, true, false, List, [], ◌∷◌, ◌++◌, Option,
  none, some, arith, str_eq, Bool-cases, Option-cases, All, All-append,
}
use axiam_typescript_sdk.Prelude.Int.{is_past}
use axiam_typescript_sdk.Amqp.Platform.{Platform}
use axiam_typescript_sdk.Amqp.Nonce.{NonceStore}
use axiam_typescript_sdk.Amqp.Reactor.Registry.{intercept, listen, ReactorMode, login_post_auth}
use axiam_typescript_sdk.Amqp.Reactor.Protocol.{
  ReactorEvent, ReplyInput, VerifyEventResult, verified, rejected, replayed_nonce, malformed,
  EventRejection,
}
use axiam_typescript_sdk.Amqp.Reactor.Runtime.{
  Effect, published, acked, nacked, warned, request_start, request_end, ReactorDelivery, Config,
  Moment, HandlerRun, settles, throws, outruns, ReactorDecision, allows, denies, mutates, abstains,
  answer_of, allow_input, deny_input, mutate_input, send, send_in_time, publish_answer,
  answer_in_mode, run_handler, reject, failure_warning, with_deadline, after_nonce_check,
  after_verification, dispatch_reactor_delivery, object_of,
}

-- How often the delivery is settled, for good.
abbrev pub settlements : List Effect → ℕ
settlements [] = 0
settlements (acked ∷ es) = suc (settlements es)
settlements (nacked all_up_to requeue ∷ es) = suc (settlements es)
settlements (_ ∷ es) = settlements es

-- No settlement reaches beyond the delivery or puts it back on the queue.
abbrev pub IsSingle : Effect → Type 0
IsSingle (nacked all_up_to requeue) = (all_up_to ≡ false) × (requeue ≡ false)
IsSingle _ = Unit {0}

abbrev pub IsSettled : List Effect → Type 0
IsSettled es = (settlements es ≡ 1) × All IsSingle es

-- Effects that settle nothing.
abbrev IsOpen : List Effect → Type 0
IsOpen es = (settlements es ≡ 0) × All IsSingle es

settlements-append :
    (es fs : List Effect) → settlements (es ++ fs) ≡ settlements es + settlements fs
settlements-append [] fs = omega arith
settlements-append (acked ∷ es) fs = omega (arith, settlements-append es fs)
settlements-append (nacked a r ∷ es) fs = omega (arith, settlements-append es fs)
settlements-append (warned w ∷ es) fs = settlements-append es fs
settlements-append (request_start l ∷ es) fs = settlements-append es fs
settlements-append (request_end l d o ∷ es) fs = settlements-append es fs
settlements-append (published q r c ∷ es) fs = settlements-append es fs

IsOpen-append : (es fs : List Effect) → IsOpen es → IsSettled fs → IsSettled (es ++ fs)
IsOpen-append es fs (none_, single) (one, also) =
    (settlements-append es fs ∙ omega (arith, none_, one), All-append IsSingle es fs single also)

failure_warning-IsOpen :
    (event : ReactorEvent) (ran : HandlerRun) → IsOpen (failure_warning event ran)
failure_warning-IsOpen event (settles decision) = (refl, tt)
failure_warning-IsOpen event (throws error) = (refl, (tt, tt))
failure_warning-IsOpen event outruns = (refl, (tt, tt))

reject-IsSettled : (r : EventRejection) (d : ReactorDelivery) → IsSettled (reject r d)
reject-IsSettled r d = ground arith

module _ (platform : Platform) where
  open platform use {Key, parse_json}

  module _ (config : Config Key) (moment : Moment) (d : ReactorDelivery)
      (event : ReactorEvent) where
    send-IsOpen :
        (input : ReplyInput) (reply_to : Option String)
        → IsOpen (send platform config moment d event input reply_to)
    unfolding send
    send-IsOpen input none = (refl, (tt, tt))
    send-IsOpen input (some reply_to) = elim (Bool-cases (str_eq reply_to "")) [
      | inl empty ↦ rw empty (refl, (tt, tt))
      | inr full ↦ rw full (refl, (tt, tt))
    ]

    send_in_time-IsOpen :
        (input : ReplyInput) → IsOpen (send_in_time platform config moment d event input)
    unfolding send_in_time
    send_in_time-IsOpen input =
        elim (Bool-cases (is_past moment.started_at event.timeout_ms moment.published_at)) [
          | inl late ↦ rw late (refl, (tt, tt))
          | inr early ↦ rw early (send-IsOpen input d.reply_to)
        ]

    -- Publishing or explaining leaves the delivery unsettled.
    publish_answer-IsOpen :
        (decision : ReactorDecision)
        → IsOpen (publish_answer platform config moment d event decision)
    unfolding publish_answer answer_of
    publish_answer-IsOpen abstains = (refl, tt)
    publish_answer-IsOpen (denies reason) = send_in_time-IsOpen (deny_input reason)
    publish_answer-IsOpen (mutates []) = (refl, (tt, tt))
    publish_answer-IsOpen (mutates (f ∷ patch)) = send_in_time-IsOpen (mutate_input (f ∷ patch))
    publish_answer-IsOpen (allows false) = send_in_time-IsOpen (allow_input false)
    publish_answer-IsOpen (allows true) = elim (Bool-cases (str_eq event.event login_post_auth)) [
      | inl login ↦ rw (login, publish_answer, answer_of) (send_in_time-IsOpen (allow_input true))
      | inr other ↦ rw (other, publish_answer, answer_of) (refl, (tt, tt))
    ]

    answer_in_mode-IsOpen :
        (mode : ReactorMode) (decision : Option ReactorDecision)
        → IsOpen (answer_in_mode platform mode config moment d event decision)
    answer_in_mode-IsOpen listen decision = (refl, tt)
    answer_in_mode-IsOpen intercept none = (refl, tt)
    answer_in_mode-IsOpen intercept (some decision) = publish_answer-IsOpen decision

    run_handler-IsSettled :
        (ran : HandlerRun) → IsSettled (run_handler platform config moment d event ran)
    unfolding run_handler
    run_handler-IsSettled ran =
        let (none_, single) = failure_warning-IsOpen event ran in
        let answer = answer_in_mode-IsOpen config.mode (with_deadline ran) in
        let end : IsSettled (
            answer_in_mode platform config.mode config moment d event (with_deadline ran)
            ++ acked ∷ []) =
          IsOpen-append _ _ answer (refl, (tt, tt)) in
        let (one, rest) =
          IsOpen-append _ (request_end _ _ _ ∷ _) (none_, single) (end.0, (tt, end.1)) in
        (one, (tt, rest))

  module _ {S : Type 0} (nonces : NonceStore S) where
    after_nonce_check-IsSettled :
        (config : Config Key) (moment : Moment) (d : ReactorDelivery) (event : ReactorEvent)
        (ran : HandlerRun) (r : S × Bool)
        → IsSettled (after_nonce_check platform nonces config moment d event ran r).1
    unfolding after_nonce_check
    after_nonce_check-IsSettled config moment d event ran (s, true) =
        reject-IsSettled replayed_nonce d
    after_nonce_check-IsSettled config moment d event ran (s, false) =
        elim (Bool-cases (str_eq event.tenant_id config.tenant_id)) [
          | inl own ↦ rw own (run_handler-IsSettled config moment d event ran)
          | inr foreign_ ↦ rw foreign_ (reject-IsSettled malformed d)
        ]

    after_verification-IsSettled :
        (config : Config Key) (handler : ReactorEvent → HandlerRun) (moment : Moment)
        (d : ReactorDelivery) (s : S) (v : VerifyEventResult)
        → IsSettled (after_verification platform nonces config handler moment d s v).1
    unfolding after_verification
    after_verification-IsSettled config handler moment d s (rejected r) = reject-IsSettled r d
    after_verification-IsSettled config handler moment d s (verified event) =
        after_nonce_check-IsSettled config moment d event (handler event) _

    -- Every delivery, whatever it holds and whatever the handler does, is acked or nacked exactly once,
    -- alone and without requeue.
    pub dispatch_reactor_delivery-IsSettled :
        (config : Config Key) (handler : ReactorEvent → HandlerRun) (moment : Moment)
        (d : ReactorDelivery) (s : S)
        → IsSettled (dispatch_reactor_delivery platform nonces config handler moment d s).1
    unfolding dispatch_reactor_delivery
    dispatch_reactor_delivery-IsSettled config handler moment d s =
        elim (Option-cases (object_of platform nonces (parse_json d.content))) [
          | inl none_ ↦ rw (none_, dispatch_reactor_delivery) (reject-IsSettled malformed d)
          | inr (body, found) ↦
              rw (found, dispatch_reactor_delivery)
                (after_verification-IsSettled config handler moment d s _)
        ]
