-- ===== src/Amqp/Reactor/Runtime/Sending.antt =====
-- When the handler of amqp/reactor/runtime.ts has an answer that is sent.
use axiam_typescript_sdk.Prelude.{
  ◌≡◌, ◌≢◌, ◌↔◌, ◌∙◌, inl, inr, refl, sym, ap, subst, String, false, [], ◌∷◌, ◌++◌, some, arith,
  str_eq, eq_iff, Bool-cases, Option-cases, or_else,
}
use axiam_typescript_sdk.Prelude.Int.{is_past}
use axiam_typescript_sdk.Amqp.Platform.{Platform}
use axiam_typescript_sdk.Amqp.Reactor.Registry.{intercept, listen, ReactorMode}
use axiam_typescript_sdk.Amqp.Reactor.Protocol.{ReactorEvent, ReactorReply, ReplyInput}
use axiam_typescript_sdk.Amqp.Reactor.Runtime.{
  acked, request_end, ReactorDelivery, Config, Moment, HandlerRun, settles, throws, outruns,
  ReactorDecision, answer_of, reply_for, send, send_in_time, publish_answer, answer_in_mode,
  run_handler, failure_warning, with_deadline,
}
use axiam_typescript_sdk.Amqp.Reactor.Runtime.Replies.{
  Publishes, Answers, answer_of_iff, answers_injective, Answer-cases, silent_answers, silent_lem,
  settles_injective, Publishes-append,
}

module _ (platform : Platform) where
  open platform use {Key, parse_json}

  module _ (config : Config Key) (moment : Moment) (d : ReactorDelivery) (queue : String)
      (reply : ReactorReply) (id : String) where
    module _ (event : ReactorEvent) where
      -- A reply is sent in time, to a queue that has a name.
      abbrev pub IsSent : ReplyInput → Type 0
      IsSent input =
          (is_past moment.started_at event.timeout_ms moment.published_at ≡ false)
          × (d.reply_to ≡ some queue)
          × (queue ≢ "")
          × (reply ≡ reply_for platform config moment event input)
          × (id ≡ or_else d.correlation_id event.correlation_id)

      send_in_time-IsSent :
          (input : ReplyInput)
          → Publishes queue reply id (send_in_time platform config moment d event input)
          → IsSent input
      unfolding send_in_time send
      send_in_time-IsSent input h =
          elim (Bool-cases (is_past moment.started_at event.timeout_ms moment.published_at)) [
            | inl late ↦ absurd (rw (late, send_in_time) at h)
            | inr early ↦ elim (Option-cases d.reply_to) [
              | inl absent ↦ absurd (rw (early, absent, send_in_time, send) at h)
              | inr (r, found) ↦ elim (Bool-cases (str_eq r "")) [
                | inl empty ↦ absurd (rw (early, found, empty, send_in_time, send) at h)
                | inr full ↦ elim (rw (early, found, full, send_in_time, send) at h) [
                  | inl (same_queue, same_reply, same_id) ↦ (
                    early,
                    found ∙ ap some same_queue,
                    (λ e. absurd (ground (arith, (eq_iff r "").1 (same_queue ∙ e), full))),
                    sym same_reply,
                    sym same_id,
                  )
                  | inr none_ ↦ absurd none_
                ]
              ]
            ]
          ]

      IsSent-send_in_time :
          (input : ReplyInput)
          → IsSent input
          → Publishes queue reply id (send_in_time platform config moment d event input)
      unfolding send_in_time send
      IsSent-send_in_time input (early, found, full, same_reply, same_id) =
          elim (Bool-cases (str_eq queue "")) [
            | inl empty ↦ absurd (full ((eq_iff queue "").0 empty))
            | inr named ↦
                rw (early, found, named, send_in_time, send)
                  (inl (refl, sym same_reply, sym same_id))
          ]

      publish_answer_iff :
          (decision : ReactorDecision)
          → Publishes queue reply id (publish_answer platform config moment d event decision)
            ↔ ((input : ReplyInput) × Answers event decision input × IsSent input)
      unfolding publish_answer
      publish_answer_iff decision = elim (Answer-cases (answer_of event decision)) [
        | inl (es, e) ↦ (
          (λ h.
              absurd (silent_lem event decision queue reply id es e (rw (e, publish_answer) at h))),
          λ (input, content, sent).
              absurd (silent_answers (sym e ∙ (answer_of_iff event decision input).1 content)),
        )
        | inr (input, e) ↦ (
          (λ h. (
            input,
            (answer_of_iff event decision input).0 e,
            send_in_time-IsSent input (rw (e, publish_answer) at h),
          )),
          λ (other, content, sent).
              rw (e, publish_answer)
                (IsSent-send_in_time input (
                  subst IsSent
                    (answers_injective (sym ((answer_of_iff event decision other).1 content) ∙ e))
                    sent)),
        )
      ]

      -- The handler settled on a decision that a reply answers, and the reply is sent.
      abbrev pub IsReplied : ReactorMode → HandlerRun → Type 0
      IsReplied mode ran =
          (mode ≡ intercept)
          × (decision : ReactorDecision) × (ran ≡ settles decision)
          × (input : ReplyInput) × Answers event decision input
          × IsSent input

      warned_only : (ran : HandlerRun) → ¬ Publishes queue reply id (failure_warning event ran)
      warned_only (settles decision) h = h
      warned_only (throws error) h = h
      warned_only outruns h = h

      answer_in_mode_iff :
          (mode : ReactorMode) (ran : HandlerRun)
          → Publishes queue reply id
              (answer_in_mode platform mode config moment d event (with_deadline ran))
            ↔ IsReplied mode ran
      answer_in_mode_iff listen ran = ((λ h. absurd h), λ h. absurd (ground (arith, h.0)))
      answer_in_mode_iff intercept (settles decision) = (
        (λ h.
            let (input, content, sent) = (publish_answer_iff decision).0 h in
            (refl, decision, refl, input, content, sent)),
        λ (_, other, same, input, content, sent).
            (publish_answer_iff decision).1 (input, rw (settles_injective same) content, sent),
      )
      answer_in_mode_iff intercept (throws error) =
          ((λ h. absurd h), λ (_, other, same, _, _, _). absurd (ground (arith, same)))
      answer_in_mode_iff intercept outruns =
          ((λ h. absurd h), λ (_, other, same, _, _, _). absurd (ground (arith, same)))

      pub run_handler_iff :
          (ran : HandlerRun)
          → Publishes queue reply id (run_handler platform config moment d event ran)
            ↔ IsReplied config.mode ran
      unfolding run_handler
      run_handler_iff ran =
          let answer =
            answer_in_mode platform config.mode config moment d event (with_deadline ran) in
          let (split, join) =
            Publishes-append queue reply id (failure_warning event ran)
              (request_end _ _ _ ∷ (answer ++ acked ∷ [])) in
          let (split_, join_) = Publishes-append queue reply id answer (acked ∷ []) in
          (
            (λ h. elim (split h) [
              | inl w ↦ absurd (warned_only ran w)
              | inr rest ↦ elim (split_ rest) [
                | inl sent ↦ (answer_in_mode_iff config.mode ran).0 sent
                | inr none_ ↦ absurd none_
              ]
            ]),
            λ h. join (inr (join_ (inl ((answer_in_mode_iff config.mode ran).1 h)))),
          )
