-- ===== src/Amqp/Reactor/Runtime/Replies.antt =====
-- The replies among the effects of amqp/reactor/runtime.ts, and the content of the reply to a decision.
use axiam_typescript_sdk.Prelude.{
  ◌≡◌, ◌≢◌, ◌↔◌, ◌⊎◌, inl, inr, refl, sym, ap, subst, String, true, false, List, [], ◌∷◌, ◌++◌,
  arith, str_eq, eq_iff, Bool-cases,
}
use axiam_typescript_sdk.Amqp.Reactor.Registry.{login_post_auth}
use axiam_typescript_sdk.Amqp.Reactor.Protocol.{ReactorEvent, ReactorReply, ReplyInput}
use axiam_typescript_sdk.Amqp.Reactor.Runtime.{
  Effect, published, acked, nacked, warned, request_start, request_end, settles, ReactorDecision,
  allows, denies, mutates, abstains, Answer, silent, answers, answer_of, allow_input, deny_input,
  mutate_input,
}

-- The reply is published to the queue, under this correlation id.
abbrev pub Publishes : String → ReactorReply → String → List Effect → Type 0
Publishes queue reply id [] = ⊥
Publishes queue reply id (published q r i ∷ es) =
    ((q ≡ queue) × (r ≡ reply) × (i ≡ id)) ⊎ Publishes queue reply id es
Publishes queue reply id (_ ∷ es) = Publishes queue reply id es

-- The content of the reply for a decision: nothing for an abstention or an empty patch, the whole
-- patch for a mutation, and a demand for a second factor only on the login event.
abbrev pub Answers : ReactorEvent → ReactorDecision → ReplyInput → Type 0
Answers event (allows true) input = (event.event ≡ login_post_auth) × (input ≡ allow_input true)
Answers event (allows false) input = input ≡ allow_input false
Answers event (denies reason) input = input ≡ deny_input reason
Answers event (mutates patch) input = (patch ≢ []) × (input ≡ mutate_input patch)
Answers event abstains input = ⊥

pub answers_injective : {i j : ReplyInput} → answers i ≡ answers j → i ≡ j
answers_injective e = cc

-- A reply with this content is built exactly for a decision that it answers: nothing answers an
-- abstention or an empty patch, a patch is passed on whole, and a demand for a second factor is
-- answered on the login event only.
pub answer_of_iff :
    (event : ReactorEvent) (decision : ReactorDecision) (input : ReplyInput)
    → (answer_of event decision ≡ answers input) ↔ Answers event decision input
unfolding answer_of
answer_of_iff event abstains input = (λ e. cc, λ h. absurd h)
answer_of_iff event (denies reason) input =
    (λ e. sym (answers_injective e), λ h. ap answers (sym h))
answer_of_iff event (mutates []) input = (λ e. cc, λ h. absurd (h.0 refl))
answer_of_iff event (mutates (f ∷ patch)) input =
    (λ e. (λ h. cc, sym (answers_injective e)), λ h. ap answers (sym h.1))
answer_of_iff event (allows false) input = (λ e. sym (answers_injective e), λ h. ap answers (sym h))
answer_of_iff event (allows true) input = elim (Bool-cases (str_eq event.event login_post_auth)) [
  | inl login ↦
      rw (login, answer_of)
        (
          (λ e. ((eq_iff event.event login_post_auth).0 login, sym (answers_injective e))),
          λ h. ap answers (sym h.1),
        )
  | inr other ↦
      rw (other, answer_of)
        (
          (λ e. cc),
          λ h. absurd (ground (arith, other, h.0, (eq_iff event.event login_post_auth).1 h.0)),
        )
]

pub Answer-cases :
    (a : Answer)
    → ((es : List Effect) × (a ≡ silent es)) ⊎ ((input : ReplyInput) × (a ≡ answers input))
Answer-cases (silent es) = inl (es, refl)
Answer-cases (answers input) = inr (input, refl)

pub silent_injective : {es fs : List Effect} → silent es ≡ silent fs → es ≡ fs
silent_injective e = cc

pub silent_answers : {es : List Effect} {input : ReplyInput} → silent es ≡ answers input → ⊥
silent_answers e = cc

pub settles_injective : {a b : ReactorDecision} → settles a ≡ settles b → a ≡ b
settles_injective e = cc

-- What explains a missing reply publishes none.
pub silent_lem :
    (event : ReactorEvent) (decision : ReactorDecision) (queue : String) (reply : ReactorReply)
    (id : String) (es : List Effect)
    → answer_of event decision ≡ silent es
    → ¬ Publishes queue reply id es
unfolding answer_of
silent_lem event abstains queue reply id es e h =
    subst (Publishes queue reply id) (sym (silent_injective e)) h
silent_lem event (mutates []) queue reply id es e h =
    subst (Publishes queue reply id) (sym (silent_injective e)) h
silent_lem event (mutates (f ∷ patch)) queue reply id es e h = cc
silent_lem event (denies reason) queue reply id es e h = cc
silent_lem event (allows false) queue reply id es e h = cc
silent_lem event (allows true) queue reply id es e h =
    elim (Bool-cases (str_eq event.event login_post_auth)) [
      | inl login ↦ absurd (silent_answers (sym (rw (login, answer_of) at e)))
      | inr other ↦
          subst (Publishes queue reply id) (sym (silent_injective (rw (other, answer_of) at e))) h
    ]

pub Publishes-append :
    (queue : String) (reply : ReactorReply) (id : String) (es fs : List Effect)
    → Publishes queue reply id (es ++ fs)
      ↔ (Publishes queue reply id es ⊎ Publishes queue reply id fs)
Publishes-append queue reply id [] fs = (inr, λ h. elim h [ inl x ↦ absurd x | inr x ↦ x ])
Publishes-append queue reply id (published q r i ∷ es) fs =
    let (f, g) = Publishes-append queue reply id es fs in
    (
      (λ h. elim h [
        | inl x ↦ inl (inl x)
        | inr x ↦ elim (f x) [ inl y ↦ inl (inr y) | inr y ↦ inr y ]
      ]),
      λ h. elim h [
        | inl x ↦ elim x [ inl y ↦ inl y | inr y ↦ inr (g (inl y)) ]
        | inr x ↦ inr (g (inr x))
      ],
    )
Publishes-append queue reply id (acked ∷ es) fs = Publishes-append queue reply id es fs
Publishes-append queue reply id (nacked a r ∷ es) fs = Publishes-append queue reply id es fs
Publishes-append queue reply id (warned w ∷ es) fs = Publishes-append queue reply id es fs
Publishes-append queue reply id (request_start l ∷ es) fs = Publishes-append queue reply id es fs
Publishes-append queue reply id (request_end l d o ∷ es) fs = Publishes-append queue reply id es fs
