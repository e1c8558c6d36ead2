-- ===== src/Amqp/Consumer/Accepts.antt =====
-- When amqp/consumer.ts hands a delivery to the handler, and how it settles each one.
use axiam_typescript_sdk.Prelude.{
  ℕ, suc, ◌≡◌, ◌≢◌, ◌↔◌, ◌⊎◌, ◌∙◌, inl, inr, refl, ap, String, Bool, true, false, List, [], ◌∷◌,
  Option, none, some, arith, Bool-cases, Option-cases, All,
}
use axiam_typescript_sdk.Json.{Json, null, bool, num, real, str, arr, obj, as_string}
use axiam_typescript_sdk.Amqp.Platform.{Platform}
use axiam_typescript_sdk.Amqp.Nonce.{NonceStore}
use axiam_typescript_sdk.Amqp.Consumer.{
  ReplayRejectReason, without, Effect, acked, nacked, Delivery, Dispatch, read, dispatch_signed,
  check_replay_protection, is_verified, run_handler, after_replay_check, dispatch_body,
  verify_and_dispatch,
}

-- How often a delivery is settled, for good.
abbrev pub settlements : List Effect → ℕ
settlements [] = 0
settlements (acked ∷ es) = suc (settlements es)
settlements (nacked all_up_to requeue ∷ es) = suc (settlements es)
settlements (_ ∷ es) = settlements es

-- No settlement reaches beyond the delivery or puts it back on the queue.
abbrev pub IsSingle : Effect → Type 0
IsSingle (nacked all_up_to requeue) = (all_up_to ≡ false) × (requeue ≡ false)
IsSingle _ = Unit {0}

-- A delivery is acked or nacked exactly once, alone and without requeue, and nothing is thrown.
abbrev pub IsSettled : {S : Type 0} → Dispatch S → Type 0
IsSettled r = (settlements r.effects ≡ 1) × All IsSingle r.effects × (r.threw ≡ false)

-- Every value but `null` can have its properties read.
read-throws : (k : String) (j : Json) → read k j ≡ none → j ≡ null
read-throws k null h = refl
read-throws k (bool b) h = cc
read-throws k (num n) h = cc
read-throws k (real n t) h = cc
read-throws k (str t) h = cc
read-throws k (arr vs) h = cc
read-throws k (obj fs) h = cc

module _ {S : Type 0} (platform : Platform) (nonces : NonceStore S) where
  open platform use {Key, parse_json, stringify, parse_date}

  module _ (key : Key) (handler : Json → Option String) (strict : Bool) (skew_ms now stored_at : ℕ)
      (d : Delivery) (s : S) where
    abbrev dispatched : Dispatch S
    dispatched = verify_and_dispatch platform nonces key handler strict skew_ms now stored_at d s

    run_handler-IsSettled :
        (body : Json) (s : S) → IsSettled (run_handler platform nonces handler body d s)
    unfolding run_handler
    run_handler-IsSettled body s = ground arith

    after_replay_check-IsSettled :
        (body : Json) (r : S × Option ReplayRejectReason)
        → IsSettled (after_replay_check platform nonces handler body d r)
    unfolding after_replay_check
    after_replay_check-IsSettled body (s, none) = run_handler-IsSettled body s
    after_replay_check-IsSettled body (s, some reason) = ground arith

    dispatch_signed-IsSettled :
        (signature : Option Json) (body : Json)
        → IsSettled (
            dispatch_signed platform nonces key handler strict skew_ms now stored_at d signature
              body s)
    unfolding dispatch_signed
    dispatch_signed-IsSettled signature body =
        elim (Bool-cases (is_verified platform nonces key strict (as_string signature) body)) [
          | inl good ↦ rw good (
              after_replay_check-IsSettled (without "hmac_signature" body) (
                check_replay_protection platform nonces now stored_at skew_ms
                  (without "hmac_signature" body) s))
          | inr bad ↦ rw bad (ground arith)
        ]

    dispatch_body-IsSettled :
        (body : Json)
        → body ≢ null
        → IsSettled
            (dispatch_body platform nonces key handler strict skew_ms now stored_at d body s)
    unfolding dispatch_body
    dispatch_body-IsSettled body present = elim (Option-cases (read "hmac_signature" body)) [
      | inl throws ↦ absurd (present (read-throws "hmac_signature" body throws))
      | inr (signature, e) ↦ rw (e, dispatch_body) (dispatch_signed-IsSettled signature body)
    ]

    -- Every delivery but a JSON `null` is acked or nacked exactly once, alone and without requeue,
    -- and nothing is thrown.
    pub verify_and_dispatch-IsSettled : parse_json d.content ≢ some null → IsSettled dispatched
    unfolding verify_and_dispatch
    verify_and_dispatch-IsSettled present = elim (Option-cases (parse_json d.content)) [
      | inl e ↦ rw (e, verify_and_dispatch) (ground arith)
      | inr (body, e) ↦
          rw (e, verify_and_dispatch) (dispatch_body-IsSettled body (λ n. present (e ∙ ap some n)))
    ]

    null_dispatch :
        parse_json d.content ≡ some null
        → (dispatched.threw ≡ true) × (settlements dispatched.effects ≡ 0)
    unfolding verify_and_dispatch dispatch_body
    null_dispatch e = rw (e, verify_and_dispatch) (refl, refl)

    -- Whether a delivery is a JSON `null`.
    null_or_not : (parse_json d.content ≡ some null) ⊎ (parse_json d.content ≢ some null)
    null_or_not = elim (Option-cases (parse_json d.content)) [
      | inl e ↦ inr (λ h. cc)
      | inr (body, e) ↦ elim (Option-cases (read "hmac_signature" body)) [
        | inl throws ↦ inl (e ∙ ap some (read-throws "hmac_signature" body throws))
        | inr (v, reads) ↦
            inr (λ h.
              let same : body ≡ null = cc (e, h) in cc (ap (read "hmac_signature") same, reads))
      ]
    ]

    -- The dispatch throws exactly on a JSON `null`, and it is exactly a JSON `null` that is neither acked nor
    -- nacked.
    pub verify_and_dispatch-throws_iff :
        ((dispatched.threw ≡ true) ↔ (parse_json d.content ≡ some null))
        × ((settlements dispatched.effects ≡ 0) ↔ (parse_json d.content ≡ some null))
    verify_and_dispatch-throws_iff = elim null_or_not [
      | inl empty ↦
          let (threw, unsettled) = null_dispatch empty in
          ((λ h. empty, λ h. threw), (λ h. empty, λ h. unsettled))
      | inr present ↦
          let (once, single, kept) = verify_and_dispatch-IsSettled present in
          (
            (λ h. cc (kept, h), λ h. absurd (present h)),
            (λ h. absurd (omega (arith, once, h)), λ h. absurd (present h)),
          )
    ]
