-- ===== src/Amqp/Consumer/Handler.antt =====
-- What the handler of amqp/consumer.ts may rely on.
use axiam_typescript_sdk.Prelude.{
  ℕ, ◌*◌, ◌≤◌, ◌≡◌, ◌⊎◌, inl, inr, refl, ap, subst, String, Bool, true, false, List, [], ◌∷◌,
  Option, none, some, arith, str_eq, leb→le, Bool-cases, Option-cases,
}
use axiam_typescript_sdk.Prelude.Int.{ℤ, distance}
use axiam_typescript_sdk.Json.{Json, null, bool, num, real, str, arr, obj, property, as_string}
use axiam_typescript_sdk.Amqp.Platform.{Platform}
use axiam_typescript_sdk.Amqp.Hmac.{verify_payload}
use axiam_typescript_sdk.Amqp.Nonce.{NonceStore}
use axiam_typescript_sdk.Amqp.Consumer.{
  ReplayRejectReason, is_old_key_version, without, Effect, handled, is_fresh_at, record_nonce,
  Delivery, read, dispatch_signed, issued_of, check_replay_protection, is_verified, run_handler,
  after_replay_check, dispatch_body, verify_and_dispatch,
}

-- The handler is called with this body.
abbrev pub Handles : Json → List Effect → Type 0
Handles body [] = ⊥
Handles body (handled other ∷ es) = (other ≡ body) ⊎ Handles body es
Handles body (_ ∷ es) = Handles body es

module _ {S : Type 0} (platform : Platform) (nonces : NonceStore S) where
  open platform use {Key, parse_json, stringify}

  -- The replay gates: the key version, the freshness in both directions, and a nonce not seen.
  pub record IsCurrent (now stored_at skew_ms : ℕ) (s : S) (body : Json) : Type 0 where
    pub version : is_old_key_version (property "key_version" body) ≡ false
    pub issued : ℤ
    pub dated : issued_of platform nonces (as_string (property "issued_at" body)) ≡ some issued
    pub fresh : distance issued now ≤ skew_ms
    pub nonce : String
    pub has_nonce : as_string (property "nonce" body) ≡ some nonce
    pub nonempty : str_eq nonce "" ≡ false
    pub unseen : (nonces.check_and_record stored_at nonce (skew_ms * 2) s).1 ≡ false

  fresh_cases :
      (now skew_ms : ℕ) (o : Option ℤ)
      → is_fresh_at platform now skew_ms o ≡ true
      → (i : ℤ) × (o ≡ some i) × (distance i now ≤ skew_ms)
  unfolding is_fresh_at
  fresh_cases now skew_ms none h = cc
  fresh_cases now skew_ms (some i) h = (i, refl, leb→le _ _ h)

  record_nonce_cases :
      (now skew_ms : ℕ) (o : Option String) (s : S)
      → (record_nonce platform nonces now skew_ms o s).1 ≡ none
      → (n : String) × (o ≡ some n)
        × (str_eq n "" ≡ false)
        × ((nonces.check_and_record now n (skew_ms * 2) s).1 ≡ false)
  unfolding record_nonce
  record_nonce_cases now skew_ms none s h = cc
  record_nonce_cases now skew_ms (some n) s h = (n, refl, ground arith, ground arith)

  pub check-IsCurrent :
      (now stored_at skew_ms : ℕ) (body : Json) (s : S)
      → (check_replay_protection platform nonces now stored_at skew_ms body s).1 ≡ none
      → IsCurrent now stored_at skew_ms s body
  unfolding check_replay_protection
  check-IsCurrent now stored_at skew_ms body s h =
      elim (Bool-cases (is_old_key_version (property "key_version" body))) [
        | inl old ↦ absurd (ground (arith, old))
        | inr version ↦
            let (issued, dated, fresh) =
              fresh_cases now skew_ms
                (issued_of platform nonces (as_string (property "issued_at" body)))
                (ground (arith, version)) in
            let (nonce, has_nonce, nonempty, unseen) =
              record_nonce_cases stored_at skew_ms (as_string (property "nonce" body)) s
                (ground (arith, version)) in
            record {
              version = version;
              issued = issued;
              dated = dated;
              fresh = fresh;
              nonce = nonce;
              has_nonce = has_nonce;
              nonempty = nonempty;
              unseen = unseen;
            }
      ]

  module _ (key : Key) (handler : Json → Option String) (strict : Bool) where
    -- The signature covers the body without it, and is missing only in the lenient mode.
    abbrev pub IsAuthentic : Json → Type 0
    IsAuthentic parsed =
        ((signature : String) × (as_string (property "hmac_signature" parsed) ≡ some signature)
          × (verify_payload platform key (stringify (without "hmac_signature" parsed)) signature
              ≡ true))
        ⊎ ((as_string (property "hmac_signature" parsed) ≡ none) × (strict ≡ false))

    is_verified_cases :
        (parsed : Json) (signature : Option String)
        → as_string (property "hmac_signature" parsed) ≡ signature
        → is_verified platform nonces key strict signature parsed ≡ true
        → IsAuthentic parsed
    unfolding is_verified
    is_verified_cases parsed none e h = inr (e, ground arith)
    is_verified_cases parsed (some signature) e h = inl (signature, e, h)

    -- Where a property is read, it is that of the value.
    read-property : (k : String) (j : Json) (v : Option Json) → read k j ≡ some v → property k j ≡ v
    read-property k null v h = cc
    read-property k (bool b) v h = cc
    read-property k (num n) v h = cc
    read-property k (real n t) v h = cc
    read-property k (str t) v h = cc
    read-property k (arr vs) v h = cc
    read-property k (obj fs) v h = cc

    run_handler-Handles :
        (body other : Json) (d : Delivery) (s : S)
        → Handles other (run_handler platform nonces handler body d s).effects
        → body ≡ other
    unfolding run_handler
    run_handler-Handles body other d s h = ground arith

    after_replay_check-Handles :
        (body other : Json) (d : Delivery) (r : S × Option ReplayRejectReason)
        → Handles other (after_replay_check platform nonces handler body d r).effects
        → (body ≡ other) × (r.1 ≡ none)
    unfolding after_replay_check
    after_replay_check-Handles body other d (s, none) h =
        (run_handler-Handles body other d s h, refl)
    after_replay_check-Handles body other d (s, some reason) h = absurd h

    dispatch_signed-Handles :
        (skew_ms now stored_at : ℕ) (d : Delivery) (signature : Option Json) (parsed body : Json)
        (s : S)
        → property "hmac_signature" parsed ≡ signature
        → Handles body
            (dispatch_signed platform nonces key handler strict skew_ms now stored_at d signature
              parsed s).effects
        → (without "hmac_signature" parsed ≡ body)
          × IsAuthentic parsed
          × IsCurrent now stored_at skew_ms s body
    unfolding dispatch_signed
    dispatch_signed-Handles skew_ms now stored_at d signature parsed body s e h =
        elim (Bool-cases (is_verified platform nonces key strict (as_string signature) parsed)) [
          | inl good ↦
              let stripped = without "hmac_signature" parsed in
              let (same, passed) =
                after_replay_check-Handles stripped body d
                  (check_replay_protection platform nonces now stored_at skew_ms stripped s)
                  (rw good at h) in
              (
                same,
                is_verified_cases parsed (as_string signature) (ap as_string e) good,
                subst (IsCurrent now stored_at skew_ms s) same
                    (check-IsCurrent now stored_at skew_ms stripped s passed),
              )
          | inr bad ↦ absurd (rw bad at h)
        ]

    dispatch_body-Handles :
        (skew_ms now stored_at : ℕ) (d : Delivery) (parsed body : Json) (s : S)
        → Handles body
            (dispatch_body platform nonces key handler strict skew_ms now stored_at d parsed
              s).effects
        → (without "hmac_signature" parsed ≡ body)
          × IsAuthentic parsed
          × IsCurrent now stored_at skew_ms s body
    unfolding dispatch_body
    dispatch_body-Handles skew_ms now stored_at d parsed body s h =
        elim (Option-cases (read "hmac_signature" parsed)) [
          | inl throws ↦ absurd (rw (throws, dispatch_body) at h)
          | inr (signature, e) ↦
              dispatch_signed-Handles skew_ms now stored_at d signature parsed body s
                (read-property "hmac_signature" parsed signature e) (rw (e, dispatch_body) at h)
        ]

    -- The handler is called only with the body of a delivery that parses, its signature taken off,
    -- and only after the signature over that body has verified (or, in the lenient mode alone, is
    -- missing), the key version is 2 or higher, the issue time lies within the skew in both
    -- directions, and the nonce is there and was not seen.
    pub handled_only_if :
        (skew_ms now stored_at : ℕ) (d : Delivery) (s : S) (body : Json)
        → Handles body
            (verify_and_dispatch platform nonces key handler strict skew_ms now stored_at d
              s).effects
        → (parsed : Json) × (parse_json d.content ≡ some parsed)
          × (without "hmac_signature" parsed ≡ body)
          × IsAuthentic parsed
          × IsCurrent now stored_at skew_ms s body
    unfolding verify_and_dispatch
    handled_only_if skew_ms now stored_at d s body h = elim (Option-cases (parse_json d.content)) [
      | inl e ↦ absurd (rw (e, verify_and_dispatch) at h)
      | inr (parsed, e) ↦
          let (same, authentic, current) =
            dispatch_body-Handles skew_ms now stored_at d parsed body s
              (rw (e, verify_and_dispatch) at h) in
          (parsed, e, same, authentic, current)
    ]
