-- ===== src/Amqp/Consumer.antt =====
-- amqp/consumer.ts: the verification of one delivery and its dispatch to the handler.
-- The replay check reads the clock twice: `now` is the reading of the freshness test, `stored_at` the later
-- one of the nonce store.
pub mod Accepts
pub mod Handler
pub mod Edge
mod Tests
use axiam_typescript_sdk.Prelude.{
  ℕ, zero, suc, ◌+◌, ◌-◌, ◌*◌, ◌^◌, ◌≤◌, ◌<◌, min, max, ◌≡◌, ◌≢◌, ◌↔◌, ◌∙◌, ◌⊎◌, inl, inr, refl,
  sym, ap, subst, String, Bool, true, false, not, ◌&&◌, ◌||◌, List, [], ◌∷◌, ◌++◌, map, Option,
  none, some, arith, str_eq, eq_iff, ltb, leb, ◌==◌, if◌then◌else◌, ltb→lt, lt→ltb, leb→le, le→leb,
  ==_iff, Bool-cases, Option-cases, or_else, is_some, length, length-append, All, All-append, any,
  contains,
}
use axiam_typescript_sdk.Prelude.Int.{ℤ, pos, distance, ltb_ℤ, leb_ℤ}
use axiam_typescript_sdk.Prelude.Dict
use axiam_typescript_sdk.Json.{
  Json, null, bool, num, real, str, arr, obj, Fields, fields, from_list, property, as_string,
}
use axiam_typescript_sdk.Amqp.Platform.{Platform}
use axiam_typescript_sdk.Amqp.Hmac.{verify_payload}
use axiam_typescript_sdk.Amqp.Nonce.{NonceStore}

abbrev pub default_replay_skew_ms : ℕ
default_replay_skew_ms = 5 * 60 * 1000

pub data ReplayRejectReason : Type 0 where
  key_version issued_at nonce : ReplayRejectReason

-- `typeof keyVersion !== 'number' || keyVersion < 2`. A number that is not integral is below 2
-- exactly if the integer above it is at most 2.
pub is_old_key_version : Option Json → Bool
is_old_key_version (some (num n)) = ltb_ℤ n (pos 2)
is_old_key_version (some (real above s)) = leb_ℤ above (pos 2)
is_old_key_version _ = true

-- The body with a property deleted.
abbrev pub without : String → Json → Json
without k (obj fs) = obj (from_list (Dict.delete k (fields fs)))
without k other = other

-- Reading a property: `none` where that throws, of `null`.
abbrev pub read : String → Json → Option (Option Json)
read k null = none
read k other = some (property k other)

pub data Warning : Type 0 where
  unparsed : Warning
  unverified : (tenant_id : Option String) → Warning
  replayed : ReplayRejectReason → (tenant_id : Option String) → Warning
  handler_threw : (error : String) → Warning

-- What a delivery does to the outside, in order. `nacked all_up_to requeue` is `channel.nack`.
pub data Effect : Type 0 where
  warned : Warning → (exchange routing_key : String) → Effect
  handled : Json → Effect
  acked : Effect
  nacked : (all_up_to requeue : Bool) → Effect

pub record Delivery : Type 0 where
  pub content : String
  pub exchange : String
  pub routing_key : String

pub record Dispatch (S : Type 0) : Type 0 where
  pub effects : List Effect
  pub store : S
  -- The promise is rejected.
  pub threw : Bool

abbrev refused : {S : Type 0} → Warning → Delivery → S → Dispatch S
refused w d s = record {
  effects = warned w d.exchange d.routing_key ∷ nacked false false ∷ [];
  store = s;
  threw = false;
}

module _ (platform : Platform) where
  open platform use {Key, parse_json, stringify, parse_date}

  -- The absolute difference is at most `skew_ms`; `none` is NaN.
  pub is_fresh_at : ℕ → ℕ → Option ℤ → Bool
  is_fresh_at now skew_ms none = false
  is_fresh_at now skew_ms (some issued) = leb (distance issued now) skew_ms

module _ {S : Type 0} (platform : Platform) (nonces : NonceStore S) where
  open platform use {Key, parse_json, stringify, parse_date}

  record_nonce : ℕ → ℕ → Option String → S → S × Option ReplayRejectReason
  record_nonce now skew_ms none s = (s, some nonce)
  record_nonce now skew_ms (some n) s =
      if str_eq n ""
      then (s, some nonce)
      else (let (s', seen) = nonces.check_and_record now n (skew_ms * 2) s in
          if seen then (s', some nonce) else (s', none))

  pub issued_of : Option String → Option ℤ
  issued_of none = none
  issued_of (some text) = parse_date text

  pub check_replay_protection :
      (now stored_at skew_ms : ℕ) → Json → S → S × Option ReplayRejectReason
  unfolding is_old_key_version is_fresh_at issued_of record_nonce
  check_replay_protection now stored_at skew_ms body s =
      if is_old_key_version (property "key_version" body)
      then (s, some key_version)
      else if not
          (is_fresh_at platform now skew_ms (issued_of (as_string (property "issued_at" body))))
      then (s, some issued_at)
      else record_nonce stored_at skew_ms (as_string (property "nonce" body)) s

  -- A signature that is there is always verified; `strict` decides about a missing one.
  pub is_verified : Key → Bool → Option String → Json → Bool
  is_verified key strict (some signature) body =
      verify_payload platform key (stringify (without "hmac_signature" body)) signature
  is_verified key strict none body = not strict

  run_handler : (Json → Option String) → Json → Delivery → S → Dispatch S
  run_handler handler body d s = elim (handler body) [
    | none ↦ record { effects = handled body ∷ acked ∷ []; store = s; threw = false }
    | some error ↦ record {
      effects =
          handled body
          ∷ warned (handler_threw error) d.exchange d.routing_key
          ∷ nacked false false
          ∷ [];
      store = s;
      threw = false;
    }
  ]

  after_replay_check :
      (Json → Option String) → Json → Delivery → S × Option ReplayRejectReason → Dispatch S
  unfolding run_handler
  after_replay_check handler body d (s, none) = run_handler handler body d s
  after_replay_check handler body d (s, some reason) =
      refused (replayed reason (as_string (property "tenant_id" body))) d s

  -- The parsed body, once its signature has been read.
  dispatch_signed :
      Key
      → (Json → Option String)
      → Bool
      → (skew_ms now stored_at : ℕ) → Delivery
      → Option Json
      → Json
      → S
      → Dispatch S
  unfolding is_verified check_replay_protection after_replay_check
  dispatch_signed key handler strict skew_ms now stored_at d signature body s =
      let stripped = without "hmac_signature" body in
      if is_verified key strict (as_string signature) body
      then after_replay_check handler stripped d
          (check_replay_protection now stored_at skew_ms stripped s)
      else refused (unverified (as_string (property "tenant_id" stripped))) d s

  -- The parsed body, from the signature on. No `try` is around what throws here.
  pub dispatch_body :
      Key
      → (Json → Option String)
      → Bool
      → (skew_ms now stored_at : ℕ) → Delivery
      → Json
      → S
      → Dispatch S
  unfolding dispatch_signed
  dispatch_body key handler strict skew_ms now stored_at d body s =
      elim (read "hmac_signature" body) [
        | none ↦ record { effects = []; store = s; threw = true }
        | some signature ↦
            dispatch_signed key handler strict skew_ms now stored_at d signature body s
      ]

  -- `handler` answers the text of what it throws.
  pub verify_and_dispatch :
      Key → (Json → Option String) → Bool → (skew_ms now stored_at : ℕ) → Delivery → S → Dispatch S
  unfolding dispatch_body
  verify_and_dispatch key handler strict skew_ms now stored_at d s = elim (parse_json d.content) [
    | none ↦ refused unparsed d s
    | some body ↦ dispatch_body key handler strict skew_ms now stored_at d body s
  ]
