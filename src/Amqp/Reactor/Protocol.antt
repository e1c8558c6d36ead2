-- ===== src/Amqp/Reactor/Protocol.antt =====
-- amqp/reactor/protocol.ts: the signed event and the signed reply.
-- The clock, the fresh nonce and the text of `Date.toISOString` are arguments.
pub mod Verified
pub mod Signing
mod Tests
use Prim.Native.String
use text.Mathlib.Text.{is_le}
use axiam_typescript_sdk.Prelude.{
  ℕ, zero, suc, ◌+◌, ◌-◌, ◌*◌, ◌^◌, ◌≤◌, ◌<◌, min, max, ◌≡◌, ◌≢◌, ◌↔◌, ◌∙◌, ◌⊎◌, inl, inr, refl,
  sym, ap, subst, String, Bool, true, false, not, ◌&&◌, ◌||◌, List, [], ◌∷◌, ◌++◌, map, Option,
  none, some, arith, str_eq, eq_iff, ltb, leb, ◌==◌, if◌then◌else◌, ltb→lt, lt→ltb, leb→le, le→leb,
  ==_iff, Bool-cases, Option-cases, or_else, is_some, length, length-append, All, All-append, any,
  contains,
}
use axiam_typescript_sdk.Prelude.Int.{ℤ, pos, distance, ltb_ℤ}
use axiam_typescript_sdk.Prelude.Dict
use axiam_typescript_sdk.Json.{
  Json, null, bool, num, real, str, arr, obj, Fields, fields, from_list, as_string,
}
use axiam_typescript_sdk.Amqp.Platform.{Platform}
use axiam_typescript_sdk.Amqp.Hmac.{sign_payload, verify_payload}
use axiam_typescript_sdk.Amqp.Reactor.Registry.{ReactorEventSpec, event_spec}

abbrev pub reactor_key_version : ℕ
reactor_key_version = 2

abbrev pub reactor_freshness_skew_ms : ℕ
reactor_freshness_skew_ms = 300000

pub reactor_routing_key : String → String → String
reactor_routing_key tenant_id event = String.◌++◌ tenant_id (String.◌++◌ "." event)

pub reactor_queue_name : String → String → String
reactor_queue_name tenant_id reactor_id =
    String.◌++◌ "axiam.reactor.q." (String.◌++◌ tenant_id (String.◌++◌ "." reactor_id))

-- The text of `toISOString`, with an ending `.000Z` cut to `Z`.
pub to_chrono_rfc3339 : String → String
to_chrono_rfc3339 String.[] = ""
to_chrono_rfc3339 (String.◌∷◌ c s) =
    if str_eq (String.◌∷◌ c s) ".000Z" then "Z" else String.◌∷◌ c (to_chrono_rfc3339 s)

pub is_fresh : ℤ → ℕ → ℕ → Bool
is_fresh issued_at_ms now_ms skew_ms = leb (distance issued_at_ms now_ms) skew_ms

-- `timeout_ms` is the integer at or above the number in the event: the clock readings that it is
-- added to and compared with are whole.
pub record ReactorEvent : Type 0 where
  pub tenant_id : String
  pub event : String
  pub correlation_id : String
  pub payload : Fields
  pub timeout_ms : ℤ
  pub key_version : ℤ
  pub nonce : String
  pub issued_at : String
  pub hmac_signature : String

pub data EventRejection : Type 0 where
  malformed key_version_too_old bad_signature stale replayed_nonce : EventRejection

pub data VerifyEventResult : Type 0 where
  verified : ReactorEvent → VerifyEventResult
  rejected : EventRejection → VerifyEventResult

-- A body: the properties of the parsed object.
abbrev pub Body : Type 0
Body = List (String × Json)

-- `Number.isInteger`
abbrev pub integral : Option Json → Option ℤ
integral (some (num n)) = some n
integral _ = none

abbrev pub as_number : Option Json → Option ℤ
as_number (some (num n)) = some n
as_number (some (real above s)) = some above
as_number _ = none

abbrev pub as_object : Option Json → Option Fields
as_object (some (obj fs)) = some fs
as_object _ = none

infixl 5 ◌>>=◌
abbrev ◌>>=◌ {ℓ κ} : {A : Type ℓ} {B : Type κ} → Option A → (A → Option B) → Option B
none >>= f = none
some a >>= f = f a

-- The tests on the shape of the body, and the event that it holds.
pub decode_event : ℤ → String → Body → Option ReactorEvent
decode_event key_version signature body = do
  tenant_id ← as_string (Dict.get "tenant_id" body)
  event ← as_string (Dict.get "event" body)
  correlation_id ← as_string (Dict.get "correlation_id" body)
  nonce ← as_string (Dict.get "nonce" body)
  issued_at ← as_string (Dict.get "issued_at" body)
  timeout_ms ← as_number (Dict.get "timeout_ms" body)
  payload ← as_object (Dict.get "payload" body)
  some (record {
    tenant_id = tenant_id;
    event = event;
    correlation_id = correlation_id;
    payload = payload;
    timeout_ms = timeout_ms;
    key_version = key_version;
    nonce = nonce;
    issued_at = issued_at;
    hmac_signature = signature;
  })

pub data ReplyDecision : Type 0 where
  allow deny mutate : ReplyDecision

-- An absent `require_mfa` is `false`; the unsigned reply has no signature.
pub record ReactorReply : Type 0 where
  pub correlation_id : String
  pub tenant_id : String
  pub event : String
  pub decision : ReplyDecision
  pub reason : Option String
  pub patch : Option (List (String × String))
  pub require_mfa : Bool
  pub key_version : ℕ
  pub nonce : String
  pub issued_at : String
  pub hmac_signature : Option String

pub record ReplyInput : Type 0 where
  pub decision : ReplyDecision
  pub reason : Option String
  pub patch : Option (List (String × String))
  pub require_mfa : Bool

-- `Object.keys(patch).sort()`: by code points, which is the order of UTF-16 units on the basic
-- plane. Keys that are array indices, which an object puts first, are left out.
text_le : String → String → Bool
text_le s t = is_le (String.compare s t)

insert_sorted : String → String → List (String × String) → List (String × String)
insert_sorted k v [] = (k, v) ∷ []
insert_sorted k v ((j, w) ∷ m) =
    if text_le k j then (k, v) ∷ (j, w) ∷ m else (j, w) ∷ insert_sorted k v m

pub sorted_patch : List (String × String) → List (String × String)
unfolding insert_sorted text_le
sorted_patch [] = []
sorted_patch ((k, v) ∷ m) = insert_sorted k v (sorted_patch m)

abbrev sort_option : Option (List (String × String)) → Option (List (String × String))
sort_option none = none
sort_option (some patch) = some (sorted_patch patch)

unfoldable pub build_reactor_reply :
    ReactorEvent → ReplyInput → (nonce issued_at : String) → ReactorReply
unfolding to_chrono_rfc3339
build_reactor_reply event input nonce issued_at = record {
  correlation_id = event.correlation_id;
  tenant_id = event.tenant_id;
  event = event.event;
  decision = input.decision;
  reason = input.reason;
  patch = sort_option input.patch;
  require_mfa = input.require_mfa;
  key_version = reactor_key_version;
  nonce = nonce;
  issued_at = to_chrono_rfc3339 issued_at;
  hmac_signature = none;
}

abbrev decision_text : ReplyDecision → String
decision_text allow = "allow"
decision_text deny = "deny"
decision_text mutate = "mutate"

abbrev str_fields : List (String × String) → List (String × Json)
str_fields [] = []
str_fields ((k, v) ∷ m) = (k, str v) ∷ str_fields m

abbrev optional : String → Option Json → List (String × Json)
optional k none = []
optional k (some v) = (k, v) ∷ []

abbrev or_null : Option String → Json
or_null none = null
or_null (some s) = str s

abbrev str_option : Option String → Option Json
str_option none = none
str_option (some s) = some (str s)

abbrev patch_option : Option (List (String × String)) → Option Json
patch_option none = none
patch_option (some patch) = some (obj (from_list (str_fields patch)))

-- The object that is serialised: its properties in declaration order, the absent ones left out.
pub reply_json : ReactorReply → Json
reply_json r = obj (
    from_list (
      ("correlation_id", str r.correlation_id)
      ∷ ("tenant_id", str r.tenant_id)
      ∷ ("event", str r.event)
      ∷ ("decision", str (decision_text r.decision))
      ∷ (optional "reason" (str_option r.reason)
          ++ (optional "patch" (patch_option r.patch)
              ++ (optional "require_mfa" (if r.require_mfa then some (bool true) else none)
                  ++ ("key_version", num (pos r.key_version))
                    ∷ ("nonce", str r.nonce)
                    ∷ ("issued_at", str r.issued_at)
                    ∷ ("hmac_signature", or_null r.hmac_signature)
                    ∷ [])))))

module _ (platform : Platform) where
  open platform use {Key, stringify, parse_date}

  -- `none` where the body has no signature property.
  pub canonical_event_text : Body → Option String
  canonical_event_text body =
      if is_some (Dict.get "hmac_signature" body)
      then some (stringify (obj (from_list (Dict.set "hmac_signature" null body))))
      else none

  dated_fresh : ℕ → ℕ → Option ℤ → Bool
  unfolding is_fresh
  dated_fresh now_ms skew_ms none = false
  dated_fresh now_ms skew_ms (some issued) = is_fresh issued now_ms skew_ms

  check_shape : ℤ → String → Body → ℕ → ℕ → VerifyEventResult
  unfolding decode_event dated_fresh
  check_shape key_version signature body now_ms skew_ms =
      elim (decode_event key_version signature body) [
        | none ↦ rejected malformed
        | some event ↦
            if dated_fresh now_ms skew_ms (parse_date event.issued_at)
            then verified event
            else rejected stale
      ]

  pub mac_holds : Key → Body → String → Bool
  unfolding canonical_event_text
  mac_holds key body signature = elim (canonical_event_text body) [
    | none ↦ false
    | some text ↦ verify_payload platform key text signature
  ]

  check_mac : Key → ℤ → Body → ℕ → ℕ → VerifyEventResult
  unfolding check_shape mac_holds
  check_mac key key_version body now_ms skew_ms =
      elim (as_string (Dict.get "hmac_signature" body)) [
        | none ↦ rejected bad_signature
        | some signature ↦
            if mac_holds key body signature
            then check_shape key_version signature body now_ms skew_ms
            else rejected bad_signature
      ]

  unfoldable pub verify_event : Body → Key → ℕ → ℕ → VerifyEventResult
  unfolding check_mac
  verify_event body key now_ms skew_ms = elim (integral (Dict.get "key_version" body)) [
    | none ↦ rejected malformed
    | some key_version ↦
        if ltb_ℤ key_version (pos reactor_key_version)
        then rejected key_version_too_old
        else check_mac key key_version body now_ms skew_ms
  ]

  pub canonical_reply_text : ReactorReply → String
  unfolding reply_json
  canonical_reply_text reply = stringify (reply_json (record reply { hmac_signature = none }))

  unfoldable pub sign_reactor_reply : ReactorReply → Key → ReactorReply
  unfolding canonical_reply_text
  sign_reactor_reply reply key = record reply {
    hmac_signature = some (sign_payload platform key (canonical_reply_text reply));
  }

  pub reactor_reply_signature_valid : ReactorReply → Key → Bool
  unfolding canonical_reply_text
  reactor_reply_signature_valid reply key = elim reply.hmac_signature [
    | none ↦ false
    | some signature ↦ verify_payload platform key (canonical_reply_text reply) signature
  ]

pub chained_patch : ReactorEvent → Option Json
chained_patch event = Dict.get "_reactor_patch" (fields event.payload)

pub spec_for_event : ReactorEvent → Option ReactorEventSpec
unfolding event_spec
spec_for_event event = event_spec event.event
