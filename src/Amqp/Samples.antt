-- ===== src/Amqp/Samples.antt =====
-- A platform and messages for the tests of amqp/: a digest is one byte, the key, and three texts
-- parse.
use axiam_typescript_sdk.Prelude.{
  ℕ, ◌<◌, String, List, [], ◌∷◌, Option, none, some, arith, str_eq, if◌then◌else◌, All,
}
use Prim.Native.Nat.{◌%◌}
use axiam_typescript_sdk.Prelude.Int.{pos}
use axiam_typescript_sdk.Json.{Json, null, num, str, obj, from_list}
use axiam_typescript_sdk.Amqp.Platform.{Platform}

-- What a reactor event holds.
abbrev pub event_fields : List (String × Json)
event_fields =
    ("tenant_id", str "t")
    ∷ ("event", str "login.post_auth")
    ∷ ("correlation_id", str "c")
    ∷ ("payload", obj (from_list []))
    ∷ ("timeout_ms", num (pos 100))
    ∷ ("key_version", num (pos 2))
    ∷ ("nonce", str "n")
    ∷ ("issued_at", str "date")
    ∷ ("hmac_signature", str "07")
    ∷ []

-- The body of a message for the consumer, without its signature.
abbrev pub body : Json
body =
    obj (
      from_list
        (("key_version", num (pos 2)) ∷ ("nonce", str "n") ∷ ("issued_at", str "date") ∷ []))

abbrev pub message : Json
message = obj (
    from_list (
      ("key_version", num (pos 2))
      ∷ ("nonce", str "n")
      ∷ ("issued_at", str "date")
      ∷ ("hmac_signature", str "07")
      ∷ []))

abbrev parse : String → Option Json
parse text =
    if str_eq text "event"
    then some (obj (from_list event_fields))
    else if str_eq text "message"
    then some message
    else if str_eq text "null"
    then some null
    else none

abbrev pub platform : Platform
platform = record {
  Key = ℕ;
  hmac = λ key text. key % 256 ∷ [];
  parse_json = parse;
  stringify = λ value. "{}";
  parse_date = λ text. some (pos 1000);
}

pub hmac-bytes : (k : ℕ) (text : String) → All (λ b. b < 256) (k % 256 ∷ [])
hmac-bytes k text = ground arith
