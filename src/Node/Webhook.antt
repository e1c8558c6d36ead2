-- ===== src/Node/Webhook.antt =====
-- node/webhook.ts: the check of a signed webhook delivery. Times are whole seconds. A body given as a
-- text is its UTF-8 bytes.
pub mod Fields
pub mod Verified
mod Tests
use axiam_typescript_sdk.Prelude.{
  ℕ, zero, suc, ◌+◌, ◌-◌, ◌*◌, ◌^◌, ◌≤◌, ◌<◌, min, max, ◌≡◌, ◌≢◌, ◌↔◌, ◌∙◌, ◌⊎◌, inl, inr, refl,
  sym, ap, subst, String, Bool, true, false, not, ◌&&◌, ◌||◌, List, [], ◌∷◌, ◌++◌, map, Option,
  none, some, arith, str_eq, eq_iff, ltb, leb, ◌==◌, if◌then◌else◌, ltb→lt, lt→ltb, leb→le, le→leb,
  ==_iff, Bool-cases, Option-cases, or_else, is_some, length, length-append, All, All-append, any,
  contains,
}
use axiam_typescript_sdk.Prelude.Int.{ℤ, pos_part, neg_part}
use axiam_typescript_sdk.Prelude.Texts.{codes, text_length, is_empty, trim, cut, split_on}
use axiam_typescript_sdk.Prelude.Results.{Result, ok, err, ◌>>=◌, ◌>>◌, ensure}
use axiam_typescript_sdk.Json.{Json, property, as_string}
use axiam_typescript_sdk.Amqp.Hmac.{hex_value, from_hex, same_bytes}
use Prim.Native.Char.{code}
use Prim.Native.String

abbrev pub default_webhook_tolerance_sec : ℕ
default_webhook_tolerance_sec = 300

pub data WebhookVerifyFailureReason : Type 0 where
  malformed_header invalid_timestamp signature_mismatch stale_timestamp future_timestamp :
      WebhookVerifyFailureReason

pub record VerifiedWebhookEvent : Type 0 where
  pub event : Option String
  pub id : Option String
  pub timestamp : ℤ
  pub body : Option Json
  pub raw_body : List ℕ

-- What the check takes from the platform.
pub record Platform : Type 0 where
  -- `Buffer.from(text, 'utf8')`
  pub utf8 : String → List ℕ
  -- `createHmac('sha256', key).update(payload).digest()`
  pub hmac : (key payload : List ℕ) → List ℕ
  -- `Number(text)` for the text of an integer: `none` where it is not finite.
  pub to_number : String → Option ℤ
  -- `JSON.parse` of bytes read as UTF-8: `none` where it throws.
  pub parse_json : List ℕ → Option Json

-- The variables of the loop.
pub record Parsed : Type 0 where
  pub t : Option String
  pub t_count : ℕ
  pub v1 : List String

add_field : String → String → Parsed → Parsed
add_field key v p =
    if str_eq key "t"
    then record p { t = some v; t_count = p.t_count + 1 }
    else if str_eq key "v1"
    then record p { v1 = p.v1 ++ v ∷ [] }
    else p

-- A piece with no equals sign, such as an empty one, is passed over.
read_piece : String → Parsed → Parsed
unfolding add_field
read_piece piece p = elim (cut b'=' (trim piece)) [
  | none ↦ p
  | some parts ↦ add_field (trim parts.0) (trim parts.1) p
]

read_pieces : List String → Parsed → Parsed
unfolding read_piece
read_pieces [] p = p
read_pieces (piece ∷ pieces) p = read_pieces pieces (read_piece piece p)

abbrev begin : Parsed
begin = record { t = none; t_count = 0; v1 = [] }

-- The two refusals after the loop.
accept_fields :
    Option String → ℕ → List String → Result WebhookVerifyFailureReason (String × List String)
accept_fields none n v1 = err malformed_header
accept_fields (some t) n [] = err malformed_header
accept_fields (some t) n (c ∷ cs) = if n == 1 then ok (t, c ∷ cs) else err malformed_header

pub parse_signature_header : String → Result WebhookVerifyFailureReason (String × List String)
unfolding read_pieces accept_fields
parse_signature_header header =
    let p = read_pieces (split_on b',' header) begin in accept_fields p.t p.t_count p.v1

abbrev pub are_digits : String → Bool
are_digits String.[] = true
are_digits (String.◌∷◌ c s) = (leb b'0' (code c) && leb (code c) b'9') && are_digits s

-- `/^-?\d+$/`
abbrev pub is_integer : String → Bool
is_integer String.[] = false
is_integer (String.◌∷◌ c s) =
    if code c == b'-' then not (is_empty s) && are_digits s else are_digits (String.◌∷◌ c s)

abbrev pub are_hex : String → Bool
are_hex String.[] = true
are_hex (String.◌∷◌ c s) = is_some (hex_value (code c)) && are_hex s

abbrev is_even : ℕ → Bool
is_even zero = true
is_even (suc n) = not (is_even n)

-- `STRICT_HEX_PATTERN` and the length test.
abbrev pub is_hex : String → Bool
is_hex s = not (is_empty s) && are_hex s && is_even (text_length s)

matches : List ℕ → List String → Bool
matches expected [] = false
matches expected (c ∷ cs) = (is_hex c && same_bytes (from_hex c) expected) || matches expected cs

-- `age > tolerance` and `-age > tolerance`.
check_age : ℤ → ℕ → ℕ → Result WebhookVerifyFailureReason (Unit {0})
check_age timestamp now tolerance = do
  ensure (leb (now + neg_part timestamp) (pos_part timestamp + tolerance)) stale_timestamp
  ensure (leb (pos_part timestamp) (now + neg_part timestamp + tolerance)) future_timestamp

read_number : Option ℤ → Result WebhookVerifyFailureReason ℤ
read_number none = err invalid_timestamp
read_number (some n) = ok n

module _ (platform : Platform) where
  open platform use {utf8, hmac, to_number, parse_json}

  -- `event` and `id` of a body that is an object.
  pub verified_event : ℤ → List ℕ → VerifiedWebhookEvent
  verified_event timestamp raw =
      let body = parse_json raw in
      record {
        event = elim body [ none ↦ none | some b ↦ as_string (property "event" b) ];
        id = elim body [ none ↦ none | some b ↦ as_string (property "id" b) ];
        timestamp = timestamp;
        body = body;
        raw_body = raw;
      }

  abbrev pub expected_digest : String → String → List ℕ → List ℕ
  expected_digest secret t raw = hmac (utf8 secret) (utf8 (String.◌++◌ t ".") ++ raw)

  pub verify_webhook :
      String
      → String
      → List ℕ
      → ℕ
      → Option ℕ
      → Result WebhookVerifyFailureReason VerifiedWebhookEvent
  unfolding matches check_age read_number
  verify_webhook secret header raw now tolerance = do
    fields ← parse_signature_header header
    ensure (is_integer fields.0) invalid_timestamp
    timestamp ← read_number (to_number fields.0)
    ensure (matches (expected_digest secret fields.0 raw) fields.1) signature_mismatch
    check_age timestamp now (or_else tolerance default_webhook_tolerance_sec)
    ok (verified_event timestamp raw)
