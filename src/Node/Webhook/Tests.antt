-- ===== src/Node/Webhook/Tests.antt =====
-- A signed delivery, with a digest of the platform that is the payload itself (node/webhook.ts).
use axiam_typescript_sdk.Prelude.{
  ℕ, true, ◌≡◌, ◌↔◌, refl, String, List, [], ◌∷◌, ◌++◌, none, some, or_else, str_eq, if◌then◌else◌,
}
use axiam_typescript_sdk.Prelude.Int.{ℤ, pos}
use axiam_typescript_sdk.Prelude.Texts.{codes, split_on}
use axiam_typescript_sdk.Prelude.Results.{ok, err}
use axiam_typescript_sdk.Json.{str, obj, from_list}
use axiam_typescript_sdk.Node.Webhook.{
  default_webhook_tolerance_sec, Platform, is_integer, malformed_header, signature_mismatch,
  stale_timestamp, verified_event, expected_digest, verify_webhook, parse_signature_header,
}
use axiam_typescript_sdk.Amqp.Hmac.{hex_value, from_hex, cons_byte}
use axiam_typescript_sdk.Node.Webhook.Fields.{values}
use axiam_typescript_sdk.Node.Webhook.Verified.{Matches, IsFresh, verify_webhook_iff}

abbrev platform : Platform
platform = record {
  utf8 = codes;
  hmac = λ key payload. key ++ payload;
  to_number = λ t. if str_eq t "100" then some (pos 100) else none;
  parse_json =
      λ body. some (obj (from_list (("event", str "user.created") ∷ ("id", str "e-1") ∷ [])));
}

-- The key `k`, then `100.{}`.
abbrev header : String
header = "t=100, v1=zz, v2=00, v1=6b3130302E7B7d"

abbrev raw : List ℕ
raw = codes "{}"

verifies :
    verify_webhook platform "k" header raw 400 none ≡ ok (verified_event platform (pos 100) raw)
unfolding verify_webhook parse_signature_header verified_event hex_value from_hex cons_byte
verifies = refl

stale_refused : verify_webhook platform "k" header raw 401 none ≡ err stale_timestamp
unfolding verify_webhook parse_signature_header verified_event hex_value from_hex cons_byte
stale_refused = refl

other_secret : verify_webhook platform "other" header raw 400 none ≡ err signature_mismatch
unfolding verify_webhook parse_signature_header verified_event hex_value from_hex cons_byte
other_secret = refl

two_times : verify_webhook platform "k" "t=100,t=100,v1=6b" raw 400 none ≡ err malformed_header
unfolding verify_webhook parse_signature_header verified_event hex_value from_hex cons_byte
two_times = refl

verify_webhook_iff_example :
    (verify_webhook platform "k" header raw 400 none ≡ ok (verified_event platform (pos 100) raw))
    ↔ ((t : String) × (values "t" (split_on b',' header) ≡ t ∷ [])
        × (is_integer t ≡ true)
        × (timestamp : ℤ) × (platform.to_number t ≡ some timestamp)
        × Matches (expected_digest platform "k" t raw) (values "v1" (split_on b',' header))
        × IsFresh timestamp 400 (or_else none default_webhook_tolerance_sec)
        × (verified_event platform timestamp raw ≡ verified_event platform (pos 100) raw))
verify_webhook_iff_example =
    verify_webhook_iff platform "k" header raw 400 none (verified_event platform (pos 100) raw)
