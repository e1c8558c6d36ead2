-- ===== src/Node/Webhook/Verified.antt =====
-- Which deliveries verify (node/webhook.ts).
use axiam_typescript_sdk.Prelude.{
  ℕ, ◌+◌, ◌≤◌, ◌≡◌, ◌≢◌, ◌↔◌, ◌⊎◌, refl, String, true, List, [], ◌∷◌, Option, none, some, arith,
  leb, leb→le, le→leb, or_else,
}
use axiam_typescript_sdk.Prelude.Int.{ℤ, pos_part, neg_part}
use axiam_typescript_sdk.Prelude.Texts.{split_on}
use axiam_typescript_sdk.Prelude.Results.{ok, bind_iff, then_ok_iff, ensure_iff, ensure_alone}
use axiam_typescript_sdk.Amqp.Hmac.{from_hex}
use axiam_typescript_sdk.Amqp.Hmac.RoundTrip.{same_bytes_iff}
use axiam_typescript_sdk.Node.Webhook.{
  default_webhook_tolerance_sec, Platform, parse_signature_header, is_integer, is_hex, matches,
  check_age, read_number, VerifiedWebhookEvent, verified_event, expected_digest, verify_webhook,
}
use axiam_typescript_sdk.Node.Webhook.Fields.{values, parse_signature_header_iff}

-- Some candidate is the hexadecimal writing of the digest.
abbrev pub Matches : List ℕ → List String → Type 0
Matches digest [] = ⊥
Matches digest (c ∷ cs) = ((is_hex c ≡ true) × (from_hex c ≡ digest)) ⊎ Matches digest cs

Matches-filled : (digest : List ℕ) (cs : List String) → Matches digest cs → cs ≢ []
Matches-filled digest [] found = absurd found
Matches-filled digest (c ∷ cs) found = λ h. cc

matches_iff : (digest : List ℕ) (cs : List String) → (matches digest cs ≡ true) ↔ Matches digest cs
unfolding matches
matches_iff digest [] = (λ h. cc, λ h. absurd h)
matches_iff digest (c ∷ cs) =
    ground (arith, same_bytes_iff (from_hex c) digest, matches_iff digest cs)

-- No more than the tolerance old, and no more than the tolerance ahead.
abbrev pub IsFresh : ℤ → ℕ → ℕ → Type 0
IsFresh timestamp now tolerance =
    (now + neg_part timestamp ≤ pos_part timestamp + tolerance)
    × (pos_part timestamp ≤ now + neg_part timestamp + tolerance)

check_age_iff :
    (timestamp : ℤ) (now tolerance : ℕ)
    → (check_age timestamp now tolerance ≡ ok tt) ↔ IsFresh timestamp now tolerance
unfolding check_age
check_age_iff timestamp now tolerance =
    ensure_iff _ _ _ (leb_iff _ _)
      ((λ h. leb→le _ _ ((ensure_alone _ _).0 h), λ h. (ensure_alone _ _).1 (le→leb _ _ h)))
  where
    leb_iff : (m n : ℕ) → (leb m n ≡ true) ↔ (m ≤ n)
    leb_iff m n = (leb→le m n, le→leb m n)

read_number_iff : (n : Option ℤ) (m : ℤ) → (read_number n ≡ ok m) ↔ (n ≡ some m)
unfolding read_number
read_number_iff none m = (λ h. cc, λ h. cc)
read_number_iff (some k) m = (λ h. cc, λ h. cc)

-- A delivery verifies exactly if its header gives one `t` and some `v1`, the `t` is an integer and in range,
-- some `v1` is the hexadecimal writing of the HMAC of that `t`, a point and the body, and the time is no more
-- than the tolerance old and no more than the tolerance ahead. What is handed on is read from that body.
pub verify_webhook_iff :
    (platform : Platform) (secret header : String) (raw : List ℕ) (now : ℕ) (tolerance : Option ℕ)
    (event : VerifiedWebhookEvent)
    → (verify_webhook platform secret header raw now tolerance ≡ ok event) ↔ (
        (t : String) × (values "t" (split_on b',' header) ≡ t ∷ [])
        × (is_integer t ≡ true)
        × (timestamp : ℤ) × (platform.to_number t ≡ some timestamp)
        × Matches (expected_digest platform secret t raw) (values "v1" (split_on b',' header))
        × IsFresh timestamp now (or_else tolerance default_webhook_tolerance_sec)
        × (verified_event platform timestamp raw ≡ event))
unfolding verify_webhook
verify_webhook_iff platform secret header raw now tolerance event = (
  λ h.
      let (fields, (one, same, given), rest) = chain.0 h in
      let (digits, (timestamp, number, (found, (fresh, event_)))) = rest in
      (fields.0, one, digits, timestamp, number, rw same found, fresh, event_),
  λ (t, one, digits, timestamp, number, found, fresh, same). chain.1 (
    (t, values "v1" (split_on b',' header)),
    (one, refl, λ none_. Matches-filled _ _ found none_),
    (digits, (timestamp, number, (found, (fresh, same)))),
  ),
)
  where
    Fields : String × List String → Type 0
    Fields fields =
        (values "t" (split_on b',' header) ≡ fields.0 ∷ [])
        × (values "v1" (split_on b',' header) ≡ fields.1)
        × (fields.1 ≢ [])

    Checked : String × List String → Type 0
    Checked fields =
        (is_integer fields.0 ≡ true)
        × ((timestamp : ℤ) × (platform.to_number fields.0 ≡ some timestamp)
            × (Matches (expected_digest platform secret fields.0 raw) fields.1
                × (IsFresh timestamp now (or_else tolerance default_webhook_tolerance_sec)
                    × (verified_event platform timestamp raw ≡ event))))

    chain :
        (verify_webhook platform secret header raw now tolerance ≡ ok event)
        ↔ ((fields : String × List String) × Fields fields × Checked fields)
    chain =
        unfold verify_webhook in
        bind_iff (parse_signature_header header) _
          (λ (t, v1). parse_signature_header_iff header t v1)
          (λ (t, v1).
            ensure_iff _ _ _ (λ h. h, λ h. h)
              (bind_iff (read_number (platform.to_number t)) _
                (λ timestamp. read_number_iff (platform.to_number t) timestamp)
                (λ timestamp.
                  ensure_iff _ _ _ (matches_iff _ v1) (then_ok_iff _ (check_age_iff _ _ _)))))
