-- ===== src/Amqp/Hmac/RoundTrip.antt =====
-- Signatures of amqp/hmac.ts verify.
use Prim.Native.Char.{code}
use Prim.Native.Nat.{◌/◌, ◌%◌}
use axiam_typescript_sdk.Prelude.{
  ℕ, zero, suc, ◌<◌, ◌≡◌, refl, ap, String, Bool, true, false, ◌&&◌, List, [], ◌∷◌, none, some,
  arith, All, ◌==◌, ◌↔◌,
}
use axiam_typescript_sdk.Amqp.Platform.{Platform}
use axiam_typescript_sdk.Amqp.Hmac.{
  hex_digit, to_hex, hex_value, cons_byte, from_hex, same_bytes, sign_payload, verify_payload,
}

-- Whether a digit is read back as its value.
reads_back : ℕ → Bool
reads_back n = elim (hex_value (code (hex_digit n))) [ none ↦ false | some m ↦ m == n ]

every_digit : ℕ → Bool
every_digit zero = true
every_digit (suc n) = reads_back n && every_digit n

every_digit_sound : (n d : ℕ) → every_digit n ≡ true → d < n → reads_back d ≡ true
unfolding every_digit
every_digit_sound zero d h lt = absurd (omega arith)
every_digit_sound (suc n) d h lt = ground (arith, every_digit_sound n d)

sixteen_digits : every_digit 16 ≡ true
unfolding every_digit reads_back hex_value hex_digit
sixteen_digits = refl

hex_value-hex_digit : (n : ℕ) → n < 16 → hex_value (code (hex_digit n)) ≡ some n
hex_value-hex_digit n h = ground (arith, read)
  where
    read :
        elim (hex_value (code (hex_digit n))) as (λ _. Bool) [ none ↦ false | some m ↦ m == n ]
        ≡ true
    read = unfold reads_back in every_digit_sound 16 n sixteen_digits h

-- Decoding inverts encoding, on every string of bytes.
pub from_hex-to_hex : (bs : List ℕ) → All (λ b. b < 256) bs → from_hex (to_hex bs) ≡ bs
unfolding from_hex to_hex cons_byte
from_hex-to_hex [] h = refl
from_hex-to_hex (b ∷ bs) (byte, h) =
    rw
      (
        hex_value-hex_digit (b / 16) (omega arith),
        hex_value-hex_digit (b % 16) (omega arith),
        from_hex-to_hex bs h,
      )
      (ap (λ x. x ∷ bs) (omega arith))

pub same_bytes_iff : (xs ys : List ℕ) → (same_bytes xs ys ≡ true) ↔ (xs ≡ ys)
same_bytes_iff [] [] = ground arith
same_bytes_iff [] (y ∷ ys) = ground arith
same_bytes_iff (x ∷ xs) [] = ground arith
same_bytes_iff (x ∷ xs) (y ∷ ys) = ground (arith, same_bytes_iff xs ys)

module _ (platform : Platform) where
  open platform use {Key, hmac}

  -- A payload signed with a key verifies under that key, and under another key or as another
  -- payload exactly if the digests are the same. The platform's digests are bytes.
  pub verify-sign_iff :
      ((k : Key) (text : String) → All (λ b. b < 256) (hmac k text))
      → (key other : Key) (payload received : String)
      → (verify_payload platform key payload (sign_payload platform other received) ≡ true)
        ↔ (hmac other received ≡ hmac key payload)
  unfolding verify_payload sign_payload
  verify-sign_iff bytes key other payload received =
      rw (from_hex-to_hex (hmac other received) (bytes other received))
        (same_bytes_iff (hmac other received) (hmac key payload))
