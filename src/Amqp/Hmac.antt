-- ===== src/Amqp/Hmac.antt =====
-- amqp/hmac.ts: signing and verifying. A digest is a list of bytes, and its hex text is a `String`.
pub mod RoundTrip
mod Tests
use Prim.Native.Char.{Char, code}
use Prim.Native.String
use axiam_typescript_sdk.Prelude.{
  ℕ, zero, suc, ◌+◌, ◌-◌, ◌*◌, ◌≡◌, String, Bool, true, false, ◌&&◌, List, [], ◌∷◌, Option, none,
  some, leb, ◌==◌, if◌then◌else◌,
}
use Prim.Native.Nat.{◌/◌, ◌%◌}
use axiam_typescript_sdk.Amqp.Platform.{Platform}

abbrev char_at : String → ℕ → Char
char_at String.[] n = "0"
char_at (String.◌∷◌ c s) zero = c
char_at (String.◌∷◌ c s) (suc n) = char_at s n

pub hex_digit : ℕ → Char
hex_digit n = char_at "0123456789abcdef" n

-- `digest('hex')`
pub to_hex : List ℕ → String
unfolding hex_digit
to_hex [] = ""
to_hex (b ∷ bs) = String.◌∷◌ (hex_digit (b / 16)) (String.◌∷◌ (hex_digit (b % 16)) (to_hex bs))

unfoldable pub hex_value : ℕ → Option ℕ
hex_value c =
    if leb b'0' c && leb c b'9'
    then some (c - b'0')
    else if leb b'a' c && leb c b'f'
    then some (c - b'a' + 10)
    else if leb b'A' c && leb c b'F'
    then some (c - b'A' + 10)
    else none

unfoldable pub cons_byte : Option ℕ → Option ℕ → List ℕ → List ℕ
cons_byte (some hi) (some lo) rest = (hi * 16 + lo) ∷ rest
cons_byte _ _ rest = []

-- `Buffer.from(text, 'hex')`: it stops at the first pair that is not two hex digits, and does not
-- throw.
unfoldable pub from_hex : String → List ℕ
unfolding cons_byte hex_value
from_hex String.[] = []
from_hex (String.◌∷◌ a String.[]) = []
from_hex (String.◌∷◌ a (String.◌∷◌ b s)) =
    cons_byte (hex_value (code a)) (hex_value (code b)) (from_hex s)

-- The length test and `timingSafeEqual`.
abbrev pub same_bytes : List ℕ → List ℕ → Bool
same_bytes [] [] = true
same_bytes (a ∷ xs) (b ∷ ys) = (a == b) && same_bytes xs ys
same_bytes _ _ = false

module _ (platform : Platform) where
  open platform use {Key, hmac}

  unfoldable pub sign_payload : Key → String → String
  unfolding to_hex
  sign_payload key payload = to_hex (hmac key payload)

  unfoldable pub verify_payload : Key → String → String → Bool
  unfolding from_hex
  verify_payload key payload signature_hex = same_bytes (from_hex signature_hex) (hmac key payload)
