-- ===== src/Amqp/Hmac/Tests.antt =====
-- Signing and verifying (amqp/hmac.ts) at concrete inputs.
use axiam_typescript_sdk.Prelude.{◌<◌, ◌≡◌, refl, [], ◌∷◌, arith, All}
use axiam_typescript_sdk.Amqp.Hmac.{hex_digit, to_hex}

hex_text : to_hex (255 ∷ 10 ∷ []) ≡ "ff0a"
unfolding to_hex hex_digit
hex_text = refl

bytes_are_small : All (λ b. b < 256) (255 ∷ 10 ∷ [])
bytes_are_small = ground arith
