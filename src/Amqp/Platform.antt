-- ===== src/Amqp/Platform.antt =====
-- What the AMQP code takes from the platform: Node's HMAC, the JSON codec of the language and its
-- date parser, whose formats are up to the implementation.
use axiam_typescript_sdk.Prelude.{ℕ, String, List, Option}
use axiam_typescript_sdk.Prelude.Int.{ℤ}
use axiam_typescript_sdk.Json.{Json}

pub record Platform : Type 1 where
  pub Key : Type 0
  -- `createHmac('sha256', key).update(text).digest()`, the text in UTF-8.
  pub hmac : Key → String → List ℕ
  -- `JSON.parse`: `none` where it throws.
  pub parse_json : String → Option Json
  -- `JSON.stringify`
  pub stringify : Json → String
  -- `Date.parse`, in milliseconds: `none` for NaN.
  pub parse_date : String → Option ℤ
