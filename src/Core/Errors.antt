-- ===== src/Core/Errors.antt =====
-- core/errors.ts: the errors that the SDK throws. A class is a constructor; `OAuthProtocolError` is
-- the sub-type of `AuthError` that the type guards below count with it.
use axiam_typescript_sdk.Prelude.{ℕ, String, Bool, true, false, Option, if◌then◌else◌, str_eq}
use axiam_typescript_sdk.Json.{Json}
use Prim.Native.String

pub data AxiamError : Type 0 where
  auth : (message : String) (reason : Option String) → AxiamError
  oauth_protocol :
      (error : String) (error_description : String) (retry_after_ms : Option ℕ) → AxiamError
  authz : (message : String) (action : Option String) (resource_id : Option String) → AxiamError
  network : (message : String) (cause : Option Json) → AxiamError

-- `message`, as each constructor sets it.
unfoldable pub message_of : AxiamError → String
message_of (auth message reason) = message
message_of (oauth_protocol error description retry) =
    if str_eq description "" then error else String.◌++◌ error (String.◌++◌ ": " description)
message_of (authz message action resource_id) = message
message_of (network message cause) = message

-- `instanceof AuthError`
abbrev pub is_auth_error : AxiamError → Bool
is_auth_error (auth message reason) = true
is_auth_error (oauth_protocol error description retry) = true
is_auth_error _ = false

-- `instanceof NetworkError`
abbrev pub is_network_error : AxiamError → Bool
is_network_error (network message cause) = true
is_network_error _ = false
