-- ===== src/Rest/Interceptors.antt =====
-- rest/interceptors.ts: what the refresh interceptor does with a response that failed, and a request sent
-- through it. A replayed request passes the interceptor again: `request` runs on fuel.
pub mod Replay
pub mod Refreshes
pub mod Concluded
mod Tests
use text.Mathlib.Text.{find?}
use axiam_typescript_sdk.Prelude.{
  ℕ, zero, suc, String, Bool, true, false, not, ◌&&◌, ◌||◌, List, [], ◌∷◌, ◌++◌, Option, none, some,
  ◌==◌, if◌then◌else◌, is_some, or_else, any,
}
use axiam_typescript_sdk.Prelude.Results.{Result, ok, err}
use axiam_typescript_sdk.Json.{Json}
use axiam_typescript_sdk.Core.Errors.{AxiamError}
use axiam_typescript_sdk.Core.Mapper.{map_http_status_to_error}

abbrev pub skip_refresh : List String
skip_refresh =
    "/api/v1/auth/refresh" ∷ "/api/v1/auth/login" ∷ "/api/v1/auth/logout" ∷ "/api/v1/auth/device"
    ∷ "/oauth2/token" ∷ "/oauth2/device_authorization" ∷ "/oauth2/introspect" ∷ "/oauth2/revoke"
    ∷ []

-- What the interceptor reads and writes of the session.
pub record SharedSession : Type 0 where
  pub authenticated : Bool
  pub csrf_token : Option String
  pub device_access_token : Option String

pub record RequestConfig : Type 0 where
  pub url : Option String
  pub _retry : Bool

-- `value` is the error itself, which the mapped errors keep as their cause.
pub record AxiosError : Type 0 where
  pub value : Json
  pub config : Option RequestConfig
  pub response : Option (ℕ × Option Json)

-- A rejection: the error as it came, or an error of the SDK.
pub data Rejection : Type 0 where
  passed : AxiosError → Rejection
  mapped : AxiamError → Rejection

pub data Call : Type 0 where
  sent : RequestConfig → Call
  refreshed : Call

-- What the interceptor waits for: the transport, and the promise of `session.refreshGuard`, with what
-- it rejected with. Others may act on the session meanwhile, so each answers the session too.
pub record Transport (World Response : Type 0) : Type 0 where
  pub send :
      World → SharedSession → RequestConfig → Result AxiosError Response × SharedSession × World
  pub refresh_guard : World → SharedSession → Result Json (Unit {0}) × SharedSession × World
  -- `new URL(url).pathname`, `none` where it throws.
  pub pathname : String → Option String

pub record Run (World Response : Type 0) : Type 0 where
  pub outcome : Result Rejection Response
  pub session : SharedSession
  pub world : World
  pub calls : List Call

abbrev pub url_of : RequestConfig → String
url_of config = or_else config.url ""

abbrev pub is_skip_refresh : RequestConfig → Bool
is_skip_refresh config = any (λ skip. is_some (find? (url_of config) skip)) skip_refresh

abbrev pub is_device_session : SharedSession → Bool
is_device_session session = is_some session.device_access_token

-- Whether a failed response is answered by a refresh.
abbrev pub refreshes : ℕ → RequestConfig → SharedSession → Bool
refreshes status config session =
    status == 401
    && not config._retry
    && not (is_skip_refresh config)
    && session.authenticated
    && not (is_device_session session)

-- The session after a refresh that failed.
abbrev pub signed_out : SharedSession → SharedSession
signed_out session = record session { authenticated = false; csrf_token = none }

module _ {World Response : Type 0} (transport : Transport World Response) where
  open transport use {send, refresh_guard, pathname}

  -- `mapHttpStatusToError(401, ...)` after a refresh that failed.
  pub refresh_failed : Json → AxiamError
  refresh_failed cause =
      map_http_status_to_error pathname 401 "session refresh failed; re-authentication required"
        (record { action = none; resource_id = none; cause = some cause; url = none; body = none })

  pub authentication_failed : RequestConfig → AxiosError → Option Json → AxiamError
  authentication_failed config error data_ =
      map_http_status_to_error pathname 401 "authentication failed" (record {
        action = none;
        resource_id = none;
        cause = some error.value;
        url = some (url_of config);
        body = data_;
      })

  abbrev ended : Result Rejection Response → SharedSession → World → Option (Run World Response)
  ended outcome session world =
      some (record { outcome = outcome; session = session; world = world; calls = [] })

  abbrev pub after_calls : List Call → Option (Run World Response) → Option (Run World Response)
  after_calls before none = none
  after_calls before (some run) = some (record run { calls = before ++ run.calls })

  -- How the original request is replayed.
  abbrev pub Replay : Type 0
  Replay = RequestConfig → SharedSession → World → Option (Run World Response)

  -- The `try`: the refresh, then the replay or the catch. A replay that is rejected is not caught.
  pub refresh_and_replay :
      Replay → RequestConfig → SharedSession → World → Option (Run World Response)
  refresh_and_replay replay config session world =
      let (answer, session_, world_) = refresh_guard world session in
      after_calls (refreshed ∷ []) (elim answer [
        | ok done ↦ replay (record config { _retry = true }) session_ world_
        | err cause ↦ ended (err (mapped (refresh_failed cause))) (signed_out session_) world_
      ])

  pub on_response :
      Replay
      → AxiosError
      → RequestConfig
      → ℕ × Option Json
      → SharedSession
      → World
      → Option (Run World Response)
  unfolding refresh_and_replay
  on_response replay error config response session world =
      if refreshes response.0 config session
      then refresh_and_replay replay config session world
      else if response.0 == 401 && (is_skip_refresh config || is_device_session session)
      then ended (err (mapped (authentication_failed config error response.1))) session world
      else ended (err (passed error)) session world

  -- With the config and the response of the error.
  pub on_parts :
      Replay
      → AxiosError
      → Option RequestConfig
      → Option (ℕ × Option Json)
      → SharedSession
      → World
      → Option (Run World Response)
  unfolding on_response
  on_parts replay error (some config) (some response) session world =
      on_response replay error config response session world
  on_parts replay error _ _ session world = ended (err (passed error)) session world

  pub on_rejected : Replay → AxiosError → SharedSession → World → Option (Run World Response)
  unfolding on_parts
  on_rejected replay error session world =
      on_parts replay error error.config error.response session world

  pub on_settled :
      Replay → Result AxiosError Response → SharedSession → World → Option (Run World Response)
  unfolding on_rejected
  on_settled replay (ok response) session world = ended (ok response) session world
  on_settled replay (err error) session world = on_rejected replay error session world

  pub request : ℕ → RequestConfig → SharedSession → World → Option (Run World Response)
  unfolding on_settled
  request zero config session world = none
  request (suc fuel) config session world =
      let (answer, session_, world_) = send world session config in
      after_calls (sent config ∷ []) (on_settled (request fuel) answer session_ world_)
