-- ===== src/Rest/Interceptors/Tests.antt =====
-- An expired access token, against a transport that answers 401 until the refresh (rest/interceptors.ts).
use axiam_typescript_sdk.Prelude.{
  ℕ, zero, suc, ◌≡◌, refl, ap, String, true, false, List, ◌∷◌, Option, none, some,
}
use axiam_typescript_sdk.Prelude.Results.{Result, ok, err}
use axiam_typescript_sdk.Json.{null}
use axiam_typescript_sdk.Rest.Interceptors.{
  SharedSession, RequestConfig, AxiosError, Call, sent, Transport, Run, request, refreshes,
}
use axiam_typescript_sdk.Rest.Interceptors.Replay.{Follows, Keeps, request-Follows}

abbrev expired : RequestConfig → AxiosError
expired config = record { value = null; config = some config; response = some (401, none) }

abbrev answer_at : ℕ → RequestConfig → Result AxiosError String
answer_at zero config = err (expired config)
answer_at (suc n) config = ok "done"

-- The world is the number of refreshes so far.
abbrev transport : Transport ℕ String
transport = record {
  send = λ w s config. (answer_at w config, s, w);
  refresh_guard = λ w s. (ok tt, s, suc w);
  pathname = λ url. none;
}

abbrev session : SharedSession
session = record { authenticated = true; csrf_token = some "c"; device_access_token = none }

abbrev config : RequestConfig
config = record { url = some "/api/v1/users"; _retry = false }

abbrev login : RequestConfig
login = record { url = some "/api/v1/auth/login"; _retry = false }

is_refreshed : refreshes 401 config session ≡ true
is_refreshed = refl

is_skipped : refreshes 401 login session ≡ false
is_skipped = refl

abbrev config_of : Result AxiosError String → Option RequestConfig
config_of (ok r) = none
config_of (err e) = e.config

transport-Keeps : Keeps transport
transport-Keeps zero s c e d answer given = cc (ap config_of answer)
transport-Keeps (suc w) s c e d answer given = cc

request-Follows_example :
    (run : Run ℕ String) × (request transport 2 config session 0 ≡ some run)
    × (calls : List Call) × (run.calls ≡ sent config ∷ calls)
    × Follows config calls
request-Follows_example = request-Follows transport transport-Keeps 0 config session 0

-- The same, with a refresh token that is no longer good.
abbrev lapsed : Transport ℕ String
lapsed = record transport { refresh_guard = λ w s. (err null, s, w) }
