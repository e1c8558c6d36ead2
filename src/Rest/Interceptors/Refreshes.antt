-- ===== src/Rest/Interceptors/Refreshes.antt =====
-- When a refresh is attempted (rest/interceptors.ts).
use axiam_typescript_sdk.Prelude.{
  ℕ, ◌≡◌, ◌↔◌, String, Bool, true, false, not, ◌&&◌, List, [], ◌∷◌, Option, none, some, arith, ◌==◌,
  is_some,
}
use axiam_typescript_sdk.Prelude.Results.{Result, ok, err}
use axiam_typescript_sdk.Json.{Json}
use axiam_typescript_sdk.Rest.Interceptors.{
  SharedSession, RequestConfig, AxiosError, Call, sent, refreshed, Transport, Run, Replay,
  is_skip_refresh,
}

-- The request is no replay and goes to no excluded endpoint, and the session is authenticated and holds no
-- device token.
abbrev pub MayRefresh : RequestConfig → SharedSession → Type 0
MayRefresh config s =
    (config._retry ≡ false)
    × (is_skip_refresh config ≡ false)
    × (s.authenticated ≡ true)
    × (s.device_access_token ≡ none)

pub tests_iff :
    (status : ℕ) (retry skip authenticated : Bool) (device : Option String)
    → ((status == 401 && not retry && not skip && authenticated && not (is_some device)) ≡ true) ↔ (
        (status ≡ 401)
        × ((retry ≡ false) × (skip ≡ false) × (authenticated ≡ true) × (device ≡ none)))
tests_iff status retry skip authenticated none = ground arith
tests_iff status retry skip authenticated (some token) = ground arith

-- The answer is a 401 to this request, with some body or none.
abbrev pub IsUnauthorized : Option RequestConfig → Option (ℕ × Option Json) → RequestConfig → Type 0
IsUnauthorized from response config =
    (from ≡ some config) × ((data_ : Option Json) × (response ≡ some (401, data_)))

abbrev status_or : ℕ → Option (ℕ × Option Json) → ℕ
status_or n none = n
status_or n (some response) = response.0

asked : List Call → Bool
asked [] = false
asked (sent config ∷ calls) = asked calls
asked (refreshed ∷ calls) = true

module _ {World Response : Type 0} (transport : Transport World Response) where
  open transport use {send, refresh_guard, pathname}

  -- Whether a request has asked for a refresh.
  pub asks_refresh : Option (Run World Response) → Bool
  unfolding asked
  asks_refresh none = false
  asks_refresh (some run) = asked run.calls

  -- The transport answered a request with a 401.
  abbrev pub WasUnauthorized : Result AxiosError Response → RequestConfig → Type 0
  WasUnauthorized (ok response) config = ⊥
  WasUnauthorized (err e) config = IsUnauthorized e.config e.response config
