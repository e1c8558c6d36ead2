-- ===== src/Core/Mapper/Table.antt =====
-- The status table of core/errorMapper.ts: which row answers, on every status.
use axiam_typescript_sdk.Prelude.{
  ℕ, ◌≡◌, ◌≢◌, ◌⊎◌, inl, inr, String, ◌&&◌, List, [], ◌∷◌, Option, none, some, arith, ◌==◌,
  if◌then◌else◌, is_some, Option-cases,
}
use axiam_typescript_sdk.Prelude.Includes.{IsPrefix, IsInside}
use axiam_typescript_sdk.Json.{Json, str, property}
use axiam_typescript_sdk.Core.Errors.{AxiamError, auth, oauth_protocol, authz, network}
use axiam_typescript_sdk.Core.Mapper.{
  HttpErrorContext, is_oauth2_endpoint_url, oauth2_error_body, generic_error,
  map_http_status_to_error, map_grpc_status_to_error,
}

-- The columns of the two tables: which class the error has.
pub data Row : Type 0 where
  auth_error authz_error network_error : Row

pub row_of : AxiamError → Row
row_of (auth message reason) = auth_error
row_of (oauth_protocol error description retry) = auth_error
row_of (authz message action resource_id) = authz_error
row_of (network message cause) = network_error

-- The rows as data: a status that is not listed is a `NetworkError`.
abbrev pub row_in : List (ℕ × Row) → ℕ → Row
row_in [] status = network_error
row_in ((s, r) ∷ rows) status = if s == status then r else row_in rows status

abbrev pub http_rows : List (ℕ × Row)
http_rows = (401, auth_error) ∷ (403, authz_error) ∷ (409, authz_error) ∷ []

abbrev pub grpc_rows : List (ℕ × Row)
grpc_rows = (16, auth_error) ∷ (7, authz_error) ∷ []

-- The URL is of the OAuth2 family: its path begins with `/oauth2/`, or, where it cannot be parsed, as a bare
-- path cannot, it has `/oauth2/` somewhere.
abbrev pub NamesOauth2 : (String → Option String) → Option String → Type 0
NamesOauth2 pathname none = ⊥
NamesOauth2 pathname (some url) =
    (url ≢ "")
    × (((path : String) × (pathname url ≡ some path) × IsPrefix "/oauth2/" path)
        ⊎ ((pathname url ≡ none) × IsInside "/oauth2/" url))

-- The body has these texts as its `error` and its `error_description`.
abbrev pub IsOauth2Error : Option Json → (error description : String) → Type 0
IsOauth2Error none error description = ⊥
IsOauth2Error (some body) error description =
    (property "error" body ≡ some (str error))
    × (property "error_description" body ≡ some (str description))

module _ (pathname : String → Option String) (status : ℕ) (message : String)
    (ctx : HttpErrorContext) where
  -- On every status the class of the error is the row of the status, but for a 400 from an OAuth2
  -- endpoint whose body has both strings, which is an `AuthError`.
  pub map-row : row_of (map_http_status_to_error pathname status message ctx) ≡ (
      if status == 400
        && (is_oauth2_endpoint_url pathname ctx.url && is_some (oauth2_error_body ctx.body))
      then auth_error
      else row_in http_rows status)
  unfolding map_http_status_to_error generic_error row_of
  map-row = elim (Option-cases (oauth2_error_body ctx.body)) [
    | inl e ↦ rw e (ground arith)
    | inr (_, e) ↦ rw e (ground arith)
  ]

-- The gRPC mapping follows its table on every code.
pub map_grpc-row :
    (code : ℕ) (message : String)
    → row_of (map_grpc_status_to_error code message) ≡ row_in grpc_rows code
unfolding map_grpc_status_to_error row_of
map_grpc-row code message = ground arith
