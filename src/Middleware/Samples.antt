-- ===== src/Middleware/Samples.antt =====
-- A resource server, its verifier and a request, for the runs of the guards.
use axiam_typescript_sdk.Prelude.{true, false, [], ◌∷◌, none, some, str_eq, if◌then◌else◌}
use axiam_typescript_sdk.Prelude.Int.{pos}
use axiam_typescript_sdk.Prelude.Texts.{codes}
use axiam_typescript_sdk.Prelude.Results.{Result, ok, err}
use axiam_typescript_sdk.Json.{Json, num, str, obj, from_list}
use axiam_typescript_sdk.Core.Errors.{network}
use axiam_typescript_sdk.Core.Memo.{AccessDecision}
use axiam_typescript_sdk.Node.Jwks.{Thrown, plain, sdk, Jose, verify_access_token}
use axiam_typescript_sdk.Node.Revocation.{RevocationFeed}
use axiam_typescript_sdk.Middleware.Verify.{VerifiableSession, AxiamIdentity}
use axiam_typescript_sdk.Middleware.Authz.{AccessCheck, from_param, UmaChallenger}
use axiam_typescript_sdk.Middleware.Express.{Request, Platform, AccessGuard}

abbrev pub claims : Json
claims = obj (
    from_list (
      ("sub", str "u-1")
      ∷ ("tenant_id", str "t-1")
      ∷ ("exp", num (pos 1000))
      ∷ ("sid", str "s-2")
      ∷ ("scope", str "reader  writer")
      ∷ []))

abbrev pub jose : Jose
jose = record {
  jwt_verify = λ token options.
      if str_eq token "access"
      then ok claims
      else err
          (plain "signature verification failed" (some "ERR_JWS_SIGNATURE_VERIFICATION_FAILED"));
  decode_protected_header = λ token. none;
}

abbrev pub feed : RevocationFeed
feed = record {
  poll_interval_ms = 15000;
  entries = some ("s-1" ∷ []);
  last_attempt = some 10000;
  fetching = false;
}

abbrev pub session : VerifiableSession
session = record {
  verify_access_token = verify_access_token jose;
  tenant_header_value = "t-1";
  expected_issuer = none;
  expected_audience = some "axiam:user";
  revocation_feed = some feed;
  entry_for = λ sid. sid;
}

abbrev pub identity : AxiamIdentity
identity = record { user_id = str "u-1"; tenant_id = "t-1"; roles = "reader" ∷ "writer" ∷ [] }

abbrev pub platform : Platform
platform = record { utf8 = codes; thumbprint = λ raw. "thumb" }

abbrev pub req : Request
req = record {
  method = some "POST";
  url = some "/documents/d-1";
  cookie_header = some "axiam_access=access; axiam_csrf=c1";
  authorization = none;
  csrf_token = some "c1";
  socket = none;
  params = ("id", "d-1") ∷ [];
  axiam_user = none;
}

-- Documents may be read, but not all of them.
abbrev pub check_access : AccessCheck → Result Thrown AccessDecision
check_access check =
    if str_eq check.resource_id "d-1"
    then ok (record { allowed = true; reason = none; reason_code = some "allowed" })
    else err (sdk (network "connection refused" none))

abbrev pub guard : AccessGuard
guard = record {
  check_access = check_access;
  action = "documents:read";
  resource = from_param "id";
  scope = none;
  logger = true;
  uma_challenge = none;
  challenges = none;
}

abbrev pub challenger : UmaChallenger
challenger = record {
  realm = "docs";
  as_uri = "https://iam.test";
  pat = "p";
  mint = λ pat r a. some "ticket";
}
