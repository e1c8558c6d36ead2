-- ===== src/Middleware/Challenges/Tests.antt =====
-- The challenges of a resource server (middleware/mcpCore.ts).
use axiam_typescript_sdk.Prelude.{◌≡◌, refl, String, none, some}
use axiam_typescript_sdk.Prelude.Results.{ok, err}
use axiam_typescript_sdk.Core.Memo.{join}
use axiam_typescript_sdk.Middleware.Challenges.{
  refused, BearerChallengeOptions, parse_absolute_uri, host_of, require_absolute_uri,
  bearer_challenge, mcp_guard_challenges, challenge,
}
use axiam_typescript_sdk.Middleware.Challenges.Printable.{IsPrintable, bearer_challenge-IsPrintable}

abbrev options : BearerChallengeOptions
options = challenge "https://api.test/.well-known/x" (some "insufficient_scope") (some "read write")

abbrev text : String
text =
    "Bearer error=\"insufficient_scope\", scope=\"read write\", resource_metadata=\"https://api.test/.well-known/x\""

built : bearer_challenge options ≡ ok text
unfolding bearer_challenge require_absolute_uri parse_absolute_uri join
built = refl

bearer_challenge-IsPrintable_example : IsPrintable text
bearer_challenge-IsPrintable_example = bearer_challenge-IsPrintable options text built

abbrev doubled : BearerChallengeOptions
doubled = challenge "https://api.test/" none (some "read  write")

double_space : bearer_challenge doubled ≡ err (refused "bearerChallenge" "scope")
unfolding bearer_challenge
double_space = refl

loopback : host_of "user@[::1]:8080" ≡ "[::1]"
unfolding host_of
loopback = refl

no_audience :
    mcp_guard_challenges (some "https://api.test/") none "requireAccess" none
    ≡ err (refused "requireAccess" "resourceMetadataUrl")
unfolding mcp_guard_challenges
no_audience = refl
