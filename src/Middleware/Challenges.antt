-- ===== src/Middleware/Challenges.antt =====
-- middleware/mcpCore.ts: the absolute URIs, the `Bearer` challenges and what a guard precomputes. A
-- refusal is a `ValidationError` by its operation and field; its message is left out. The metadata
-- document and its route are not modelled.
pub mod Printable
mod Tests
use axiam_typescript_sdk.Prelude.{
  ℕ, zero, suc, ◌+◌, ◌-◌, ◌*◌, ◌^◌, ◌≤◌, ◌<◌, min, max, ◌≡◌, ◌≢◌, ◌↔◌, ◌∙◌, ◌⊎◌, inl, inr, refl,
  sym, ap, subst, String, Bool, true, false, not, ◌&&◌, ◌||◌, List, [], ◌∷◌, ◌++◌, map, Option,
  none, some, arith, str_eq, eq_iff, ltb, leb, ◌==◌, if◌then◌else◌, ltb→lt, lt→ltb, leb→le, le→leb,
  ==_iff, Bool-cases, Option-cases, or_else, is_some, length, length-append, All, All-append, any,
  contains,
}
use axiam_typescript_sdk.Prelude.Texts.{codes, is_empty, cut, split_on, lower, upper, same_codes}
use axiam_typescript_sdk.Prelude.Results.{Result, ok, err, ◌>>=◌, ◌>>◌, ensure}
use axiam_typescript_sdk.Core.Memo.{join}
use axiam_typescript_sdk.Middleware.Credentials.{extract_credential}
use Prim.Native.Char.{code}
use Prim.Native.String

pub data Refusal : Type 0 where
  refused : (operation field : String) → Refusal

abbrev pub is_nqchar : ℕ → Bool
is_nqchar c = c == 0x21 || (leb 0x23 c && leb c 0x5b) || (leb 0x5d c && leb c 0x7e)

abbrev pub is_nqschar : ℕ → Bool
is_nqschar c = c == 0x20 || is_nqchar c

abbrev pub is_all : String → (ℕ → Bool) → Bool
is_all String.[] p = true
is_all (String.◌∷◌ c s) p = p (code c) && is_all s p

-- The longest prefix of characters that pass the test, and the rest.
abbrev span : (ℕ → Bool) → String → String × String
span p String.[] = ("", "")
span p (String.◌∷◌ c s) =
    let rest = span p s in
    if p (code c) then (String.◌∷◌ c rest.0, rest.1) else ("", String.◌∷◌ c s)

abbrev is_alpha : ℕ → Bool
is_alpha c = (leb b'A' c && leb c b'Z') || (leb b'a' c && leb c b'z')

abbrev is_scheme_char : ℕ → Bool
is_scheme_char c = is_alpha c || (leb b'0' c && leb c b'9') || c == b'+' || c == b'.' || c == b'-'

abbrev starts_with : ℕ → String → Bool
starts_with k String.[] = false
starts_with k (String.◌∷◌ c s) = code c == k

abbrev starts_alpha : String → Bool
starts_alpha String.[] = false
starts_alpha (String.◌∷◌ c s) = is_alpha (code c)

-- The text after the given characters, if it begins with them.
abbrev after : List ℕ → String → Option String
after [] s = some s
after (k ∷ ks) String.[] = none
after (k ∷ ks) (String.◌∷◌ c s) = if code c == k then after ks s else none

pub record ParsedUri : Type 0 where
  pub scheme : String
  pub authority : String
  pub path : String
  pub has_query : Bool
  pub has_fragment : Bool

-- The parts past `://`: the groups of the pattern are cut off one by one.
parse_rest : String → String → Option ParsedUri
parse_rest scheme rest =
    let at_path = span (λ c. not (c == b'/' || c == b'?' || c == b'#')) rest in
    let at_query = span (λ c. not (c == b'?' || c == b'#')) at_path.1 in
    let at_fragment = span (λ c. not (c == b'#')) at_query.1 in
    if is_empty at_path.0
    then none
    else some (record {
      scheme = scheme;
      authority = at_path.0;
      path = at_query.0;
      has_query = starts_with b'?' at_query.1;
      has_fragment = starts_with b'#' at_fragment.1;
    })

unfoldable pub parse_absolute_uri : String → Option ParsedUri
unfolding parse_rest
parse_absolute_uri raw =
    let parts = span is_scheme_char raw in
    if not (starts_alpha parts.0)
    then none
    else elim (after (codes "://") parts.1) [ none ↦ none | some rest ↦ parse_rest parts.0 rest ]

-- The text after the last such character.
abbrev after_last : ℕ → String → Option String
after_last k String.[] = none
after_last k (String.◌∷◌ c s) = elim (after_last k s) [
  | some rest ↦ some rest
  | none ↦ if code c == k then some s else none
]

unfoldable pub host_of : String → String
host_of authority =
    let hostport = or_else (after_last b'@' authority) authority in
    if starts_with b'[' hostport
    then elim (cut b']' hostport) [ none ↦ hostport | some parts ↦ String.◌++◌ parts.0 "]" ]
    else elim (cut b':' hostport) [ none ↦ hostport | some parts ↦ parts.0 ]

abbrev lower_is : String → String → Bool
lower_is t s = same_codes (map lower (codes s)) (codes t)

abbrev is_loopback : String → Bool
is_loopback host = lower_is "127.0.0.1" host || lower_is "[::1]" host || lower_is "localhost" host

pub record UriPolicy : Type 0 where
  pub allow_query : Bool
  pub allow_fragment : Bool

abbrev pub identifier : UriPolicy
identifier = record { allow_query = false; allow_fragment = false }

abbrev pub locator : UriPolicy
locator = record { allow_query = true; allow_fragment = true }

parsed_uri : Option ParsedUri → Refusal → UriPolicy → Result Refusal ParsedUri
unfolding host_of
parsed_uri none refusal policy = err refusal
parsed_uri (some uri) refusal policy = do
  ensure (not (uri.has_query && not policy.allow_query)) refusal
  ensure (not (uri.has_fragment && not policy.allow_fragment)) refusal
  ensure
      (lower_is "https" uri.scheme
        || (lower_is "http" uri.scheme && is_loopback (host_of uri.authority)))
      refusal
  ok uri

unfoldable pub require_absolute_uri :
    String → String → String → UriPolicy → Result Refusal ParsedUri
unfolding parsed_uri
require_absolute_uri operation field raw policy = do
  ensure (not (is_empty raw)) (refused operation field)
  parsed_uri (parse_absolute_uri raw) (refused operation field) policy

pub record BearerChallengeOptions : Type 0 where
  pub resource_metadata_url : String
  pub error : Option String
  pub error_description : Option String
  pub scope : Option String

abbrev op : String
op = "bearerChallenge"

abbrev pub quoted : String → String → String
quoted name v = String.◌++◌ name (String.◌++◌ "=\"" (String.◌++◌ v "\""))

-- The three optional parameters, each with its check.
error_param : Option String → Result Refusal (List String)
error_param none = ok []
error_param (some e) = do
  ensure (str_eq e "invalid_request" || str_eq e "invalid_token" || str_eq e "insufficient_scope")
      (refused op "error")
  ok (quoted "error" e ∷ [])

description_param : Option String → Result Refusal (List String)
description_param none = ok []
description_param (some d) = do
  ensure (not (is_empty d) && is_all d is_nqschar) (refused op "error_description")
  ok (quoted "error_description" d ∷ [])

abbrev are_tokens : List String → Bool
are_tokens [] = true
are_tokens (t ∷ ts) = (not (is_empty t) && is_all t is_nqchar) && are_tokens ts

scope_param : Option String → Result Refusal (List String)
scope_param none = ok []
scope_param (some s) = do
  ensure (not (is_empty s)) (refused op "scope")
  ensure (are_tokens (split_on b' ' s)) (refused op "scope")
  ok (quoted "scope" s ∷ [])

unfoldable pub bearer_challenge : BearerChallengeOptions → Result Refusal String
unfolding error_param description_param scope_param
bearer_challenge options = do
  e ← error_param options.error
  d ← description_param options.error_description
  s ← scope_param options.scope
  uri ← require_absolute_uri op "resource_metadata" options.resource_metadata_url locator
  ensure (is_all options.resource_metadata_url is_nqchar) (refused op "resource_metadata")
  ok (
      String.◌++◌ "Bearer " (
        join ", "
          (e ++ (d ++ (s ++ quoted "resource_metadata" options.resource_metadata_url ∷ [])))))

pub record McpGuardChallenges : Type 0 where
  pub no_credential : String
  pub invalid_token : String
  pub insufficient_scope : Option String
  pub metadata_path : String

abbrev pub challenge : String → Option String → Option String → BearerChallengeOptions
challenge url error scope = record {
  resource_metadata_url = url;
  error = error;
  error_description = none;
  scope = scope;
}

scope_challenge : String → Option String → Result Refusal (Option String)
scope_challenge url none = ok none
scope_challenge url (some scope) = do
  text ← bearer_challenge (challenge url (some "insufficient_scope") (some scope))
  ok (some text)

guarded_by : String → Option String → String → Option String → Result Refusal McpGuardChallenges
unfolding scope_challenge
guarded_by url expected_audience operation scope = do
  ensure (not (is_empty (or_else expected_audience ""))) (refused operation "resourceMetadataUrl")
  parsed ← require_absolute_uri operation "resourceMetadataUrl" url locator
  no_credential ← bearer_challenge (challenge url none none)
  invalid_token ← bearer_challenge (challenge url (some "invalid_token") none)
  insufficient_scope ← scope_challenge url scope
  ok (record {
    no_credential = no_credential;
    invalid_token = invalid_token;
    insufficient_scope = insufficient_scope;
    metadata_path = if is_empty parsed.path then "/" else parsed.path;
  })

-- `none` where no metadata URL is configured.
unfoldable pub mcp_guard_challenges :
    Option String
    → Option String
    → String
    → Option String
    → Result Refusal (Option McpGuardChallenges)
unfolding guarded_by
mcp_guard_challenges none expected_audience operation scope = ok none
mcp_guard_challenges (some url) expected_audience operation scope = do
  challenges ← guarded_by url expected_audience operation scope
  ok (some challenges)

unfoldable pub challenge_for_401 : McpGuardChallenges → Option String → Option String → String
challenge_for_401 challenges cookie_header auth_header =
    elim (extract_credential cookie_header auth_header) [
      | none ↦ challenges.no_credential
      | some credential ↦ challenges.invalid_token
    ]

-- `reasonCode === ReasonCode.NO_GRANT`
is_no_grant : Option String → Bool
is_no_grant none = false
is_no_grant (some code_) = str_eq code_ "no_grant"

unfoldable pub challenge_for_403 : Option McpGuardChallenges → Option String → Option String
unfolding is_no_grant
challenge_for_403 none reason_code = none
challenge_for_403 (some challenges) reason_code =
    if is_no_grant reason_code then challenges.insufficient_scope else none

-- The text of a URL before its query and its fragment.
path_of : String → String
path_of url = (span (λ c. not (c == b'?' || c == b'#')) url).0

upper_is : String → String → Bool
upper_is t s = same_codes (map upper (codes s)) (codes t)

unfoldable pub is_metadata_document_request :
    Option McpGuardChallenges → Option String → Option String → Bool
unfolding path_of upper_is
is_metadata_document_request none method url = false
is_metadata_document_request (some challenges) method none = false
is_metadata_document_request (some challenges) method (some url) =
    (upper_is "GET" (or_else method "") || upper_is "HEAD" (or_else method ""))
    && str_eq (path_of url) challenges.metadata_path
