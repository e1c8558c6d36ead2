-- ===== src/Amqp/Reactor/Registry.antt =====
-- amqp/reactor/registry.ts: the hookable events and what a reply may change.
pub mod Fields
pub mod Policy
mod Tests
use Prim.Native.Char.{code}
use Prim.Native.String
use axiam_typescript_sdk.Prelude.{
  ℕ, zero, suc, ◌+◌, ◌-◌, ◌*◌, ◌^◌, ◌≤◌, ◌<◌, min, max, ◌≡◌, ◌≢◌, ◌↔◌, ◌∙◌, ◌⊎◌, inl, inr, refl,
  sym, ap, subst, String, Bool, true, false, not, ◌&&◌, ◌||◌, List, [], ◌∷◌, ◌++◌, map, Option,
  none, some, arith, str_eq, eq_iff, ltb, leb, ◌==◌, if◌then◌else◌, ltb→lt, lt→ltb, leb→le, le→leb,
  ==_iff, Bool-cases, Option-cases, or_else, is_some, length, length-append, All, All-append, any,
  contains,
}

pub data FailurePolicy : Type 0 where
  fail_open fail_closed : FailurePolicy

pub data ReactorMode : Type 0 where
  intercept listen : ReactorMode

pub record ReactorEventSpec : Type 0 where
  pub name : String
  pub interceptable : Bool
  pub mutable : Bool
  pub mutable_fields : List String
  pub default_failure_policy : FailurePolicy
  pub description : String

-- `REACTOR_EVENTS`
abbrev pub token_pre_issue : String
token_pre_issue = "token.pre_issue"

abbrev pub login_post_auth : String
login_post_auth = "login.post_auth"

abbrev pub user_pre_create : String
user_pre_create = "user.pre_create"

abbrev pub user_pre_update : String
user_pre_update = "user.pre_update"

abbrev pub grant_pre_assign : String
grant_pre_assign = "grant.pre_assign"

abbrev pub token_spec : ReactorEventSpec
token_spec = record {
  name = token_pre_issue;
  interceptable = true;
  mutable = true;
  mutable_fields = "ext." ∷ [];
  default_failure_policy = fail_open;
  description = "Enrich or veto token issuance. May add claims under `ext.` only.";
}

abbrev pub login_spec : ReactorEventSpec
login_spec = record {
  name = login_post_auth;
  interceptable = true;
  mutable = false;
  mutable_fields = [];
  default_failure_policy = fail_closed;
  description = "After credentials verify, before session issuance: veto or require step-up MFA.";
}

abbrev pub create_spec : ReactorEventSpec
create_spec = record {
  name = user_pre_create;
  interceptable = true;
  mutable = true;
  mutable_fields = "username" ∷ "email" ∷ "metadata." ∷ [];
  default_failure_policy = fail_closed;
  description = "Validate or normalize a new user's profile fields.";
}

abbrev pub update_spec : ReactorEventSpec
update_spec = record {
  name = user_pre_update;
  interceptable = true;
  mutable = true;
  mutable_fields = "username" ∷ "email" ∷ "metadata." ∷ [];
  default_failure_policy = fail_closed;
  description = "Validate or normalize a profile update.";
}

abbrev pub grant_spec : ReactorEventSpec
grant_spec = record {
  name = grant_pre_assign;
  interceptable = true;
  mutable = false;
  mutable_fields = [];
  default_failure_policy = fail_closed;
  description = "Veto a role or permission assignment (four-eyes workflows). Veto-only.";
}

abbrev pub event_registry : List ReactorEventSpec
event_registry = token_spec ∷ login_spec ∷ create_spec ∷ update_spec ∷ grant_spec ∷ []

pub find_spec : String → List ReactorEventSpec → Option ReactorEventSpec
find_spec name [] = none
find_spec name (spec ∷ specs) = if str_eq spec.name name then some spec else find_spec name specs

unfoldable pub event_spec : String → Option ReactorEventSpec
unfolding find_spec
event_spec name = find_spec name event_registry

-- `startsWith` and `endsWith('.')`, by characters.
pub starts_with : String → String → Bool
starts_with s String.[] = true
starts_with String.[] (String.◌∷◌ c t) = false
starts_with (String.◌∷◌ d s) (String.◌∷◌ c t) = (code d == code c) && starts_with s t

pub ends_with_dot : String → Bool
ends_with_dot String.[] = false
ends_with_dot (String.◌∷◌ c String.[]) = code c == b'.'
ends_with_dot (String.◌∷◌ c (String.◌∷◌ d s)) = ends_with_dot (String.◌∷◌ d s)

pub text_length : String → ℕ
text_length String.[] = 0
text_length (String.◌∷◌ c s) = suc (text_length s)

-- One entry of the allow-list against a field. Beside `startsWith`, comparing the lengths in
-- characters or in UTF-16 units is the same.
pub entry_allows : String → String → Bool
unfolding starts_with ends_with_dot text_length
entry_allows field allowed =
    if ends_with_dot allowed
    then ltb (text_length allowed) (text_length field) && starts_with field allowed
    else str_eq field allowed

unfoldable pub patch_field_allowed : ReactorEventSpec → String → Bool
unfolding entry_allows
patch_field_allowed spec field =
    if not spec.mutable then false else any (entry_allows field) spec.mutable_fields

is_open : FailurePolicy → Bool
is_open fail_open = true
is_open fail_closed = false

-- Whether the loop over the names goes on past this one.
pub defaults_open : Option ReactorEventSpec → Bool
unfolding is_open
defaults_open none = false
defaults_open (some spec) = is_open spec.default_failure_policy

pub policy_of_all : List String → FailurePolicy
unfolding defaults_open
policy_of_all [] = fail_open
policy_of_all (name ∷ names) =
    if defaults_open (event_spec name) then policy_of_all names else fail_closed

unfoldable pub default_failure_policy_for : List String → FailurePolicy
unfolding policy_of_all
default_failure_policy_for [] = fail_closed
default_failure_policy_for (name ∷ names) = policy_of_all (name ∷ names)
