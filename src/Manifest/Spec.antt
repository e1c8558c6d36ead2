-- ===== src/Manifest/Spec.antt =====
-- management/manifest/spec.ts: the parts of the manifest that `validate` and `topologicalOrder` of
-- plan.ts read. An absent list is an empty one, since every reader writes `?? []`; names,
-- descriptions and other texts that neither reads are left out.
use axiam_typescript_sdk.Prelude.{String, Bool, true, List, Option, none, some}

pub record ResourceSpec : Type 0 where
  pub key : String
  pub parent : Option String
  pub scopes : List String

pub record GrantSpec : Type 0 where
  pub permission : String
  pub scopes : List String

pub record RoleSpec : Type 0 where
  pub key : String
  pub is_global : Bool
  pub grants : List GrantSpec

pub data RoleBinding : Type 0 where
  plain : (role : String) → RoleBinding
  bound : (role : String) → (resource : Option String) → (inherit : Option Bool) → RoleBinding

abbrev pub role_key_of : RoleBinding → String
role_key_of (plain role) = role
role_key_of (bound role resource inherit) = role

abbrev pub resource_key_of : RoleBinding → Option String
resource_key_of (plain role) = none
resource_key_of (bound role resource inherit) = resource

abbrev pub inherit_of : RoleBinding → Bool
inherit_of (plain role) = true
inherit_of (bound role resource none) = true
inherit_of (bound role resource (some inherit)) = inherit

pub record GroupSpec : Type 0 where
  pub key : String
  pub roles : List RoleBinding

pub record UserSpec : Type 0 where
  pub key : String
  pub roles : List RoleBinding
  pub groups : List String

pub record ServiceAccountSpec : Type 0 where
  pub key : String
  pub roles : List RoleBinding

pub record NetworkSegmentSpec : Type 0 where
  pub key : String
  pub site : String
  pub kind : String
  pub name : String
  pub filter_ids : List String

-- An optional property that may also be `null`.
pub data Stated : Type 0 where
  left_out stated_null : Stated
  states : String → Stated

pub record NetworkProfileSpec : Type 0 where
  pub segment : String
  pub termination_action : Stated

pub record NetworkSpec : Type 0 where
  -- `Array.isArray(network.policy)`, which the type rules out and the code checks.
  pub policy_is_array : Bool
  pub segments : List NetworkSegmentSpec
  pub profiles : List NetworkProfileSpec

pub record ManagementManifest : Type 0 where
  pub resources : List ResourceSpec
  pub permissions : List String
  pub roles : List RoleSpec
  pub groups : List GroupSpec
  pub users : List UserSpec
  pub service_accounts : List ServiceAccountSpec
  pub network : Option NetworkSpec
