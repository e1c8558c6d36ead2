-- ===== src/Manifest/Report.antt =====
-- management/manifest/plan.ts: the plan of a manifest and the report of its application.
pub mod Failure
mod Tests
use Prim.Native.String
use axiam_typescript_sdk.Prelude.{
  ℕ, zero, suc, ◌+◌, ◌-◌, ◌*◌, ◌^◌, ◌≤◌, ◌<◌, min, max, ◌≡◌, ◌≢◌, ◌↔◌, ◌∙◌, ◌⊎◌, inl, inr, refl,
  sym, ap, subst, String, Bool, true, false, not, ◌&&◌, ◌||◌, List, [], ◌∷◌, ◌++◌, map, Option,
  none, some, arith, str_eq, eq_iff, ltb, leb, ◌==◌, if◌then◌else◌, ltb→lt, lt→ltb, leb→le, le→leb,
  ==_iff, Bool-cases, Option-cases, or_else, is_some, length, length-append, All, All-append, any,
  contains,
}

pub data Change : Type 0 where
  create update no_change : Change

pub data Target : Type 0 where
  resource scope permission role role_grant group group_role user user_role group_member : Target
  service_account service_account_role network_policy network_segment network_profile : Target

pub record PlannedAction : Type 0 where
  pub change : Change
  pub target : Target
  pub key : String
  pub summary : String

abbrev is_change : Change → Bool
is_change no_change = false
is_change _ = true

-- `changes`
pub changes : List PlannedAction → List PlannedAction
changes [] = []
changes (a ∷ as_) = if is_change a.change then a ∷ changes as_ else changes as_

-- `changes(plan).length === 0`
pub is_converged : List PlannedAction → Bool
unfolding changes
is_converged plan = length (changes plan) == 0

-- The secret of a created service account is its text.
pub data StepOutcome : Type 0 where
  created : (service_account_secret : Option String) → StepOutcome
  updated unchanged not_attempted : StepOutcome
  failed : (message : String) → (reason_code : Option String) → StepOutcome
  rebind_failed :
      (message : String)
      → (restore_succeeded : Bool) → (restore_message : Option String) → StepOutcome

pub record AppliedStep : Type 0 where
  pub action : PlannedAction
  pub outcome : StepOutcome

pub record ManifestFailure : Type 0 where
  pub action : PlannedAction
  pub message : String
  pub reason_code : Option String

-- What became of the binding that was there before.
restore_text : Bool → Option String → String
restore_text true restore_message = " (previous binding restored)"
restore_text false restore_message =
    String.◌++◌ " (restore also failed: "
      (String.◌++◌ (or_else restore_message "unknown error") ")")

-- What a step's outcome adds to a report: nothing unless it failed.
pub failure_of : AppliedStep → Option ManifestFailure
unfolding restore_text
failure_of s = elim s.outcome [
  | created secret ↦ none
  | updated ↦ none
  | unchanged ↦ none
  | not_attempted ↦ none
  | failed message reason ↦
      some (record { action = s.action; message = message; reason_code = reason })
  | rebind_failed message restored why ↦ some (record {
    action = s.action;
    message = String.◌++◌ message (restore_text restored why);
    reason_code = none;
  })
]

first_of : Option ManifestFailure → Option ManifestFailure → Option ManifestFailure
first_of none later = later
first_of (some f) later = some f

pub failure : List AppliedStep → Option ManifestFailure
unfolding failure_of first_of
failure [] = none
failure (s ∷ ss) = first_of (failure_of s) (failure ss)

pub is_complete : List AppliedStep → Bool
unfolding failure
is_complete steps = not (is_some (failure steps))

changed : StepOutcome → Bool
changed (created secret) = true
changed updated = true
changed _ = false

pub changed_count : List AppliedStep → ℕ
unfolding changed
changed_count [] = 0
changed_count (s ∷ ss) = if changed s.outcome then suc (changed_count ss) else changed_count ss
