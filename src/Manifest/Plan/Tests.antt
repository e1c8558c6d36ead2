-- ===== src/Manifest/Plan/Tests.antt =====
-- `validate` (management/manifest/plan.ts) at concrete inputs.
use axiam_typescript_sdk.Prelude.{◌≡◌, ◌↔◌, refl, false, [], ◌∷◌, none, some}
use axiam_typescript_sdk.Manifest.Spec.{ManagementManifest, plain, bound}
use axiam_typescript_sdk.Manifest.Plan.{segment_twice, validate}
use axiam_typescript_sdk.Manifest.Plan.Validate.{IsReconcilable, validate_iff}

abbrev manifest : ManagementManifest
manifest = record {
  resources = record { key = "doc"; parent = none; scopes = "draft" ∷ [] } ∷ [];
  permissions = "read" ∷ [];
  roles =
      record {
        key = "reader";
        is_global = false;
        grants = record { permission = "read"; scopes = "draft" ∷ [] } ∷ [];
      }
      ∷ [];
  groups = record { key = "staff"; roles = bound "reader" (some "doc") (some false) ∷ [] } ∷ [];
  users = record { key = "ann"; roles = []; groups = "staff" ∷ [] } ∷ [];
  service_accounts = record { key = "bot"; roles = plain "reader" ∷ [] } ∷ [];
  network = none;
}

passes : validate manifest ≡ []
unfolding validate
passes = refl

-- No resource has the empty key, and none is reported.
abbrev orphan : ManagementManifest
orphan = record manifest {
  resources = record { key = "doc"; parent = some ""; scopes = "draft" ∷ [] } ∷ [];
}

orphan_passes : validate orphan ≡ []
unfolding validate
orphan_passes = refl

-- Two segments whose joined texts are both `a/k/k/n`.
abbrev ambiguous : ManagementManifest
ambiguous = record manifest {
  network = some (record {
    policy_is_array = false;
    segments =
        record { key = "s1"; site = "a"; kind = "k"; name = "k/n"; filter_ids = [] }
        ∷ record { key = "s2"; site = "a/k"; kind = "k"; name = "n"; filter_ids = [] }
        ∷ [];
    profiles = [];
  });
}

ambiguous_refused : validate ambiguous ≡ segment_twice "a/k/k/n" ∷ []
unfolding validate
ambiguous_refused = refl

validate_iff_example : (validate manifest ≡ []) ↔ IsReconcilable manifest
validate_iff_example = validate_iff manifest
