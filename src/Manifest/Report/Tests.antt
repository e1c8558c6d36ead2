-- ===== src/Manifest/Report/Tests.antt =====
-- The report of an application (management/manifest/plan.ts) at concrete inputs.
use axiam_typescript_sdk.Prelude.{◌≡◌, refl, false, List, [], ◌∷◌, none, some}
use axiam_typescript_sdk.Manifest.Report.{
  create, role, PlannedAction, AppliedStep, updated, rebind_failed, not_attempted, failure,
}

abbrev action : PlannedAction
action = record { change = create; target = role; key = "reader"; summary = "create role reader" }

abbrev steps : List AppliedStep
steps =
    record { action = action; outcome = updated }
    ∷ record { action = action; outcome = rebind_failed "409" false none }
    ∷ record { action = action; outcome = not_attempted }
    ∷ []

shown :
    failure steps
    ≡ some (record {
      action = action;
      message = "409 (restore also failed: unknown error)";
      reason_code = none;
    })
unfolding failure
shown = refl
