-- ===== src/Manifest/Report/Failure.antt =====
-- Which failure a report shows (management/manifest/plan.ts).
use axiam_typescript_sdk.Prelude.{
  ◌≡◌, ◌↔◌, ◌∙◌, inl, inr, refl, true, List, [], ◌∷◌, none, some, arith, Option-cases, All,
}
use axiam_typescript_sdk.Manifest.Report.{
  AppliedStep, ManifestFailure, failure_of, first_of, failure, is_complete,
}

-- The step ran as it was meant to, or was not run.
abbrev pub HasNoFailure : AppliedStep → Type 0
HasNoFailure s = failure_of s ≡ none

-- The failure is that of a step before which none failed.
pub data IsFirst : ManifestFailure → List AppliedStep → Type 0 where
  here :
      {f : ManifestFailure} {s : AppliedStep} {ss : List AppliedStep}
      → failure_of s ≡ some f
      → IsFirst f (s ∷ ss)
  later :
      {f : ManifestFailure} {s : AppliedStep} {ss : List AppliedStep}
      → HasNoFailure s
      → IsFirst f ss
      → IsFirst f (s ∷ ss)

IsFirst-failure :
    {f : ManifestFailure} {steps : List AppliedStep} → IsFirst f steps → failure steps ≡ some f
unfolding failure first_of
IsFirst-failure (here e) = rw (e, first_of) refl
IsFirst-failure (later e r) = rw (e, first_of) (IsFirst-failure r)

failure-IsFirst :
    (f : ManifestFailure) (steps : List AppliedStep) → failure steps ≡ some f → IsFirst f steps
unfolding failure first_of
failure-IsFirst f [] e = cc
failure-IsFirst f (s ∷ ss) e = elim (Option-cases (failure_of s)) [
  | inl fine ↦ later fine (failure-IsFirst f ss (rw (fine, first_of) at e))
  | inr (g, bad) ↦ here (bad ∙ rw (bad, first_of) at e)
]

failure-none : (steps : List AppliedStep) → (failure steps ≡ none) ↔ All HasNoFailure steps
unfolding failure first_of
failure-none [] = ((λ e. tt), λ h. refl)
failure-none (s ∷ ss) =
    let (f, g) = failure-none ss in
    elim (Option-cases (failure_of s)) [
      | inl fine ↦ rw (fine, first_of) ((λ e. (refl, f e)), λ (_, rest). g rest)
      | inr (x, bad) ↦ rw (bad, first_of) ((λ e. cc), λ (fine, _). cc)
    ]

-- The failure that a report shows is that of the first step that failed, a failed rebinding included;
-- and a report is complete exactly if no step failed.
pub failure_iff :
    (steps : List AppliedStep)
    → ((f : ManifestFailure) → (failure steps ≡ some f) ↔ IsFirst f steps)
      × ((is_complete steps ≡ true) ↔ All HasNoFailure steps)
unfolding is_complete
failure_iff steps =
    let (f, g) = failure-none steps in
    (
      (λ x. (failure-IsFirst x steps, λ h. IsFirst-failure h)),
      (
        (λ e. elim (Option-cases (failure steps)) [
          | inl fine ↦ f fine
          | inr (x, bad) ↦ absurd (ground (arith, bad))
        ]),
        λ h. ground (arith, g h),
      ),
    )
