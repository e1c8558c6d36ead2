-- ===== src/Manifest/Plan/Network.antt =====
-- When `validateNetwork` (management/manifest/plan.ts) reports nothing.
use Prim.Native.String
use axiam_typescript_sdk.Prelude.{
  ◌≡◌, ◌≢◌, ◌↔◌, refl, String, false, List, [], ◌∷◌, map, Option, none, some, All, contains,
}
use axiam_typescript_sdk.Manifest.Spec.{
  NetworkSegmentSpec, Stated, left_out, stated_null, states, NetworkProfileSpec, NetworkSpec,
}
use axiam_typescript_sdk.Manifest.Order.Climb.{AllDistinct}
use axiam_typescript_sdk.Manifest.Plan.{
  duplicates, natural_key, check_segments_from, is_stated_null, check_profiles_from,
  validate_network, network_problems, filter_twice,
}
use axiam_typescript_sdk.Manifest.Plan.Checks.{
  Checks, Checks-append, Checks-report, AllFresh, AllFresh-cons, AllFresh-nil, Checks-repeated,
}
use axiam_typescript_sdk.Manifest.Plan.Parts.{Checks-iff, Checks-IsDeclared, IsDeclared}

-- `site/kind/name`
abbrev pub joined : NetworkSegmentSpec → String
joined s = String.◌++◌ s.site (String.◌++◌ "/" (String.◌++◌ s.kind (String.◌++◌ "/" s.name)))

-- No two segments whose site, kind and name, joined by slashes, are the same text, and no Filter-Id twice in
-- one. The joined texts of two segments may be the same though their sites, say, are not.
abbrev pub AreSegments : List NetworkSegmentSpec → Type 0
AreSegments ss = AllDistinct (map joined ss) × All (λ s. AllDistinct s.filter_ids) ss

Checks-segments_from :
    (naturals : List String) (ss : List NetworkSegmentSpec)
    → Checks (check_segments_from naturals ss) (AllFresh naturals (map joined ss) × AreSegments ss)
unfolding check_segments_from natural_key
Checks-segments_from naturals [] = ((λ e. (tt, (tt, tt))), λ e. refl)
Checks-segments_from naturals (s ∷ ss) =
    let (f, g) = Checks-append (Checks-report (contains (natural_key s) naturals) _) (
      Checks-append (Checks-repeated (filter_twice s.key) s.filter_ids)
        (Checks-segments_from (natural_key s ∷ naturals) ss)) in
    let (to, of) = AllFresh-cons (joined s) naturals (map joined ss) in
    (
      (λ e.
          let (new, (filters, (fresh, (distinct, all)))) = f e in
          let (once, rest) = to fresh in ((new, rest), ((once, distinct), (filters, all)))),
      λ ((new, rest), ((once, distinct), (filters, all))).
          g (new, (filters, (of (once, rest), (distinct, all)))),
    )

-- A profile names a declared segment and does not state `null` as its termination action.
abbrev pub IsProfile : List String → NetworkProfileSpec → Type 0
IsProfile segment_keys p = IsDeclared segment_keys p.segment × (p.termination_action ≢ stated_null)

abbrev pub AreProfiles : List String → List NetworkProfileSpec → Type 0
AreProfiles segment_keys ps =
    AllDistinct (map (λ p. p.segment) ps) × All (IsProfile segment_keys) ps

is_stated_null_iff : (s : Stated) → (is_stated_null s ≡ false) ↔ (s ≢ stated_null)
unfolding is_stated_null
is_stated_null_iff left_out = ((λ e h. cc), λ h. refl)
is_stated_null_iff stated_null = ((λ e h. cc), λ h. absurd (h refl))
is_stated_null_iff (states a) = ((λ e h. cc), λ h. refl)

Checks-profiles_from :
    (segment_keys profiled : List String) (ps : List NetworkProfileSpec)
    → Checks
        (check_profiles_from segment_keys profiled ps)
        (AllFresh profiled (map (λ p. p.segment) ps) × AreProfiles segment_keys ps)
unfolding check_profiles_from
Checks-profiles_from segment_keys profiled [] = ((λ e. (tt, (tt, tt))), λ e. refl)
Checks-profiles_from segment_keys profiled (p ∷ ps) =
    let (f, g) = Checks-append (Checks-IsDeclared segment_keys p.segment _) (
      Checks-append (Checks-report (contains p.segment profiled) _) (
        Checks-append
          (Checks-iff (Checks-report (is_stated_null p.termination_action) _)
            (is_stated_null_iff p.termination_action))
          (Checks-profiles_from segment_keys (p.segment ∷ profiled) ps))) in
    let (to, of) = AllFresh-cons p.segment profiled (map (λ p. p.segment) ps) in
    (
      (λ e.
          let (known, (new, (stated, (fresh, (distinct, all))))) = f e in
          let (once, rest) = to fresh in ((new, rest), ((once, distinct), ((known, stated), all)))),
      λ ((new, rest), ((once, distinct), ((known, stated), all))).
          g (known, (new, (stated, (of (once, rest), (distinct, all))))),
    )

-- A network section that can be reconciled; a manifest may have none.
abbrev pub IsNetwork : Option NetworkSpec → Type 0
IsNetwork none = Unit {0}
IsNetwork (some n) =
    (n.policy_is_array ≡ false)
    × (AllDistinct (map (λ s. s.key) n.segments)
        × (AreSegments n.segments × AreProfiles (map (λ s. s.key) n.segments) n.profiles))

pub Checks-IsNetwork : (o : Option NetworkSpec) → Checks (network_problems o) (IsNetwork o)
unfolding network_problems validate_network duplicates
Checks-IsNetwork none = ((λ e. tt), λ e. refl)
Checks-IsNetwork (some n) =
    let (f, g) = Checks-append (Checks-report n.policy_is_array _) (
      Checks-append (Checks-repeated _ (map (λ s. s.key) n.segments)) (
        Checks-append (Checks-segments_from [] n.segments)
          (Checks-profiles_from (map (λ s. s.key) n.segments) [] n.profiles))) in
    (
      (λ e.
          let (one, (keys, ((_, segments), (_, profiles)))) = f e in
          (one, (keys, (segments, profiles)))),
      λ (one, (keys, (segments, profiles))).
          g (one, (keys, ((AllFresh-nil _, segments), (AllFresh-nil _, profiles)))),
    )
