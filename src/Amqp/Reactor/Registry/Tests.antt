-- ===== src/Amqp/Reactor/Registry/Tests.antt =====
-- The reactor registry (amqp/reactor/registry.ts) at concrete inputs.
use mathlib.Core.List.{Perm, Permᴰ, Memᴰ}
use axiam_typescript_sdk.Prelude.{◌≡◌, ◌↔◌, refl, String, true, false, List, [], ◌∷◌}
use axiam_typescript_sdk.Amqp.Reactor.Registry.{
  token_spec, token_pre_issue, login_post_auth, patch_field_allowed,
}
use axiam_typescript_sdk.Amqp.Reactor.Registry.Fields.{Admits, patch_field_allowed_iff}

ext_fields_are_open : patch_field_allowed token_spec "ext.team" ≡ true
unfolding patch_field_allowed
ext_fields_are_open = refl

the_namespace_is_not : patch_field_allowed token_spec "ext." ≡ false
unfolding patch_field_allowed
the_namespace_is_not = refl

patch_field_allowed_iff_example : (patch_field_allowed token_spec "ext.team" ≡ true) ↔ (
    (token_spec.mutable ≡ true)
    × ((allowed : String) × Memᴰ allowed token_spec.mutable_fields × Admits allowed "ext.team"))
patch_field_allowed_iff_example = patch_field_allowed_iff token_spec "ext.team"

abbrev names : List String
names = token_pre_issue ∷ login_post_auth ∷ []

swapped : Perm names (login_post_auth ∷ token_pre_issue ∷ [])
swapped = ∣ Permᴰ.swap refl refl ∣₁
