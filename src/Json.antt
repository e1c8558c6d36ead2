-- ===== src/Json.antt =====
-- JavaScript values as the SDK meets them in parsed JSON and in thrown errors: an object is its
-- properties in insertion order, each name once.
use axiam_typescript_sdk.Prelude.{
  ◌≡◌, ◌↔◌, ap, String, Bool, true, false, List, [], ◌∷◌, Option, none, some,
}
use axiam_typescript_sdk.Prelude.Int.{ℤ}
use axiam_typescript_sdk.Prelude.Dict

-- `num` is an integral number. `real` is a number that is not integral: the integer above it, and
-- its rendering.
mutual
  pub data Json : Type 0 where
    null : Json
    bool : Bool → Json
    num : ℤ → Json
    real : ℤ → String → Json
    str : String → Json
    arr : Items → Json
    obj : Fields → Json

  pub data Items : Type 0 where
    nil : Items
    cons : Json → Items → Items

  pub data Fields : Type 0 where
    end : Fields
    field : String → Json → Fields → Fields

abbrev pub items : Items → List Json
items nil = []
items (cons x xs) = x ∷ items xs

abbrev pub fields : Fields → List (String × Json)
fields end = []
fields (field k v fs) = (k, v) ∷ fields fs

abbrev pub from_list : List (String × Json) → Fields
from_list [] = end
from_list ((k, v) ∷ m) = field k v (from_list m)

-- The property `k` of a value: absent on all but objects.
abbrev pub property : String → Json → Option Json
property k (obj fs) = Dict.get k (fields fs)
property k _ = none

abbrev pub as_string : Option Json → Option String
as_string (some (str s)) = some s
as_string _ = none

-- `typeof v === 'object' && v !== null`
abbrev pub is_object : Json → Bool
is_object (arr xs) = true
is_object (obj fs) = true
is_object _ = false

pub as_string_iff : (v : Option Json) (t : String) → (as_string v ≡ some t) ↔ (v ≡ some (str t))
as_string_iff none t = (λ h. cc, λ h. cc)
as_string_iff (some null) t = (λ h. cc, λ h. cc)
as_string_iff (some (bool b)) t = (λ h. cc, λ h. cc)
as_string_iff (some (num z)) t = (λ h. cc, λ h. cc)
as_string_iff (some (real z s)) t = (λ h. cc, λ h. cc)
as_string_iff (some (str s)) t = (λ h. ap (λ x. some (str x)) (cc), λ h. cc)
as_string_iff (some (arr xs)) t = (λ h. cc, λ h. cc)
as_string_iff (some (obj fs)) t = (λ h. cc, λ h. cc)
