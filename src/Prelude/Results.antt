-- ===== src/Prelude/Results.antt =====
-- Results of code that throws: a value, or what was thrown; and chains of checks.
use mathlib.Core.Path.{◌≡◌, refl, ap, subst}
use mathlib.Core.Logic.{◌↔◌, ◌⊎◌, inl, inr}
use mathlib.Core.Bool.{Bool, true, false}

pub data Result {ℓ κ} (E : Type ℓ) (A : Type κ) : Type (ℓ ⊔ κ) where
  ok : A → Result E A
  err : E → Result E A

infixl 5 ◌>>=◌ ◌>>◌
abbrev pub ◌>>=◌ {ℓ κ μ} :
    {E : Type ℓ} {A : Type κ} {B : Type μ} → Result E A → (A → Result E B) → Result E B
ok a >>= f = f a
err e >>= f = err e

abbrev pub ◌>>◌ {ℓ κ} : {E : Type ℓ} {B : Type κ} → Result E (Unit {0}) → Result E B → Result E B
m >> k = m >>= λ _. k

-- `if (!test) throw e`
abbrev pub ensure {ℓ} : {E : Type ℓ} → Bool → E → Result E (Unit {0})
ensure true e = ok tt
ensure false e = err e

module _ {ℓ κ} {E : Type ℓ} {A : Type κ} where
  -- A check before the rest of a chain: what the test says, and what the rest does.
  pub ensure_iff {μ ν} :
      {P : Type μ} {Q : Type ν} (b : Bool) (e : E) (m : Result E A) {a : A}
      → ((b ≡ true) ↔ P)
      → ((m ≡ ok a) ↔ Q)
      → ((ensure b e >> m) ≡ ok a) ↔ (P × Q)
  ensure_iff true e m test rest = (λ h. (test.0 refl, rest.0 h), λ h. rest.1 h.1)
  ensure_iff false e m test rest = (λ h. cc, λ h. cc (test.1 h.0))

  -- A step before the rest of a chain: the rest may count on what the step has checked.
  pub then_iff {μ ν} :
      {P : Type μ} {Q : Type ν} (step : Result E (Unit {0})) (rest : Result E A) {a : A}
      → ((step ≡ ok tt) ↔ P)
      → (P → (rest ≡ ok a) ↔ Q)
      → ((step >> rest) ≡ ok a) ↔ (P × Q)
  then_iff (ok u) rest test after =
      (λ h. (test.0 refl, (after (test.0 refl)).0 h), λ h. (after h.0).1 h.1)
  then_iff (err e) rest test after = (λ h. cc, λ h. cc (test.1 h.0))

  -- The last check of a chain.
  pub ensure_ok_iff {μ} :
      {P : Type μ} (b : Bool) (e : E) (a : A) → ((b ≡ true) ↔ P) → ((ensure b e >> ok a) ≡ ok a) ↔ P
  ensure_ok_iff true e a test = (λ h. test.0 refl, λ h. refl)
  ensure_ok_iff false e a test = (λ h. cc, λ h. cc (test.1 h))

-- Whatever is handed on has the property.
abbrev pub Gives {ℓ κ μ} : {E : Type ℓ} {A : Type κ} → (A → Type μ) → Result E A → Type μ
Gives P (ok a) = P a
Gives P (err e) = Unit

module _ {ℓ κ μ} {E : Type ℓ} {A : Type κ} (P : A → Type μ) where
  pub ensure-Gives :
      (b : Bool) (e : E) (rest : Result E A)
      → ((b ≡ true) → Gives P rest)
      → Gives P (ensure b e >> rest)
  ensure-Gives true e rest after = after refl
  ensure-Gives false e rest after = tt

  pub bind-Gives {ν π} :
      {B : Type ν} (Q : B → Type π) (m : Result E B) (f : B → Result E A)
      → Gives Q m
      → ((b : B) → Q b → Gives P (f b))
      → Gives P (m >>= f)
  bind-Gives Q (ok b) f given after = after b given
  bind-Gives Q (err e) f given after = tt

  pub Gives-ok : (r : Result E A) (a : A) → Gives P r → r ≡ ok a → P a
  Gives-ok (ok b) a given h = let same : b ≡ a = cc in subst P same given
  Gives-ok (err e) a given h = cc

pub ensure_alone {ℓ} : {E : Type ℓ} (b : Bool) (e : E) → (ensure b e ≡ ok tt) ↔ (b ≡ true)
ensure_alone true e = (λ h. refl, λ h. refl)
ensure_alone false e = (λ h. cc, λ h. cc)

pub Result-cases {ℓ κ} :
    {E : Type ℓ} {A : Type κ} (r : Result E A) → ((a : A) × (r ≡ ok a)) ⊎ ((e : E) × (r ≡ err e))
Result-cases (ok a) = inl (a, refl)
Result-cases (err e) = inr (e, refl)

-- A step whose value the rest of a chain uses.
pub bind_iff {ℓ κ μ ν π} :
    {E : Type ℓ} {A : Type κ} {B : Type μ} {P : B → Type ν} {Q : B → Type π} (m : Result E B)
    (f : B → Result E A) {a : A}
    → ((b : B) → (m ≡ ok b) ↔ P b)
    → ((b : B) → (f b ≡ ok a) ↔ Q b)
    → ((m >>= f) ≡ ok a) ↔ ((b : B) × P b × Q b)
bind_iff (ok b) f step rest = (
  λ h. (b, (step b).0 refl, (rest b).0 h),
  λ (c, p, q). let same : c ≡ b = cc ((step c).1 p) in subst (λ x. f x ≡ ok _) same ((rest c).1 q),
)
bind_iff (err e) f step rest = (λ h. cc, λ h. cc ((step (h.0)).1 (h.1)))

-- A check by a verdict, then a value.
pub then_ok_iff {ℓ κ μ} :
    {E : Type ℓ} {A : Type κ} {P : Type μ} (step : Result E (Unit {0})) {a b : A}
    → ((step ≡ ok tt) ↔ P)
    → ((step >> ok a) ≡ ok b) ↔ (P × (a ≡ b))
then_ok_iff (ok u) test = (λ h. (test.0 refl, cc), λ h. ap ok h.1)
then_ok_iff (err e) test = (λ h. cc, λ h. cc (test.1 (h.0)))
