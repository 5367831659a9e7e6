-- ===== src/Prelude/Results.antt =====
-- Fallible results, for the source's `Result<T, E>`.
use mathlib.Core.Bool.{Bool, true, false}
use native.Mathlib.Omega.{arith}
use mathlib.Core.Path.{◌≡◌, refl, ap}
use mathlib.Core.Logic.{◌⊎◌, inl, inr}

pub data Result {ℓ κ} (A : Type ℓ) (E : Type κ) : Type (ℓ ⊔ κ) where
  ok : A → Result A E
  err : E → Result A E

infixl 5 ◌>>=◌ ◌>>◌
abbrev pub ◌>>=◌ {ℓ κ μ} :
    {A : Type ℓ} {B : Type κ} {E : Type μ} → Result A E → (A → Result B E) → Result B E
ok a >>= f = f a
err e >>= f = err e

abbrev pub ◌>>◌ {ℓ μ} : {B : Type ℓ} {E : Type μ} → Result (Unit {0}) E → Result B E → Result B E
m >> k = m >>= λ _. k

-- `if test { return Err(e) }`.
abbrev pub err_if {μ} : {E : Type μ} → Bool → E → Result (Unit {0}) E
err_if true e = err e
err_if false e = ok tt

abbrev pub is_ok {ℓ κ} : {A : Type ℓ} {E : Type κ} → Result A E → Bool
is_ok (ok a) = true
is_ok (err e) = false

-- To split on a computed result and keep the equation.
pub Result-cases {κ} :
    {E : Type κ} (r : Result (Unit {0}) E) → (r ≡ ok tt) ⊎ ((e : E) × (r ≡ err e))
Result-cases (ok _) = inl refl
Result-cases (err e) = inr (e, refl)

-- A chain succeeds only through its first step.
pub then-ok {μ} :
    {B E : Type μ} {b : B} (m : Result (Unit {0}) E) (k : Result B E)
    → (m >> k) ≡ ok b
    → (m ≡ ok tt) × (k ≡ ok b)
then-ok (ok _) k h = (refl, h)
then-ok (err e) k h = absurd (ground arith)

pub err_if-ok {μ} : {E : Type μ} (b : Bool) (e : E) → err_if b e ≡ ok tt → b ≡ false
err_if-ok true e h = absurd (ground arith)
err_if-ok false e h = refl

pub bind-ok {ℓ κ} : {A : Type ℓ} {E : Type κ} (m : Result A E) → (m >>= λ a. ok a) ≡ m
bind-ok (ok a) = refl
bind-ok (err e) = refl

pub ok_inj {ℓ κ} : {A : Type ℓ} {E : Type κ} {a b : A} → Path (Result A E) (ok a) (ok b) → a ≡ b
ok_inj {a} h = ap (λ r. elim r [ ok x ↦ x | err _ ↦ a ]) h

-- What a successful chain has gone through.
pub bind-split {ℓ κ μ} :
    {A : Type ℓ} {B : Type κ} {E : Type μ} {b : B} (m : Result A E) (k : A → Result B E)
    → (m >>= k) ≡ ok b
    → (a : A) × (m ≡ ok a) × (k a ≡ ok b)
bind-split (ok a) k h = (a, refl, h)
bind-split (err e) k h = absurd (ground arith)

pub bind_assoc {ℓ κ μ ν} :
    {A : Type ℓ} {B : Type κ} {C : Type μ} {E : Type ν} (m : Result A E) (f : A → Result B E)
    (g : B → Result C E)
    → (m >>= f >>= g) ≡ (m >>= λ a. f a >>= g)
bind_assoc (ok a) f g = refl
bind_assoc (err e) f g = refl
