-- ===== src/Prelude/Modular.antt =====
-- Products and powers of native numbers, and products modulo a number.
use Prim.Native.Nat.{ℕ, zero, suc, ◌+◌, ◌*◌, ◌/◌, ◌%◌, ◌^◌}
use mathlib.Core.Path.{◌≡◌, sym, ap, ap₂, ◌∙◌}
use native.Mathlib.Nat.{pow-suc, pow-zero, add-zero, div-add-mod', add-mul-mod_self_right}
use native.Mathlib.Omega.{arith}

product_of_parts :
    (a q b r m : ℕ) → (q * m + a) * (r * m + b) ≡ a * b + (q * (r * m) + q * b + a * r) * m
product_of_parts a q b r m = omega arith

-- Factors may be reduced before they are multiplied.
pub mul-mod-mod : (x y m : ℕ) → x % m * (y % m) % m ≡ x * y % m
mul-mod-mod x y m =
    let whole : x * y ≡ (x / m * m + x % m) * (y / m * m + y % m) =
      ap₂ ◌*◌ (sym (div-add-mod' x m)) (sym (div-add-mod' y m)) in
    sym (
      ap (λ (t : ℕ). t % m) (whole ∙ product_of_parts (x % m) (x / m) (y % m) (y / m) m)
      ∙ add-mul-mod_self_right _ _ m)

pub pow-add : (y a b : ℕ) → y ^ (a + b) ≡ y ^ a * y ^ b
pow-add y a zero = simp (add-zero, pow-zero) (omega arith)
pow-add y a (suc b) =
    let step : y ^ (a + suc b) ≡ y ^ (a + b) * y =
      ap (λ (t : ℕ). y ^ t) (let e : a + suc b ≡ suc (a + b) = omega arith in e)
      ∙ pow-suc y (a + b) in
    omega
      (arith, step, ap (λ (t : ℕ). t * y) (pow-add y a b), ap (λ (t : ℕ). y ^ a * t) (pow-suc y b))

pub mul-pow : (x y n : ℕ) → (x * y) ^ n ≡ x ^ n * y ^ n
mul-pow x y zero = simp pow-zero (omega arith)
mul-pow x y (suc n) =
    pow-suc (x * y) n
    ∙ ap (λ (t : ℕ). t * (x * y)) (mul-pow x y n)
    ∙ omega arith
    ∙ sym (ap₂ ◌*◌ (pow-suc x n) (pow-suc y n))

pub pow-mul : (y a b : ℕ) → y ^ (a * b) ≡ (y ^ a) ^ b
pow-mul y a zero =
    let e : a * 0 ≡ 0 = omega arith in rw e (omega (arith, pow-zero y, pow-zero (y ^ a)))
pow-mul y a (suc b) =
    let e : a * suc b ≡ a * b + a = omega arith in
    ap (λ (t : ℕ). y ^ t) e
    ∙ pow-add y (a * b) a
    ∙ ap (λ (t : ℕ). t * y ^ a) (pow-mul y a b)
    ∙ sym (pow-suc (y ^ a) b)
