-- ===== src/Crypto/Curve/Affine.antt =====
-- Affine points of src/crypto/secp256k1.rs: the curve test, and the way to Jacobian form and back.
use puzzle71_solver.Prelude.{
  ℕ, zero, suc, ◌+◌, ◌-◌, ◌*◌, ◌%◌, ◌^◌, ◌≡◌, ◌↔◌, ◌∙◌, ap, sym, subst, true, false, arith,
}
use native.Mathlib.Nat.{pow-suc, pow-zero, add-mod, mod-eq_of_lt}
use puzzle71_solver.U256.{U256, value, IsWords, one_u256, from_u64, is_zero, eq_u256, field_add}
use puzzle71_solver.U256.Field.{IsReduced, Represents, prime, field_add-Represents}
use puzzle71_solver.U256.Pow.{Represents-field_mul, field_inv-Represents}
use puzzle71_solver.U256.Product.{field_mul, field_square, field_inv}
use puzzle71_solver.Crypto.Curve.{AffinePoint, to_jacobian, to_affine, is_valid}
use puzzle71_solver.Crypto.Curve.Reduced.{IsReducedAffine, one-IsReduced}

eq_u256_iff : (a b : U256) → (eq_u256 a b ≡ true) ↔ (a ≡ b)
unfolding eq_u256
eq_u256_iff a b = ground arith

-- Words that stand for the same number are the same.
value_injective : (a b : U256) → IsWords a → IsWords b → value a ≡ value b → a ≡ b
value_injective a b wa wb e = ground arith

Represents-self : (a : U256) → IsReduced a → Represents a (value a)
Represents-self a r = record { reduced = r; is_mod = sym (mod-eq_of_lt r.below) }

-- Two elements that stand for numbers are equal when these are congruent.
Represents-eq :
    (a b : U256) (m n : ℕ) → Represents a m → Represents b n → (a ≡ b) ↔ (m % prime ≡ n % prime)
Represents-eq a b m n ra rb = (
  λ e. sym ra.is_mod ∙ ap value e ∙ rb.is_mod,
  λ e. value_injective a b ra.reduced.words rb.reduced.words (ra.is_mod ∙ e ∙ sym rb.is_mod),
)

Represents-field_add :
    (a b : U256) (m n : ℕ) → Represents a m → Represents b n → Represents (field_add a b) (m + n)
Represents-field_add a b m n ra rb =
    let h = field_add-Represents a b ra.reduced rb.reduced in
    record {
      reduced = h.reduced;
      is_mod =
          h.is_mod
          ∙ ap (λ (t : ℕ). (t + value b) % prime) ra.is_mod
          ∙ ap (λ (t : ℕ). (m % prime + t) % prime) rb.is_mod
          ∙ sym (add-mod m n prime);
    }

-- `is_valid` decides the curve equation: on a finite point with reduced coordinates it answers true
-- exactly when y * y and x * x * x + 7 are congruent modulo the prime.
pub is_valid-curve :
    (p : AffinePoint)
    → IsReducedAffine p
    → p.infinity ≡ false
    → (is_valid p ≡ true)
      ↔ (value p.y * value p.y % prime ≡ (value p.x * value p.x * value p.x + 7) % prime)
unfolding is_valid field_square from_u64
is_valid-curve p h finite =
    let x = Represents-self p.x h.rx in
    let y = Represents-self p.y h.ry in
    let ysq = Represents-field_mul p.y p.y (value p.y) (value p.y) y y in
    let xsq = Represents-field_mul p.x p.x (value p.x) (value p.x) x x in
    let cube =
      Represents-field_mul (field_mul p.x p.x) p.x (value p.x * value p.x) (value p.x) xsq x in
    let rhs =
      Represents-field_add (field_mul (field_mul p.x p.x) p.x) (from_u64 7)
        (value p.x * value p.x * value p.x) 7 cube (omega arith) in
    let iff = Represents-eq _ _ _ _ ysq rhs in
    let test =
      eq_u256_iff (field_mul p.y p.y)
        (field_add (field_mul (field_mul p.x p.x) p.x) (from_u64 7)) in
    rw finite (λ t. iff.0 (test.0 t), λ e. test.1 (iff.1 e))

one-pow : (n : ℕ) → 1 ^ n ≡ 1
one-pow zero = rw pow-zero
one-pow (suc n) = rw pow-suc (omega (arith, one-pow n))

field_mul-one : (a b : U256) → IsReduced a → Represents b 1 → field_mul a b ≡ a
field_mul-one a b ra rb =
    let m = Represents-field_mul a b (value a) 1 (Represents-self a ra) rb in
    (Represents-eq (field_mul a b) a (value a * 1) (value a) m (Represents-self a ra)).1
      (omega arith)

inverse-one : Represents (field_inv one_u256) 1
inverse-one =
    let h = (field_inv-Represents one_u256 one-IsReduced).1 (omega arith) in
    subst (Represents (field_inv one_u256)) (one-pow (prime - 2)) h

-- A finite point with reduced coordinates comes back from Jacobian form unchanged.
pub to_affine-to_jacobian :
    (p : AffinePoint) → IsReducedAffine p → p.infinity ≡ false → to_affine (to_jacobian p) ≡ p
unfolding to_affine to_jacobian field_square is_zero
to_affine-to_jacobian p h finite =
    let inv = field_inv one_u256 in
    let inv2 = Represents-field_mul inv inv 1 1 inverse-one inverse-one in
    let inv3 = Represents-field_mul (field_mul inv inv) inv (1 * 1) 1 inv2 inverse-one in
    let ex = field_mul-one p.x (field_mul inv inv) h.rx inv2 in
    let ey = field_mul-one p.y (field_mul (field_mul inv inv) inv) h.ry inv3 in
    rw finite (rw (ex, ey) (ground arith))
