-- ===== src/U256/Pow.antt =====
-- `field_pow` and `field_inv` of src/crypto/u256.rs: the square-and-multiply loop over the bits of the
-- four limbs computes a power modulo the prime.
use puzzle71_solver.Prelude.{
  ℕ, zero, suc, ◌+◌, ◌-◌, ◌*◌, ◌/◌, ◌%◌, ◌^◌, ◌<◌, ◌≡◌, true, false, arith, inl, inr, ap, ◌∙◌, sym,
  Bool-cases, ◌==◌, if◌then◌else◌, ◌↔◌, ◌≢◌, subst, refl,
}
use puzzle71_solver.Prelude.Modular.{mul-mod-mod, pow-add, mul-pow, pow-mul}
use native.Mathlib.Nat.{pow-suc, pow-zero, mul_assoc, two-pow-succ, mod-eq_of_lt}
use puzzle71_solver.U256.{U256, value, IsWords, one_u256, zero_u256, is_zero}
use puzzle71_solver.U256.Field.{prime, IsReduced, Represents}
use puzzle71_solver.U256.Reduce.{field_mul-Represents}
use puzzle71_solver.U256.Product.{
  field_mul, field_square, pow_limb, field_pow, p_minus_2, field_inv,
}

-- The product of elements that stand for two numbers stands for their product.
pub Represents-field_mul :
    (a b : U256) (x y : ℕ) → Represents a x → Represents b y → Represents (field_mul a b) (x * y)
Represents-field_mul a b x y ra rb =
    let h = field_mul-Represents a b ra.reduced.words rb.reduced.words in
    record {
      reduced = h.reduced;
      is_mod =
          h.is_mod
          ∙ ap (λ (t : ℕ). t * value b % prime) ra.is_mod
          ∙ ap (λ (t : ℕ). x % prime * t % prime) rb.is_mod
          ∙ mul-mod-mod x y prime;
    }

-- The number that the lowest `count` bits of `l` spell.
low_number : ℕ → ℕ → ℕ
low_number zero l = 0
low_number (suc count) l = let k = low_number count (l / 2) in l % 2 + (k + k)

low_number_all : (count l : ℕ) → l < 2 ^ count → low_number count l ≡ l
unfolding low_number
low_number_all zero l h = omega arith
low_number_all (suc count) l h =
    omega (arith, low_number_all count (l / 2) (omega (arith, pow-suc 2 count)))

-- One bit of the exponent, and the rest of it on the square of the base.
bit_power : (x y v b k : ℕ) → v ≡ x * y ^ b → v * (y * y) ^ k ≡ x * y ^ (b + (k + k))
bit_power x y v b k e =
    ap (λ (t : ℕ). t * (y * y) ^ k) e
    ∙ ap (λ (t : ℕ). x * y ^ b * t) (mul-pow y y k ∙ sym (pow-add y k k))
    ∙ mul_assoc x (y ^ b) (y ^ (k + k))
    ∙ ap (λ (t : ℕ). x * t) (sym (pow-add y b (k + k)))

-- What the numbers of `res` and `base` become in `count` rounds.
abbrev IsPower : ℕ → ℕ → ℕ → ℕ → U256 × U256 → Type 0
IsPower count l x y (res, base) =
    Represents res (x * y ^ low_number count l) × Represents base (y ^ 2 ^ count)

power_zero : (x y b : ℕ) → b ≡ 0 → x ≡ x * y ^ b
power_zero x y b e = rw e (rw pow-zero (omega arith))

power_one : (x y b : ℕ) → b ≡ 1 → x * y ≡ x * y ^ b
power_one x y b e = rw e (rw pow-suc (rw pow-zero (omega arith)))

multiply_if_odd :
    (res base : U256) (l x y : ℕ)
    → Represents res x
    → Represents base y
    → Represents (if l % 2 == 0 then res else field_mul res base) (x * y ^ (l % 2))
multiply_if_odd res base l x y rx ry = elim (Bool-cases (l % 2 == 0)) [
  | inl e ↦ rw e (subst (Represents res) (power_zero x y (l % 2) (ground arith)) rx)
  | inr e ↦ rw e (
      subst (Represents (field_mul res base)) (power_one x y (l % 2) (ground arith))
        (Represents-field_mul res base x y rx ry))
]

square_power : (y n : ℕ) → (y * y) ^ 2 ^ n ≡ y ^ 2 ^ suc n
square_power y n =
    mul-pow y y (2 ^ n)
    ∙ sym (pow-add y (2 ^ n) (2 ^ n))
    ∙ ap (λ (t : ℕ). y ^ t) (sym (two-pow-succ n))

pow_limb-IsPower :
    (count l x y : ℕ) (p : U256 × U256)
    → Represents p.0 x
    → Represents p.1 y
    → IsPower count l x y (pow_limb count l p)
unfolding pow_limb low_number
pow_limb-IsPower zero l x y p rx ry = (
  subst (Represents p.0) (power_zero x y 0 refl) rx,
  subst (Represents p.1) (let e : y ≡ y ^ 1 = rw pow-suc (rw pow-zero (omega arith)) in e) ry,
)
pow_limb-IsPower (suc count) l x y (res, base) rx ry =
    let res' = if l % 2 == 0 then res else field_mul res base in
    let x' = x * y ^ (l % 2) in
    let k = low_number count (l / 2) in
    let h =
      pow_limb-IsPower count (l / 2) x' (y * y) (res', field_square base)
        (multiply_if_odd res base l x y rx ry)
        (unfold field_square in Represents-field_mul base base y y ry ry) in
    (
      subst (Represents (pow_limb count (l / 2) (res', field_square base)).0)
          (bit_power x y x' (l % 2) k refl) h.0,
      subst (Represents (pow_limb count (l / 2) (res', field_square base)).1) (square_power y count)
          h.1,
    )

-- The exponents of the four limbs, as one exponent. The base of a limb is the power of the base before.
limb_powers :
    (y w e0 e1 e2 e3 : ℕ)
    → 1 * y ^ e0 * (y ^ w) ^ e1 * ((y ^ w) ^ w) ^ e2 * (((y ^ w) ^ w) ^ w) ^ e3
      ≡ y ^ (e0 + w * e1 + w * w * e2 + w * w * w * e3)
limb_powers y w e0 e1 e2 e3 =
    let top : (((y ^ w) ^ w) ^ w) ^ e3 ≡ y ^ (w * w * w * e3) = sym (
      pow-mul y (w * w * w) e3
      ∙ ap (λ (t : ℕ). t ^ e3) (pow-mul y (w * w) w ∙ ap (λ (t : ℕ). t ^ w) (pow-mul y w w))) in
    let mid : ((y ^ w) ^ w) ^ e2 ≡ y ^ (w * w * e2) =
      sym (pow-mul y (w * w) e2 ∙ ap (λ (t : ℕ). t ^ e2) (pow-mul y w w)) in
    rw (top, mid, ← pow-mul y w e1, pow-add, pow-add, pow-add) (omega arith)

-- All the bits of a limb.
whole_limb :
    (count w l x y : ℕ) (p : U256 × U256)
    → w ≡ 2 ^ count
    → l < 2 ^ count
    → Represents p.0 x
    → Represents p.1 y
    → Represents (pow_limb count l p).0 (x * y ^ l) × Represents (pow_limb count l p).1 (y ^ w)
whole_limb count w l x y p ew hl rx ry =
    let h = pow_limb-IsPower count l x y p rx ry in
    (
      subst (λ t. Represents (pow_limb count l p).0 (x * y ^ t)) (low_number_all count l hl) h.0,
      subst (λ t. Represents (pow_limb count l p).1 (y ^ t)) (sym ew) h.1,
    )

one-Represents : Represents one_u256 1
one-Represents = omega arith

field_pow-limbs :
    (a e : U256) (w : ℕ)
    → w ≡ 2 ^ 64
    → IsReduced a
    → IsWords e
    → Represents (field_pow a e) (value a ^ (e.l0 + w * e.l1 + w * w * e.l2 + w * w * w * e.l3))
unfolding field_pow
field_pow-limbs a e w ew ra we =
    let y = value a in
    let start : Represents a y = record { reduced = ra; is_mod = sym (mod-eq_of_lt ra.below) } in
    let p0 : U256 × U256 = (one_u256, a) in
    let h0 = whole_limb 64 w e.l0 1 y p0 ew we.w0 one-Represents start in
    let p1 = pow_limb 64 e.l0 p0 in
    let h1 = whole_limb 64 w e.l1 (1 * y ^ e.l0) (y ^ w) p1 ew we.w1 h0.0 h0.1 in
    let p2 = pow_limb 64 e.l1 p1 in
    let h2 =
      whole_limb 64 w e.l2 (1 * y ^ e.l0 * (y ^ w) ^ e.l1) ((y ^ w) ^ w) p2 ew we.w2 h1.0 h1.1 in
    let p3 = pow_limb 64 e.l2 p2 in
    let h3 =
      whole_limb 64 w e.l3 (1 * y ^ e.l0 * (y ^ w) ^ e.l1 * ((y ^ w) ^ w) ^ e.l2)
        (((y ^ w) ^ w) ^ w) p3 ew we.w3 h2.0 h2.1 in
    subst (Represents (pow_limb 64 e.l3 p3).0) (limb_powers y w e.l0 e.l1 e.l2 e.l3) h3.0

-- `field_pow` computes powers modulo the prime: for a reduced base and an exponent of four words, the
-- result is the reduced element of the power of their numbers.
pub field_pow-Represents :
    (a e : U256) → IsReduced a → IsWords e → Represents (field_pow a e) (value a ^ value e)
field_pow-Represents a e ra we =
    subst (λ t. Represents (field_pow a e) (value a ^ t)) (omega arith)
      (field_pow-limbs a e (2 ^ 64) refl ra we)

p_minus_2-IsWords : IsWords p_minus_2
p_minus_2-IsWords = omega arith

is_zero_iff : (a : U256) → (is_zero a ≡ true) ↔ (value a ≡ 0)
unfolding is_zero
is_zero_iff a = ground arith

-- `field_inv` returns zero for an element whose number is 0; for any other reduced element it returns
-- the reduced element of its number to the power of the prime less two.
pub field_inv-Represents :
    (a : U256)
    → IsReduced a
    → (value a ≡ 0 → field_inv a ≡ zero_u256)
      × (value a ≢ 0 → Represents (field_inv a) (value a ^ (prime - 2)))
unfolding field_inv
field_inv-Represents a ra = (
  λ z. let e : is_zero a ≡ true = (is_zero_iff a).1 z in rw e,
  λ nz.
      let e : is_zero a ≡ false = ground (arith, is_zero_iff a) in
      rw e (field_pow-Represents a p_minus_2 ra p_minus_2-IsWords),
)
