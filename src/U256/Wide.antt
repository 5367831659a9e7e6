-- ===== src/U256/Wide.antt =====
-- `mul_wide` of src/crypto/u256.rs: the eight limbs of a product, without overflow on the way.
use puzzle71_solver.Prelude.{ℕ, ◌+◌, ◌-◌, ◌*◌, ◌^◌, ◌≤◌, ◌<◌, ◌≡◌, arith}
use puzzle71_solver.U256.{
  U256, value, IsWords, zero_u256, Wide512, mul_limb, mul_row, shift_row, mul_wide,
}

-- The number that the eight limbs stand for.
abbrev pub wide_value : Wide512 → ℕ
wide_value r =
    r.r0
    + r.r1 * 2 ^ 64
    + r.r2 * 2 ^ 128
    + r.r3 * 2 ^ 192
    + r.r4 * 2 ^ 256
    + r.r5 * 2 ^ 320
    + r.r6 * 2 ^ 384
    + r.r7 * 2 ^ 448

pub record IsWide (r : Wide512) : Type 0 where
  pub w0 : r.r0 < 2 ^ 64
  pub w1 : r.r1 < 2 ^ 64
  pub w2 : r.r2 < 2 ^ 64
  pub w3 : r.r3 < 2 ^ 64
  pub w4 : r.r4 < 2 ^ 64
  pub w5 : r.r5 < 2 ^ 64
  pub w6 : r.r6 < 2 ^ 64
  pub w7 : r.r7 < 2 ^ 64

mul-le-mul : (x y m : ℕ) → x ≤ m → y ≤ m → x * y ≤ m * m
mul-le-mul x y m hx hy = grind arith

-- The product of two words and two more words fit 128 bits, so no digit is lost.
mul_limb_total :
    (x y r c : ℕ)
    → x < 2 ^ 64
    → y < 2 ^ 64
    → r < 2 ^ 64
    → c < 2 ^ 64
    → ((mul_limb x y r c).0 + (mul_limb x y r c).1 * 2 ^ 64 ≡ x * y + r + c)
      × ((mul_limb x y r c).0 < 2 ^ 64)
      × ((mul_limb x y r c).1 < 2 ^ 64)
unfolding mul_limb
mul_limb_total x y r c hx hy hr hc =
    let fits = mul-le-mul x y (2 ^ 64 - 1) (omega arith) (omega arith) in omega arith

record IsRow (x : ℕ) (b r : U256) (out : U256 × ℕ) : Type 0 where
  words : IsWords out.0
  top : out.1 < 2 ^ 64
  total : value out.0 + out.1 * 2 ^ 256 ≡ x * value b + value r

mul_row-IsRow :
    (x : ℕ) (b r : U256) → x < 2 ^ 64 → IsWords b → IsWords r → IsRow x b r (mul_row x b r)
unfolding mul_row
mul_row-IsRow x b r hx wb wr =
    let p0 = mul_limb x b.l0 r.l0 0 in
    let h0 = mul_limb_total x b.l0 r.l0 0 hx wb.w0 wr.w0 (omega arith) in
    let p1 = mul_limb x b.l1 r.l1 p0.1 in
    let h1 = mul_limb_total x b.l1 r.l1 p0.1 hx wb.w1 wr.w1 h0.2 in
    let p2 = mul_limb x b.l2 r.l2 p1.1 in
    let h2 = mul_limb_total x b.l2 r.l2 p1.1 hx wb.w2 wr.w2 h1.2 in
    let h3 = mul_limb_total x b.l3 r.l3 p2.1 hx wb.w3 wr.w3 h2.2 in omega arith

shift_row-IsWords :
    {x : ℕ} {b r : U256} {out : U256 × ℕ} → IsRow x b r out → IsWords (shift_row out)
shift_row-IsWords h = omega arith

-- `mul_wide` is exact on limbs that are words: the eight limbs of the result are words, and stand for the product.
pub mul_wide-value :
    (a b : U256)
    → IsWords a
    → IsWords b
    → IsWide (mul_wide a b) × (wide_value (mul_wide a b) ≡ value a * value b)
unfolding mul_wide
mul_wide-value a b wa wb =
    let row0 = mul_row a.l0 b zero_u256 in
    let h0 = mul_row-IsRow a.l0 b zero_u256 wa.w0 wb (omega arith) in
    let row1 = mul_row a.l1 b (shift_row row0) in
    let h1 = mul_row-IsRow a.l1 b (shift_row row0) wa.w1 wb (shift_row-IsWords h0) in
    let row2 = mul_row a.l2 b (shift_row row1) in
    let h2 = mul_row-IsRow a.l2 b (shift_row row1) wa.w2 wb (shift_row-IsWords h1) in
    let h3 = mul_row-IsRow a.l3 b (shift_row row2) wa.w3 wb (shift_row-IsWords h2) in omega arith
