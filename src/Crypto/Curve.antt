-- ===== src/Crypto/Curve.antt =====
-- src/crypto/secp256k1.rs: points of the curve y^2 = x^3 + 7 in affine and Jacobian form, their sums
-- and multiples.
pub mod Reduced
pub mod Affine
use puzzle71_solver.Prelude.{
  ℕ, zero, suc, ◌/◌, ◌%◌, Bool, true, false, ◌||◌, ◌==◌, if◌then◌else◌, List, [], ◌∷◌, replicate,
}
use puzzle71_solver.U256.{
  U256, zero_u256, one_u256, from_u64, is_zero, is_odd, eq_u256, field_add, field_sub,
}
use puzzle71_solver.U256.Product.{field_mul, field_square, field_inv}
use puzzle71_solver.U256.Bytes.{to_be_bytes}

pub record AffinePoint : Type 0 where
  pub x : U256
  pub y : U256
  pub infinity : Bool

pub record JacobianPoint : Type 0 where
  pub x : U256
  pub y : U256
  pub z : U256
  pub infinity : Bool

abbrev pub gen_x : U256
gen_x = record {
  l0 = 0x59F2815B16F81798;
  l1 = 0x029BFCDB2DCE28D9;
  l2 = 0x55A06295CE870B07;
  l3 = 0x79BE667EF9DCBBAC;
}

abbrev pub gen_y : U256
gen_y = record {
  l0 = 0x9C47D08FFB10D4B8;
  l1 = 0xFD17B448A6855419;
  l2 = 0x5DA4FBFC0E1108A8;
  l3 = 0x483ADA7726A3C465;
}

abbrev pub generator : AffinePoint
generator = record { x = gen_x; y = gen_y; infinity = false }

abbrev pub affine_infinity : AffinePoint
affine_infinity = record { x = zero_u256; y = zero_u256; infinity = true }

abbrev pub jacobian_infinity : JacobianPoint
jacobian_infinity = record { x = one_u256; y = one_u256; z = zero_u256; infinity = true }

unfoldable pub to_jacobian : AffinePoint → JacobianPoint
to_jacobian p =
    if p.infinity
    then jacobian_infinity
    else record { x = p.x; y = p.y; z = one_u256; infinity = false }

unfoldable pub to_compressed : AffinePoint → List ℕ
to_compressed p =
    if p.infinity then replicate 33 0 else (if is_odd p.y then 0x03 else 0x02) ∷ to_be_bytes p.x

unfoldable pub is_valid : AffinePoint → Bool
is_valid p =
    if p.infinity
    then true
    else eq_u256 (field_square p.y) (field_add (field_mul (field_square p.x) p.x) (from_u64 7))

unfoldable pub to_affine : JacobianPoint → AffinePoint
to_affine p =
    let z_inv = field_inv p.z in
    let z_inv2 = field_square z_inv in
    let z_inv3 = field_mul z_inv2 z_inv in
    if p.infinity || is_zero p.z
    then affine_infinity
    else record { x = field_mul p.x z_inv2; y = field_mul p.y z_inv3; infinity = false }

-- `double` behind its first test.
unfoldable pub double_finite : JacobianPoint → JacobianPoint
double_finite p =
    let ysq = field_square p.y in
    let s1 = field_mul p.x ysq in
    let s2 = field_add s1 s1 in
    let s = field_add s2 s2 in
    let xsq = field_square p.x in
    let m = field_add (field_add xsq xsq) xsq in
    let x_out = field_sub (field_square m) (field_add s s) in
    let ysq_sq = field_square ysq in
    let ysq_sq2 = field_add ysq_sq ysq_sq in
    let ysq_sq4 = field_add ysq_sq2 ysq_sq2 in
    let y8 = field_add ysq_sq4 ysq_sq4 in
    let y_out = field_sub (field_mul m (field_sub s x_out)) y8 in
    let z1 = field_mul p.y p.z in
    record { x = x_out; y = y_out; z = field_add z1 z1; infinity = false }

unfoldable pub double : JacobianPoint → JacobianPoint
double p = if p.infinity || is_zero p.y then jacobian_infinity else double_finite p

-- The end of both additions: the sum of two points with different first coordinates u1 and u2, where
-- `z` is the product of the third coordinates.
unfoldable pub add_distinct : U256 → U256 → U256 → U256 → U256 → JacobianPoint
add_distinct u1 s1 u2 s2 z =
    let h = field_sub u2 u1 in
    let r = field_sub s2 s1 in
    let h_sq = field_square h in
    let h_cub = field_mul h_sq h in
    let u1_h_sq = field_mul u1 h_sq in
    let two_u1_h_sq = field_add u1_h_sq u1_h_sq in
    let x3 = field_sub (field_sub (field_square r) h_cub) two_u1_h_sq in
    let y3 = field_sub (field_mul r (field_sub u1_h_sq x3)) (field_mul s1 h_cub) in
    record { x = x3; y = y3; z = field_mul z h; infinity = false }

unfoldable pub add_affine : JacobianPoint → AffinePoint → JacobianPoint
add_affine p q =
    let z1_sq = field_square p.z in
    let z1_cub = field_mul z1_sq p.z in
    let u2 = field_mul q.x z1_sq in
    let s2 = field_mul q.y z1_cub in
    if p.infinity
    then to_jacobian q
    else if q.infinity
    then p
    else if eq_u256 p.x u2
    then (if eq_u256 p.y s2 then double p else jacobian_infinity)
    else add_distinct p.x p.y u2 s2 p.z

unfoldable pub add_jacobian : JacobianPoint → JacobianPoint → JacobianPoint
add_jacobian p q =
    let z1_sq = field_square p.z in
    let z2_sq = field_square q.z in
    let u1 = field_mul p.x z2_sq in
    let u2 = field_mul q.x z1_sq in
    let s1 = field_mul p.y (field_mul z2_sq q.z) in
    let s2 = field_mul q.y (field_mul z1_sq p.z) in
    if p.infinity
    then q
    else if q.infinity
    then p
    else if eq_u256 u1 u2
    then (if eq_u256 s1 s2 then double p else jacobian_infinity)
    else add_distinct u1 s1 u2 s2 (field_mul p.z q.z)

-- `count` rounds over the bits of a limb `l`, on the pair of `res` and `current`.
unfoldable pub mul_limb_bits : ℕ → ℕ → JacobianPoint × JacobianPoint → JacobianPoint × JacobianPoint
mul_limb_bits zero l (res, current) = (res, current)
mul_limb_bits (suc count) l (res, current) =
    mul_limb_bits count (l / 2)
      (if l % 2 == 0 then res else add_jacobian res current, double current)

unfoldable pub scalar_mul : AffinePoint → U256 → AffinePoint
scalar_mul p k =
    to_affine
      (mul_limb_bits 64 k.l3 (
        mul_limb_bits 64 k.l2
          (mul_limb_bits 64 k.l1 (mul_limb_bits 64 k.l0 (jacobian_infinity, to_jacobian p))))).0

unfoldable pub scalar_mul_g : U256 → AffinePoint
scalar_mul_g k =
    to_affine
      (mul_limb_bits 64 k.l3 (
        mul_limb_bits 64 k.l2 (
          mul_limb_bits 64 k.l1
            (mul_limb_bits 64 k.l0 (jacobian_infinity, to_jacobian generator))))).0
