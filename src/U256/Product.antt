-- ===== src/U256/Product.antt =====
-- The field product of src/crypto/u256.rs: `reduce_512` with its loops, and what is built on it,
-- `field_mul`, `field_square`, `field_pow` and `field_inv`.
use puzzle71_solver.Prelude.{
  ℕ, zero, suc, ◌+◌, ◌*◌, ◌/◌, ◌%◌, ◌^◌, true, false, bit_or, u64, u128, ◌>>>◌, ◌==◌, if◌then◌else◌,
}
use puzzle71_solver.U256.{
  U256, secp256k1_p, zero_u256, one_u256, from_u64, is_zero, gte, Wide512, add_limb, add_carry,
  sub_borrow, mul_wide,
}

-- 2 ^ 256 modulo the prime.
abbrev pub factor : ℕ
factor = 0x1000003D1

-- One round of the loop that multiplies the high half by `factor`.
unfoldable pub scale_limb : ℕ → ℕ → ℕ × ℕ
scale_limb x carry = let prod = u128 (x * factor + carry) in (u64 prod, prod >>> 64)

-- The first loop of `reduce_512`: the high half times `factor`, four limbs and a top limb.
unfoldable pub scale_high : Wide512 → U256 × ℕ
scale_high r =
    let (p0, c0) = scale_limb r.r4 0 in
    let (p1, c1) = scale_limb r.r5 c0 in
    let (p2, c2) = scale_limb r.r6 c1 in
    let (p3, c3) = scale_limb r.r7 c2 in (record { l0 = p0; l1 = p1; l2 = p2; l3 = p3 }, u64 c3)

-- The second loop: the low half plus the scaled high half; the result is sum[0 .. 4] and `extra_high`,
-- which joins sum[4] and the overflow above it.
unfoldable pub add_low : Wide512 → U256 × ℕ → U256 × ℕ
add_low r (p, top) =
    let (s0, c0) = add_limb r.r0 p.l0 0 in
    let (s1, c1) = add_limb r.r1 p.l1 c0 in
    let (s2, c2) = add_limb r.r2 p.l2 c1 in
    let (s3, c3) = add_limb r.r3 p.l3 c2 in
    let s4 = u128 (top + c3) in
    let overflow_high = u64 (s4 >>> 64) in
    (record { l0 = s0; l1 = s1; l2 = s2; l3 = s3 }, bit_or (u64 s4) (u128 (overflow_high * 2 ^ 64)))

-- One round of the third loop, which adds a 128-bit number limb by limb.
unfoldable pub fold_limb : ℕ → ℕ → ℕ × ℕ
fold_limb x c2 = let s = u128 (x + c2 % 2 ^ 64) in (u64 s, u128 ((s >>> 64) + (c2 >>> 64)))

-- The third loop: the four limbs plus `extra_prod`, and the carry that is left.
unfoldable pub fold_extra : U256 → ℕ → U256 × ℕ
fold_extra sum extra_prod =
    let (q0, c0) = fold_limb sum.l0 extra_prod in
    let (q1, c1) = fold_limb sum.l1 c0 in
    let (q2, c2) = fold_limb sum.l2 c1 in
    let (q3, c3) = fold_limb sum.l3 c2 in (record { l0 = q0; l1 = q1; l2 = q2; l3 = q3 }, c3)

-- `if c2 != 0`: the last carry, times `factor`, added in.
unfoldable pub fold_last : U256 × ℕ → U256
fold_last (res, c2) =
    if c2 == 0 then res else (add_carry res (from_u64 (u64 (u128 (c2 * factor))))).0

-- `while final_u256.gte(&SECP256K1_P)`, on fuel for the rounds.
unfoldable pub subtract_loop : ℕ → U256 → U256
subtract_loop zero x = x
subtract_loop (suc fuel) x = elim (gte x secp256k1_p) [
  | true ↦ subtract_loop fuel (sub_borrow x secp256k1_p).0
  | false ↦ x
]

-- The value at the head of the last loop.
unfoldable pub fold_512 : Wide512 → U256
fold_512 r =
    let (sum, extra_high) = add_low r (scale_high r) in
    fold_last (fold_extra sum (u128 (extra_high * factor)))

unfoldable pub reduce_512 : Wide512 → U256
reduce_512 r = subtract_loop 2 (fold_512 r)

unfoldable pub field_mul : U256 → U256 → U256
field_mul a b = reduce_512 (mul_wide a b)

unfoldable pub field_square : U256 → U256
field_square a = field_mul a a

-- `count` rounds over the bits of a limb `l`, on the pair of `res` and `base`.
unfoldable pub pow_limb : ℕ → ℕ → U256 × U256 → U256 × U256
pow_limb zero l (res, base) = (res, base)
pow_limb (suc count) l (res, base) =
    pow_limb count (l / 2) (if l % 2 == 0 then res else field_mul res base, field_square base)

unfoldable pub field_pow : U256 → U256 → U256
field_pow a exp =
    (pow_limb 64 exp.l3
      (pow_limb 64 exp.l2 (pow_limb 64 exp.l1 (pow_limb 64 exp.l0 (one_u256, a))))).0

abbrev pub p_minus_2 : U256
p_minus_2 = record {
  l0 = 0xFFFFFFFEFFFFFC2D;
  l1 = 0xFFFFFFFFFFFFFFFF;
  l2 = 0xFFFFFFFFFFFFFFFF;
  l3 = 0xFFFFFFFFFFFFFFFF;
}

unfoldable pub field_inv : U256 → U256
field_inv a = if is_zero a then zero_u256 else field_pow a p_minus_2
