-- ===== src/U256/Reduce.antt =====
-- `reduce_512` and `field_mul` of src/crypto/u256.rs: the three folding loops keep the number modulo
-- the prime, and the last loop ends after at most one subtraction.
use puzzle71_solver.Prelude.{
  ℕ, ◌+◌, ◌*◌, ◌%◌, ◌^◌, ◌≤◌, ◌<◌, ◌≡◌, false, arith, bit_or, u64, u128, ◌>>>◌, ◌∙◌,
}
use puzzle71_solver.Prelude.Bits.{bit_or-zero}
use puzzle71_solver.U256.{
  U256, value, IsWords, secp256k1_p, from_u64, gte, Wide512, add_limb, sub_borrow, mul_wide,
}
use puzzle71_solver.U256.Carry.{add_limb_total, add_carry-IsSum, sub_borrow-IsDifference, gte_iff}
use puzzle71_solver.U256.Field.{prime, IsReduced, Represents, p-IsWords}
use puzzle71_solver.U256.Wide.{wide_value, IsWide, mul_wide-value}
use puzzle71_solver.U256.Product.{
  factor, scale_limb, scale_high, add_low, fold_limb, fold_extra, fold_last, subtract_loop,
  fold_512, reduce_512, field_mul,
}

abbrev high_value : Wide512 → ℕ
high_value r = r.r4 + r.r5 * 2 ^ 64 + r.r6 * 2 ^ 128 + r.r7 * 2 ^ 192

abbrev low_value : Wide512 → ℕ
low_value r = r.r0 + r.r1 * 2 ^ 64 + r.r2 * 2 ^ 128 + r.r3 * 2 ^ 192

-- A carry of this loop stays below 2 ^ 34.
scale_limb_total :
    (x c : ℕ)
    → x < 2 ^ 64
    → c < 2 ^ 34
    → ((scale_limb x c).0 + (scale_limb x c).1 * 2 ^ 64 ≡ x * factor + c)
      × ((scale_limb x c).0 < 2 ^ 64)
      × ((scale_limb x c).1 < 2 ^ 34)
unfolding scale_limb
scale_limb_total x c hx hc = omega arith

record IsScaled (r : Wide512) (out : U256 × ℕ) : Type 0 where
  words : IsWords out.0
  top : out.1 < 2 ^ 34
  total : value out.0 + out.1 * 2 ^ 256 ≡ high_value r * factor

scale_high-IsScaled : (r : Wide512) → IsWide r → IsScaled r (scale_high r)
unfolding scale_high
scale_high-IsScaled r w =
    let p0 = scale_limb r.r4 0 in
    let h0 = scale_limb_total r.r4 0 w.w4 (omega arith) in
    let p1 = scale_limb r.r5 p0.1 in
    let h1 = scale_limb_total r.r5 p0.1 w.w5 h0.2 in
    let p2 = scale_limb r.r6 p1.1 in
    let h2 = scale_limb_total r.r6 p1.1 w.w6 h1.2 in
    let h3 = scale_limb_total r.r7 p2.1 w.w7 h2.2 in omega arith

record IsFolded (r : Wide512) (out : U256 × ℕ) : Type 0 where
  words : IsWords out.0
  top : out.1 < 2 ^ 35
  total : value out.0 + out.1 * 2 ^ 256 ≡ low_value r + high_value r * factor

-- Below 2 ^ 64 the overflow word is 0 and `|` joins nothing.
join_high : (t : ℕ) → t < 2 ^ 64 → bit_or (u64 t) (u128 (u64 (t >>> 64) * 2 ^ 64)) ≡ t
join_high t h =
    let none_high : u128 (u64 (t >>> 64) * 2 ^ 64) ≡ 0 = omega arith in
    rw none_high (omega (arith, bit_or-zero (u64 t)))

add_low-IsFolded : (r : Wide512) (s : U256 × ℕ) → IsWide r → IsScaled r s → IsFolded r (add_low r s)
unfolding add_low
add_low-IsFolded r (p, top) w h =
    let s0 = add_limb r.r0 p.l0 0 in
    let h0 = add_limb_total r.r0 p.l0 0 w.w0 h.words.w0 (omega arith) in
    let s1 = add_limb r.r1 p.l1 s0.1 in
    let h1 = add_limb_total r.r1 p.l1 s0.1 w.w1 h.words.w1 h0.2 in
    let s2 = add_limb r.r2 p.l2 s1.1 in
    let h2 = add_limb_total r.r2 p.l2 s1.1 w.w2 h.words.w2 h1.2 in
    let s3 = add_limb r.r3 p.l3 s2.1 in
    let h3 = add_limb_total r.r3 p.l3 s2.1 w.w3 h.words.w3 h2.2 in
    let join = join_high (u128 (top + s3.1)) (omega arith) in omega arith

-- The 128-bit number that the third loop carries on loses a limb each round.
fold_limb_total :
    (x c : ℕ)
    → x < 2 ^ 64
    → c < 2 ^ 69
    → ((fold_limb x c).0 + (fold_limb x c).1 * 2 ^ 64 ≡ x + c)
      × ((fold_limb x c).0 < 2 ^ 64)
      × ((fold_limb x c).1 < 2 ^ 6)
unfolding fold_limb
fold_limb_total x c hx hc = omega arith

record IsExtended (n : ℕ) (out : U256 × ℕ) : Type 0 where
  words : IsWords out.0
  carry_bit : out.1 ≤ 1
  total : value out.0 + out.1 * 2 ^ 256 ≡ n

fold_extra-IsExtended :
    (s : U256) (e : ℕ) → IsWords s → e < 2 ^ 69 → IsExtended (value s + e) (fold_extra s e)
unfolding fold_extra
fold_extra-IsExtended s e w h =
    let q0 = fold_limb s.l0 e in
    let h0 = fold_limb_total s.l0 e w.w0 h in
    let q1 = fold_limb s.l1 q0.1 in
    let h1 = fold_limb_total s.l1 q0.1 w.w1 (omega arith) in
    let q2 = fold_limb s.l2 q1.1 in
    let h2 = fold_limb_total s.l2 q1.1 w.w2 (omega arith) in
    let h3 = fold_limb_total s.l3 q2.1 w.w3 (omega arith) in omega arith

-- The last fold does not overflow: where a carry is left, the limbs are small.
fold_last_total :
    (n : ℕ) (s : U256 × ℕ)
    → n < 2 ^ 256 + 2 ^ 69
    → IsExtended n s
    → IsWords (fold_last s) × (value (fold_last s) % prime ≡ n % prime)
unfolding fold_last from_u64
fold_last_total n (res, c2) h e =
    let extra = from_u64 (u64 (u128 (c2 * factor))) in
    let sum = add_carry-IsSum res extra e.words (omega arith) in ground arith

-- Before the last loop the limbs are words, and the number is congruent to the wide one.
fold_512_total :
    (r : Wide512)
    → IsWide r
    → IsWords (fold_512 r) × (value (fold_512 r) % prime ≡ wide_value r % prime)
unfolding fold_512
fold_512_total r w =
    let f = add_low-IsFolded r (scale_high r) w (scale_high-IsScaled r w) in
    let out = add_low r (scale_high r) in
    let extra = u128 (out.1 * factor) in
    let e = fold_extra-IsExtended out.0 extra f.words (omega arith) in
    let l = fold_last_total (value out.0 + extra) (fold_extra out.0 extra) (omega arith) e in
    (l.0, omega arith)

-- Any four words are below twice the prime, so one subtraction is enough.
subtract_loop_total :
    (x : U256)
    → IsWords x
    → IsReduced (subtract_loop 2 x) × (value (subtract_loop 2 x) ≡ value x % prime)
unfolding subtract_loop
subtract_loop_total x w =
    let d = sub_borrow-IsDifference x secp256k1_p w p-IsWords in
    let g = gte_iff x secp256k1_p w p-IsWords in
    let g' = gte_iff (sub_borrow x secp256k1_p).0 secp256k1_p d.words p-IsWords in ground arith

-- On eight words, the while loop of `reduce_512` ends by its own test on the fuel given.
pub reduce_512_ends : (r : Wide512) → IsWide r → gte (reduce_512 r) secp256k1_p ≡ false
unfolding reduce_512
reduce_512_ends r w =
    let h = subtract_loop_total (fold_512 r) (fold_512_total r w).0 in
    let g = gte_iff (reduce_512 r) secp256k1_p h.0.words p-IsWords in ground arith

-- `reduce_512` returns the reduced element of the number that its eight limbs stand for, where these are
-- words.
pub reduce_512-Represents : (r : Wide512) → IsWide r → Represents (reduce_512 r) (wide_value r)
unfolding reduce_512
reduce_512-Represents r w =
    let f = fold_512_total r w in
    let h = subtract_loop_total (fold_512 r) f.0 in record { reduced = h.0; is_mod = h.1 ∙ f.1 }

-- `field_mul` multiplies modulo the prime: of two numbers whose limbs are words it returns the reduced
-- element of their product.
pub field_mul-Represents :
    (a b : U256) → IsWords a → IsWords b → Represents (field_mul a b) (value a * value b)
unfolding field_mul
field_mul-Represents a b wa wb =
    let m = mul_wide-value a b wa wb in
    let h = reduce_512-Represents (mul_wide a b) m.0 in
    record { reduced = h.reduced; is_mod = rw (← m.1) h.is_mod }
