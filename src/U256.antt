-- ===== src/U256.antt =====
-- The 256-bit integers of src/crypto/u256.rs: four little-endian 64-bit limbs, their carry chains
-- and the field arithmetic modulo the secp256k1 prime. An `as u64` cast is `u64`, a 128-bit
-- intermediate is `u128`, and a value of type i128 is kept as a difference with its sign tested.
pub mod Carry
pub mod Field
pub mod Wide
pub mod Product
pub mod Reduce
pub mod Pow
pub mod Bytes
mod Tests
use puzzle71_solver.Prelude.{
  ℕ, zero, suc, ◌+◌, ◌-◌, ◌*◌, ◌%◌, ◌^◌, ◌<◌, Bool, true, false, not, ◌&&◌, ◌||◌, List, [], ◌∷◌,
  bit_or, u64, u128, ◌>>>◌, ltb, ◌==◌, if◌then◌else◌,
}

pub record U256 : Type 0 where
  pub l0 : ℕ
  pub l1 : ℕ
  pub l2 : ℕ
  pub l3 : ℕ

-- The number that the limbs stand for.
abbrev pub value : U256 → ℕ
value a = a.l0 + a.l1 * 2 ^ 64 + a.l2 * 2 ^ 128 + a.l3 * 2 ^ 192

-- Each limb is a u64.
pub record IsWords (a : U256) : Type 0 where
  pub w0 : a.l0 < 2 ^ 64
  pub w1 : a.l1 < 2 ^ 64
  pub w2 : a.l2 < 2 ^ 64
  pub w3 : a.l3 < 2 ^ 64

abbrev pub secp256k1_p : U256
secp256k1_p = record {
  l0 = 0xFFFFFFFEFFFFFC2F;
  l1 = 0xFFFFFFFFFFFFFFFF;
  l2 = 0xFFFFFFFFFFFFFFFF;
  l3 = 0xFFFFFFFFFFFFFFFF;
}

abbrev pub zero_u256 : U256
zero_u256 = record { l0 = 0; l1 = 0; l2 = 0; l3 = 0 }

abbrev pub one_u256 : U256
one_u256 = record { l0 = 1; l1 = 0; l2 = 0; l3 = 0 }

unfoldable pub from_u64 : ℕ → U256
from_u64 n = record { l0 = n; l1 = 0; l2 = 0; l3 = 0 }

unfoldable pub from_u128 : ℕ → U256
from_u128 n = record { l0 = u64 n; l1 = u64 (n >>> 64); l2 = 0; l3 = 0 }

unfoldable pub is_zero : U256 → Bool
is_zero a = a.l0 == 0 && a.l1 == 0 && a.l2 == 0 && a.l3 == 0

unfoldable pub is_odd : U256 → Bool
is_odd a = not (a.l0 % 2 == 0)

unfoldable pub is_even : U256 → Bool
is_even a = a.l0 % 2 == 0

-- The derived `==`.
unfoldable pub eq_u256 : U256 → U256 → Bool
eq_u256 a b = a.l0 == b.l0 && a.l1 == b.l1 && a.l2 == b.l2 && a.l3 == b.l3

-- The loop of `gte` over the limbs of both numbers, the highest first.
unfoldable pub gte_from : List (ℕ × ℕ) → Bool
gte_from [] = true
gte_from ((x, y) ∷ rest) = if ltb y x then true else if ltb x y then false else gte_from rest

unfoldable pub gte : U256 → U256 → Bool
unfolding gte_from
gte a b = gte_from ((a.l3, b.l3) ∷ (a.l2, b.l2) ∷ (a.l1, b.l1) ∷ (a.l0, b.l0) ∷ [])

-- One round of `add_carry`: the limb of the sum and the next carry.
unfoldable pub add_limb : ℕ → ℕ → ℕ → ℕ × ℕ
add_limb x y carry = let sum = u128 (x + y + carry) in (u64 sum, sum >>> 64)

unfoldable pub add_carry : U256 → U256 → U256 × ℕ
add_carry a b =
    let (r0, c0) = add_limb a.l0 b.l0 0 in
    let (r1, c1) = add_limb a.l1 b.l1 c0 in
    let (r2, c2) = add_limb a.l2 b.l2 c1 in
    let (r3, c3) = add_limb a.l3 b.l3 c2 in (record { l0 = r0; l1 = r1; l2 = r2; l3 = r3 }, u64 c3)

-- One round of `sub_borrow`. The signed `diff` is x - (y + borrow); where it is negative, 2 ^ 64
-- is added.
unfoldable pub sub_limb : ℕ → ℕ → ℕ → ℕ × ℕ
sub_limb x y borrow =
    if ltb x (y + borrow) then (u64 (x + 2 ^ 64 - (y + borrow)), 1) else (u64 (x - (y + borrow)), 0)

unfoldable pub sub_borrow : U256 → U256 → U256 × ℕ
sub_borrow a b =
    let (r0, b0) = sub_limb a.l0 b.l0 0 in
    let (r1, b1) = sub_limb a.l1 b.l1 b0 in
    let (r2, b2) = sub_limb a.l2 b.l2 b1 in
    let (r3, b3) = sub_limb a.l3 b.l3 b2 in (record { l0 = r0; l1 = r1; l2 = r2; l3 = r3 }, b3)

unfoldable pub field_add : U256 → U256 → U256
field_add a b =
    let (sum, carry) = add_carry a b in
    if not (carry == 0) || gte sum secp256k1_p then (sub_borrow sum secp256k1_p).0 else sum

unfoldable pub field_sub : U256 → U256 → U256
field_sub a b =
    let (diff, borrow) = sub_borrow a b in
    if not (borrow == 0) then (add_carry diff secp256k1_p).0 else diff

unfoldable pub field_neg : U256 → U256
field_neg a = if is_zero a then zero_u256 else field_sub secp256k1_p a

-- The array [u64; 8] of a full product.
pub record Wide512 : Type 0 where
  pub r0 : ℕ
  pub r1 : ℕ
  pub r2 : ℕ
  pub r3 : ℕ
  pub r4 : ℕ
  pub r5 : ℕ
  pub r6 : ℕ
  pub r7 : ℕ

-- One inner round of `mul_wide`: what is stored into r[i + j], and the next carry.
unfoldable pub mul_limb : ℕ → ℕ → ℕ → ℕ → ℕ × ℕ
mul_limb x y r carry = let prod = u128 (x * y + r + carry) in (u64 prod, prod >>> 64)

-- The inner loop of `mul_wide`: limb i of the left factor times the right factor, added into
-- r[i .. i + 4], and the last carry added into r[i + 4], which no earlier round has written.
unfoldable pub mul_row : ℕ → U256 → U256 → U256 × ℕ
mul_row x b r =
    let (p0, c0) = mul_limb x b.l0 r.l0 0 in
    let (p1, c1) = mul_limb x b.l1 r.l1 c0 in
    let (p2, c2) = mul_limb x b.l2 r.l2 c1 in
    let (p3, c3) = mul_limb x b.l3 r.l3 c2 in
    (record { l0 = p0; l1 = p1; l2 = p2; l3 = p3 }, u64 (0 + u64 c3))

-- The four limbs that the next row adds to: r[i + 1 .. i + 5].
abbrev shift_row : U256 × ℕ → U256
shift_row (r, top) = record { l0 = r.l1; l1 = r.l2; l2 = r.l3; l3 = top }

unfoldable pub mul_wide : U256 → U256 → Wide512
mul_wide a b =
    let row0 = mul_row a.l0 b zero_u256 in
    let row1 = mul_row a.l1 b (shift_row row0) in
    let row2 = mul_row a.l2 b (shift_row row1) in
    let row3 = mul_row a.l3 b (shift_row row2) in
    record {
      r0 = row0.0.l0;
      r1 = row1.0.l0;
      r2 = row2.0.l0;
      r3 = row3.0.l0;
      r4 = row3.0.l1;
      r5 = row3.0.l2;
      r6 = row3.0.l3;
      r7 = row3.1;
    }
