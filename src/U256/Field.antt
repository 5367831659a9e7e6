-- ===== src/U256/Field.antt =====
-- `field_add`, `field_sub` and `field_neg` of src/crypto/u256.rs compute in the integers modulo the
-- secp256k1 prime, and keep their results reduced.
use puzzle71_solver.Prelude.{ℕ, ◌+◌, ◌-◌, ◌%◌, ◌^◌, ◌<◌, ◌≡◌, arith}
use puzzle71_solver.U256.{
  U256, value, IsWords, secp256k1_p, is_zero, add_carry, sub_borrow, field_add, field_sub,
  field_neg,
}
use puzzle71_solver.U256.Carry.{add_carry-IsSum, sub_borrow-IsDifference, gte_iff}

abbrev pub prime : ℕ
prime = 2 ^ 256 - 2 ^ 32 - 977

-- A reduced field element.
pub record IsReduced (a : U256) : Type 0 where
  pub words : IsWords a
  pub below : value a < prime

-- The constant's limbs are the prime.
pub p-IsWords : IsWords secp256k1_p
p-IsWords = omega arith

-- `a` is a reduced element that stands for the number `n` modulo the prime.
pub record Represents (a : U256) (n : ℕ) : Type 0 where
  pub reduced : IsReduced a
  pub is_mod : value a ≡ n % prime

-- `field_add` adds modulo the prime: of two reduced elements it returns the reduced element whose
-- number is the remainder of the sum.
pub field_add-Represents :
    (a b : U256) → IsReduced a → IsReduced b → Represents (field_add a b) (value a + value b)
unfolding field_add
field_add-Represents a b ra rb =
    let s = add_carry-IsSum a b ra.words rb.words in
    let d = sub_borrow-IsDifference (add_carry a b).0 secp256k1_p s.words p-IsWords in
    let g = gte_iff (add_carry a b).0 secp256k1_p s.words p-IsWords in ground arith

-- `field_sub` subtracts modulo the prime: the result is the reduced element whose number is the
-- remainder of the first number plus the prime less the second.
pub field_sub-Represents :
    (a b : U256)
    → IsReduced a
    → IsReduced b
    → Represents (field_sub a b) (value a + prime - value b)
unfolding field_sub
field_sub-Represents a b ra rb =
    let d = sub_borrow-IsDifference a b ra.words rb.words in
    let s = add_carry-IsSum (sub_borrow a b).0 secp256k1_p d.words p-IsWords in ground arith

-- `field_neg` negates modulo the prime: the result is the reduced element whose number is the
-- remainder of the prime less the argument's.
pub field_neg-Represents : (a : U256) → IsReduced a → Represents (field_neg a) (prime - value a)
unfolding field_neg field_sub is_zero
field_neg-Represents a ra =
    let d = sub_borrow-IsDifference secp256k1_p a p-IsWords ra.words in ground arith
