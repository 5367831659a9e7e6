-- ===== src/U256/Carry.antt =====
-- The carry chains of src/crypto/u256.rs: `add_carry`, `sub_borrow` and the comparison `gte`,
-- against the numbers that the limbs stand for.
use puzzle71_solver.Prelude.{ℕ, ◌+◌, ◌*◌, ◌^◌, ◌≤◌, ◌<◌, ◌≡◌, ◌↔◌, true, arith}
use puzzle71_solver.U256.{U256, value, IsWords, gte, add_limb, add_carry, sub_limb, sub_borrow}

pub value-lt : {a : U256} → IsWords a → value a < 2 ^ 256
value-lt w = omega arith

-- A limb sum and its carry keep the total.
pub add_limb_total :
    (x y c : ℕ)
    → x < 2 ^ 64
    → y < 2 ^ 64
    → c ≤ 1
    → ((add_limb x y c).0 + (add_limb x y c).1 * 2 ^ 64 ≡ x + y + c)
      × ((add_limb x y c).0 < 2 ^ 64)
      × ((add_limb x y c).1 ≤ 1)
unfolding add_limb
add_limb_total x y c hx hy hc = omega arith

sub_limb_total :
    (x y b : ℕ)
    → x < 2 ^ 64
    → y < 2 ^ 64
    → b ≤ 1
    → ((sub_limb x y b).0 + y + b ≡ x + (sub_limb x y b).1 * 2 ^ 64)
      × ((sub_limb x y b).0 < 2 ^ 64)
      × ((sub_limb x y b).1 ≤ 1)
unfolding sub_limb
sub_limb_total x y b hx hy hb = ground arith

-- What `add_carry` and `sub_borrow` return, as numbers.
pub record IsSum (a b : U256) (r : U256 × ℕ) : Type 0 where
  pub words : IsWords r.0
  pub total : value r.0 + r.1 * 2 ^ 256 ≡ value a + value b
  pub carry_bit : r.1 ≤ 1

pub record IsDifference (a b : U256) (r : U256 × ℕ) : Type 0 where
  pub words : IsWords r.0
  pub total : value r.0 + value b ≡ value a + r.1 * 2 ^ 256
  pub borrow_bit : r.1 ≤ 1

pub add_carry-IsSum : (a b : U256) → IsWords a → IsWords b → IsSum a b (add_carry a b)
unfolding add_carry
add_carry-IsSum a b wa wb =
    let r0 = add_limb a.l0 b.l0 0 in
    let h0 = add_limb_total a.l0 b.l0 0 wa.w0 wb.w0 (omega arith) in
    let r1 = add_limb a.l1 b.l1 r0.1 in
    let h1 = add_limb_total a.l1 b.l1 r0.1 wa.w1 wb.w1 h0.2 in
    let r2 = add_limb a.l2 b.l2 r1.1 in
    let h2 = add_limb_total a.l2 b.l2 r1.1 wa.w2 wb.w2 h1.2 in
    let h3 = add_limb_total a.l3 b.l3 r2.1 wa.w3 wb.w3 h2.2 in omega arith

pub sub_borrow-IsDifference :
    (a b : U256) → IsWords a → IsWords b → IsDifference a b (sub_borrow a b)
unfolding sub_borrow
sub_borrow-IsDifference a b wa wb =
    let r0 = sub_limb a.l0 b.l0 0 in
    let h0 = sub_limb_total a.l0 b.l0 0 wa.w0 wb.w0 (omega arith) in
    let r1 = sub_limb a.l1 b.l1 r0.1 in
    let h1 = sub_limb_total a.l1 b.l1 r0.1 wa.w1 wb.w1 h0.2 in
    let r2 = sub_limb a.l2 b.l2 r1.1 in
    let h2 = sub_limb_total a.l2 b.l2 r1.1 wa.w2 wb.w2 h1.2 in
    let h3 = sub_limb_total a.l3 b.l3 r2.1 wa.w3 wb.w3 h2.2 in omega arith

-- `gte` compares the numbers, for limbs that are words.
pub gte_iff : (a b : U256) → IsWords a → IsWords b → (gte a b ≡ true) ↔ (value b ≤ value a)
unfolding gte
gte_iff a b wa wb = ground arith
