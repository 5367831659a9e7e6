-- ===== src/Crypto/Base58/Digits.antt =====
-- The change of base in src/crypto/base58.rs keeps the number.
use puzzle71_solver.Prelude.{
  ℕ, zero, suc, ◌+◌, ◌*◌, ◌/◌, ◌^◌, ◌≤◌, ◌<◌, ◌≡◌, ◌∙◌, refl, ap, Bool-cases, inl, inr, ◌==◌, arith,
  List, [], ◌∷◌, u32,
}
use native.Mathlib.Nat.{
  div-add-mod', mod-lt, mod-eq_of_lt, mul-le-mul, mul-le-mul_left, mul_comm, le-div_iff_mul-le,
  mul-add, add-mul, mul_assoc, pow-succ', mul-le-mul_right,
}
use puzzle71_solver.Crypto.Base58.{spill, add_digit, convert}

-- The number of digits with the least first.
abbrev pub number : ℕ → List ℕ → ℕ
number base [] = 0
number base (d ∷ ds) = d + base * number base ds

-- The number of digits with the greatest first, behind those of `n`.
abbrev pub number_from : ℕ → ℕ → List ℕ → ℕ
number_from radix n [] = n
number_from radix n (b ∷ bs) = number_from radix (n * radix + b) bs

abbrev pub AllBelow : ℕ → List ℕ → Type 0
AllBelow base [] = Unit
AllBelow base (d ∷ ds) = (d < base) × AllBelow base ds

module _ (base radix : ℕ) (two : 2 ≤ base) (small : base ≤ 256) (radix_small : radix ≤ 256) where
  quotient_halves : (carry bound : ℕ) → carry < 2 * bound → carry / base < bound
  quotient_halves carry bound h =
      omega (arith, div-add-mod' carry base, mul-le-mul_left (carry / base) two)

  spill-number :
      (fuel carry : ℕ)
      → carry < 2 ^ fuel
      → (number base (spill base fuel carry) ≡ carry) × AllBelow base (spill base fuel carry)
  unfolding spill
  spill-number zero carry h = (omega arith, tt)
  spill-number (suc fuel) carry h = elim (Bool-cases (carry == 0)) [
    | inl done ↦ rw done (ground arith, tt)
    | inr more ↦
        let rest =
          spill-number fuel (carry / base)
            (quotient_halves carry (2 ^ fuel) (omega (arith, h, pow-succ' 2 fuel))) in
        rw (more, rest.0)
          (
            omega (arith, div-add-mod' carry base, mul_comm base (carry / base)),
            (mod-lt carry (omega arith), rest.1),
          )
  ]

  product_below : (d carry : ℕ) → d < base → carry < radix → d * radix + carry < base * radix
  product_below d carry below h =
      omega (arith, mul-le-mul_right {m = d + 1} {n = base} radix (omega arith), add-mul d 1 radix)

  quotient_below : (acc : ℕ) → acc < base * radix → acc / base < radix
  quotient_below acc h = grind (
    arith,
    (le-div_iff_mul-le {k = base} {x = radix} {y = acc} (omega arith)).0,
    mul_comm base radix,
  )

  acc_fits : (acc : ℕ) → acc < base * radix → u32 acc ≡ acc
  acc_fits acc h = mod-eq_of_lt (omega (arith, mul-le-mul small radix_small))

  -- The digits after one more are those of `radix` times the number plus the new one.
  add_digit-number :
      (ds : List ℕ) (carry : ℕ)
      → AllBelow base ds
      → carry < radix
      → (number base (add_digit base radix ds carry) ≡ number base ds * radix + carry)
        × AllBelow base (add_digit base radix ds carry)
  unfolding add_digit
  add_digit-number [] carry below h =
      let s = spill-number 32 carry (omega arith) in (omega (arith, s.0), s.1)
  add_digit-number (d ∷ ds) carry below h =
      let acc = d * radix + carry in
      let bound = product_below d carry below.0 h in
      let rest = add_digit-number ds (acc / base) below.1 (quotient_below acc bound) in
      let n = number base ds in
      rw (acc_fits acc bound, rest.0)
        (
          omega (
            arith,
            div-add-mod' acc base,
            mul-add base (n * radix) (acc / base),
            mul_comm base (acc / base),
            add-mul d (base * n) radix,
            mul_assoc base n radix,
          ),
          (mod-lt acc (omega arith), rest.1),
        )

-- The loops of `b58_encode` (base 58, radix 256) and `b58_decode` (base 256, radix 58) change the base of a
-- number: for a base from 2 to 256 and a radix up to 256, the digits that they leave are below the base,
-- and stand for the number of the digits read, behind that of the digits at the start.
pub convert-number :
    (base radix : ℕ)
    → 2 ≤ base
    → base ≤ 256
    → radix ≤ 256
    → (digits bs : List ℕ) → AllBelow base digits
    → AllBelow radix bs
    → (number base (convert base radix digits bs) ≡ number_from radix (number base digits) bs)
      × AllBelow base (convert base radix digits bs)
unfolding convert
convert-number base radix two small radix_small digits [] below inputs = (refl, below)
convert-number base radix two small radix_small digits (b ∷ bs) below inputs =
    let step = add_digit-number base radix two small radix_small digits b below inputs.0 in
    let rest =
      convert-number base radix two small radix_small (add_digit base radix digits b) bs step.1
        inputs.1 in
    (rest.0 ∙ ap (λ n. number_from radix n bs) step.0, rest.1)
