-- ===== src/Claim/Policy/Weight.antt =====
-- The weight limit of src/claim/policy.rs in terms of the size before its saturating additions.
use puzzle71_solver.Prelude.{
  ℕ, ◌+◌, ◌*◌, ◌-◌, ◌^◌, ◌≡◌, leb, ltb, true, false, if◌then◌else◌, arith, min, refl, Bool-cases,
  inl, inr,
}
use puzzle71_solver.Prelude.Results.{ok, err}
use puzzle71_solver.Claim.Policy.{
  compact_size_len, p2pkh_input_max_vsize, max_claim_weight_wu, max_vsize, check_max_weight,
  saturate_u64, transaction_too_large,
}

-- The size of a transaction: version, number of inputs, number of outputs and lock time, the inputs, and
-- the output.
abbrev pub size : ℕ → ℕ → ℕ
size input_count script_len =
    4
    + compact_size_len input_count
    + 1
    + 4
    + input_count * p2pkh_input_max_vsize
    + (8 + compact_size_len script_len + script_len)

-- `max_vsize` is the size, or the largest u64 where the size does not fit one.
pub max_vsize-size :
    (input_count script_len : ℕ)
    → max_vsize input_count script_len ≡ min (size input_count script_len) (2 ^ 64 - 1)
unfolding max_vsize
max_vsize-size input_count script_len = omega arith

-- The weight check accepts exactly the transactions whose size, with no saturation, is at most 4,000,000
-- weight units; it refuses every other one as too large.
pub check_max_weight-size :
    (input_count script_len : ℕ)
    → check_max_weight input_count script_len
      ≡ (if leb (size input_count script_len * 4) 4000000 then ok tt else err transaction_too_large)
unfolding check_max_weight
check_max_weight-size input_count script_len =
    elim (Bool-cases (leb (size input_count script_len * 4) 4000000)) [
      | inl h ↦
          let light : ltb max_claim_weight_wu (saturate_u64 (max_vsize input_count script_len * 4))
              ≡ false =
            ground (arith, max_vsize-size input_count script_len) in
          rw (h, light) refl
      | inr h ↦
          let heavy : ltb max_claim_weight_wu (saturate_u64 (max_vsize input_count script_len * 4))
              ≡ true =
            ground (arith, max_vsize-size input_count script_len) in
          rw (h, heavy) refl
    ]
