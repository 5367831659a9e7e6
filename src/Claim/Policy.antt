-- ===== src/Claim/Policy.antt =====
-- src/claim/policy.rs: the size bound of a claim transaction and the choice of its inputs. A destination
-- script enters by its length alone; a prevout by its value, its outpoint and its script. The
-- product in `is_economic` wraps, as in a release build.
pub mod Selection
pub mod Weight
pub mod Subsets
use puzzle71_solver.Prelude.{
  ℕ, zero, suc, ◌+◌, ◌-◌, ◌*◌, ◌%◌, ◌^◌, ◌≤◌, ◌<◌, ◌≡◌, ◌⊎◌, inl, inr, refl, ap, sym, Bool, true,
  false, ◌&&◌, ◌||◌, not, ltb, leb, ◌==◌, if◌then◌else◌, Bool-cases, arith, min, max, Option, none,
  some, List, [], ◌∷◌, length, take, u64,
}
use puzzle71_solver.Prelude.Results.{Result, ok, err, err_if, ◌>>=◌}

pub record VerifiedPrevout : Type 0 where
  pub value : ℕ
  pub txid : List ℕ
  pub vout : ℕ
  pub script : List ℕ

-- The variants of `ClaimError` that the policy returns.
pub data PolicyError : Type 0 where
  no_economic_inputs fee_mismatch output_below_dust transaction_too_large : PolicyError

abbrev pub p2pkh_input_max_vsize : ℕ
p2pkh_input_max_vsize = 148

abbrev pub max_claim_weight_wu : ℕ
max_claim_weight_wu = 4000000

abbrev pub compact_size_len : ℕ → ℕ
compact_size_len n =
    if leb n 0xfc then 1 else if leb n 0xffff then 3 else if leb n 0xffffffff then 5 else 9

-- `u64::saturating_add` and `u64::saturating_mul`.
abbrev pub saturate_u64 : ℕ → ℕ
saturate_u64 n = min n (2 ^ 64 - 1)

unfoldable pub max_vsize : ℕ → ℕ → ℕ
max_vsize input_count script_len =
    let base = 4 + compact_size_len input_count + 1 + 4 in
    let inputs = saturate_u64 (input_count * p2pkh_input_max_vsize) in
    let output = 8 + compact_size_len script_len + script_len in
    saturate_u64 (saturate_u64 (base + inputs) + output)

unfoldable pub is_economic : ℕ → ℕ → Bool
is_economic value_sat fee_rate = ltb (u64 (p2pkh_input_max_vsize * fee_rate)) value_sat

-- The order of byte arrays of one length.
unfoldable pub lex_leb : List ℕ → List ℕ → Bool
lex_leb [] ys = true
lex_leb (x ∷ xs) [] = false
lex_leb (x ∷ xs) (y ∷ ys) = let rest = lex_leb xs ys in ltb x y || ((x == y) && rest)

-- The order of the sort keys `(Reverse(value), txid, vout)`; equal keys count as in order.
unfoldable pub in_order : VerifiedPrevout → VerifiedPrevout → Bool
in_order p q =
    ltb q.value p.value
    || ((p.value == q.value)
        && (not (lex_leb q.txid p.txid) || (lex_leb p.txid q.txid && leb p.vout q.vout)))

-- `sort_by_key`, the stable sort of the standard library, here by insertion.
unfoldable pub insert_by_key : VerifiedPrevout → List VerifiedPrevout → List VerifiedPrevout
insert_by_key p [] = p ∷ []
insert_by_key p (q ∷ qs) =
    let rest = insert_by_key p qs in if in_order p q then p ∷ q ∷ qs else q ∷ rest

unfoldable pub sort_by_key : List VerifiedPrevout → List VerifiedPrevout
sort_by_key [] = []
sort_by_key (p ∷ ps) = insert_by_key p (sort_by_key ps)

unfoldable pub economic : ℕ → List VerifiedPrevout → List VerifiedPrevout
economic fee_rate [] = []
economic fee_rate (p ∷ ps) =
    let rest = economic fee_rate ps in if is_economic p.value fee_rate then p ∷ rest else rest

-- The candidates in the order in which the loop visits them.
unfoldable pub candidates : ℕ → List VerifiedPrevout → List VerifiedPrevout
candidates fee_rate prevouts = sort_by_key (economic fee_rate prevouts)

-- The fee for a number of inputs, before its test for an overflow.
abbrev pub fee_for : ℕ → ℕ → ℕ → ℕ
fee_for script_len fee_rate count = max_vsize count script_len * fee_rate

abbrev pub is_none_or_below : Option ℕ → ℕ → Bool
is_none_or_below none payout = true
is_none_or_below (some best) payout = ltb best payout

-- The loop over the candidates: `index`, `total`, `best_payout` and `best_count`, the last two returned.
unfoldable pub best_prefix :
    ℕ → ℕ → ℕ → ℕ → Option ℕ → ℕ → List VerifiedPrevout → Result (Option ℕ × ℕ) PolicyError
best_prefix script_len fee_rate index total best_payout best_count [] = ok (best_payout, best_count)
best_prefix script_len fee_rate index total best_payout best_count (p ∷ ps) =
    let next = total + p.value in
    let fee = fee_for script_len fee_rate (index + 1) in
    let better = leb fee next && is_none_or_below best_payout (next - fee) in
    let replaced =
      best_prefix script_len fee_rate (index + 1) next (some (next - fee)) (index + 1) ps in
    let kept = best_prefix script_len fee_rate (index + 1) next best_payout best_count ps in
    if leb (2 ^ 64) next || leb (2 ^ 64) fee
    then err fee_mismatch
    else if better
    then replaced
    else kept

-- The end of `select_prevouts`: the best prefix, or the error where no prefix pays its fee.
unfoldable pub finish_selection :
    List VerifiedPrevout → Option ℕ × ℕ → Result (List VerifiedPrevout) PolicyError
finish_selection cs (best_payout, best_count) =
    if best_count == 0 then err output_below_dust else ok (take best_count cs)

unfoldable pub select_from :
    ℕ → ℕ → List VerifiedPrevout → Result (List VerifiedPrevout) PolicyError
select_from script_len fee_rate [] = err no_economic_inputs
select_from script_len fee_rate (c ∷ cs) =
    best_prefix script_len fee_rate 0 0 none 0 (c ∷ cs) >>= finish_selection (c ∷ cs)

unfoldable pub select_prevouts :
    List VerifiedPrevout → ℕ → ℕ → Result (List VerifiedPrevout) PolicyError
select_prevouts prevouts script_len fee_rate =
    select_from script_len fee_rate (candidates fee_rate prevouts)

unfoldable pub check_max_weight : ℕ → ℕ → Result (Unit {0}) PolicyError
check_max_weight input_count script_len =
    err_if (ltb max_claim_weight_wu (saturate_u64 (max_vsize input_count script_len * 4)))
      transaction_too_large

abbrev pub total_value : List VerifiedPrevout → ℕ
total_value [] = 0
total_value (p ∷ ps) = p.value + total_value ps
