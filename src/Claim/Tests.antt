-- ===== src/Claim/Tests.antt =====
-- The policy of src/claim/policy.rs at concrete prevouts.
use puzzle71_solver.Prelude.{
  ◌++◌, ◌≤◌, ◌-◌, ℕ, ◌*◌, ◌≡◌, leb, if◌then◌else◌, refl, arith, ◌^◌, true, none, some, List, [],
  ◌∷◌,
}
use puzzle71_solver.Prelude.Results.{ok, err}
use puzzle71_solver.Claim.Verify.{
  Transaction, TxIn, TxOut, Bitcoin, ClaimSummary, p2pkh, verify_signed_claim, check_transaction,
  check_amounts, check_fee, validate_destination_type,
}
use puzzle71_solver.Claim.Verify.Sound.{IsSound, verify_signed_claim-IsSound}
use puzzle71_solver.Claim.Verify.Amounts.{IsSettled, verify_signed_claim-IsSettled}
use puzzle71_solver.Claim.Builder.{
  ClaimKey, SignedClaim, p2pkh_script_for_hash160, build_signed_claim, finish_claim, sign_from,
  output_value, by_outpoint, insert_by_outpoint, sort_by_outpoint,
}
use puzzle71_solver.Claim.Allowlist.{
  get, https, slipstream, rates_path, is_allowed, strip_prefix, strip_suffix, split_before,
}
use puzzle71_solver.Claim.Allowlist.Sound.{IsPermitted, is_allowed-IsPermitted}
use puzzle71_solver.Claim.Builder.Sound.{IsBuilt, build_signed_claim-IsBuilt}
use puzzle71_solver.Claim.Policy.{
  VerifiedPrevout, fee_for, total_value, candidates, select_prevouts, check_max_weight,
  transaction_too_large, max_vsize, is_economic, economic, insert_by_key, sort_by_key, in_order,
  lex_leb, best_prefix, finish_selection, select_from,
}
use puzzle71_solver.Claim.Policy.Selection.{IsBestOf, select_prevouts-IsBestOf}
use puzzle71_solver.Claim.Policy.Subsets.{skip, keep, done, AllEconomic, select_prevouts-optimal}
use puzzle71_solver.Claim.Policy.Weight.{size, check_max_weight-size}

abbrev prevout : ℕ → ℕ → VerifiedPrevout
prevout value vout = record {
  value = value;
  txid = 1 ∷ 2 ∷ [];
  vout = vout;
  script = p2pkh_script_for_hash160 (5 ∷ 6 ∷ []);
}

abbrev three_prevouts : List VerifiedPrevout
three_prevouts = prevout 1000000 0 ∷ prevout 200000 1 ∷ prevout 3000000 2 ∷ []

-- The prevout that is not worth its input is left out, and the others come by falling value.
select_three :
    select_prevouts three_prevouts 25 2000 ≡ ok (prevout 3000000 2 ∷ prevout 1000000 0 ∷ [])
unfolding select_prevouts candidates economic is_economic insert_by_key sort_by_key in_order lex_leb
    best_prefix finish_selection select_from max_vsize
select_three = refl

select_prevouts-IsBestOf_example :
    IsBestOf 25 2000 (candidates 2000 three_prevouts) (select_prevouts three_prevouts 25 2000)
select_prevouts-IsBestOf_example = select_prevouts-IsBestOf three_prevouts 25 2000

check_max_weight-size_example :
    check_max_weight 6757 25
    ≡ (if leb (size 6757 25 * 4) 4000000 then ok tt else err transaction_too_large)
check_max_weight-size_example = check_max_weight-size 6757 25

-- The subset of the smaller economic prevout alone.
one_prevout-AllEconomic : AllEconomic 2000 (prevout 1000000 0 ∷ [])
unfolding is_economic
one_prevout-AllEconomic = (refl, tt)

one_prevout_pays : fee_for 25 2000 1 ≤ total_value (prevout 1000000 0 ∷ [])
unfolding max_vsize
one_prevout_pays = omega arith

select_prevouts-optimal_example :
    (fee_for 25 2000 2 ≤ total_value (prevout 3000000 2 ∷ prevout 1000000 0 ∷ []))
    × (total_value (prevout 1000000 0 ∷ []) - fee_for 25 2000 1
        ≤ total_value (prevout 3000000 2 ∷ prevout 1000000 0 ∷ []) - fee_for 25 2000 2)
select_prevouts-optimal_example =
    select_prevouts-optimal three_prevouts (prevout 3000000 2 ∷ prevout 1000000 0 ∷ [])
      (prevout 1000000 0 ∷ []) 25 2000 select_three
      (keep (prevout 1000000 0) (skip (prevout 200000 1) (skip (prevout 3000000 2) done)))
      one_prevout-AllEconomic (omega arith) one_prevout_pays

-- The claim of the two selected prevouts to a script of one byte.
abbrev to_script : List ℕ
to_script = 7 ∷ []

abbrev claim_input : ℕ → ℕ → TxIn
claim_input vout sig = record {
  previous_output = (1 ∷ 2 ∷ [], vout);
  script_sig = sig ∷ [];
  sequence = 2 ^ 32 - 1;
  witness = [];
}

abbrev claim_output : TxOut
claim_output = record { value = 3368000; script_pubkey = to_script }

abbrev claim_tx : Transaction
claim_tx = record {
  version = 2;
  lock_time = 0;
  input = claim_input 0 0 ∷ claim_input 2 1 ∷ [];
  output = claim_output ∷ [];
}

-- A crate that knows one transaction, whose bytes are the values of the outputs.
abbrev output_values : List TxOut → List ℕ
output_values [] = []
output_values (o ∷ os) = o.value ∷ output_values os

abbrev one_claim : Bitcoin (List ℕ)
one_claim = record {
  script_of = λ a. a;
  address_type = λ a. some p2pkh;
  witness_program = λ a. none;
  is_x_only_key = λ k. true;
  minimal_non_dust = λ s. 546;
  serialize = λ tx. output_values tx.output;
  deserialize = λ raw. some claim_tx;
  weight = λ tx. 1200;
  vsize = λ tx. 300;
  verify_scripts = λ tx find. true;
}

abbrev claim_summary : ClaimSummary
claim_summary = record {
  input_count = 2;
  total_input_sat = 4000000;
  output_sat = 3368000;
  fee_sat = 632000;
  vsize = 300;
  excluded_dust_count = 1;
  excluded_dust_sat = 200000;
}

accepted :
    verify_signed_claim one_claim (3368000 ∷ []) three_prevouts to_script 2000 ≡ ok claim_summary
unfolding verify_signed_claim check_transaction check_amounts check_fee validate_destination_type
    select_prevouts candidates economic is_economic insert_by_key sort_by_key in_order lex_leb
    best_prefix finish_selection select_from max_vsize
accepted = refl

verify_signed_claim-IsSound_example :
    IsSound one_claim (3368000 ∷ []) three_prevouts to_script 2000 claim_summary
verify_signed_claim-IsSound_example =
    verify_signed_claim-IsSound one_claim (3368000 ∷ []) three_prevouts to_script 2000 claim_summary
      accepted

verify_signed_claim-IsSettled_example : IsSettled three_prevouts 1 2000 claim_summary
verify_signed_claim-IsSettled_example =
    verify_signed_claim-IsSettled one_claim (3368000 ∷ []) three_prevouts to_script 2000
      claim_summary accepted

abbrev test_key : ClaimKey
test_key = record { hash160 = 5 ∷ 6 ∷ []; script_sig = λ tx index script. some (index ∷ []) }

abbrev built_claim : SignedClaim
built_claim = record {
  raw = 3368000 ∷ [];
  summary = claim_summary;
  input_outpoints = (1 ∷ 2 ∷ [], 0) ∷ (1 ∷ 2 ∷ [], 2) ∷ [];
}

building : build_signed_claim one_claim test_key three_prevouts to_script 2000 ≡ ok built_claim
unfolding build_signed_claim finish_claim sign_from output_value by_outpoint insert_by_outpoint
    sort_by_outpoint check_max_weight verify_signed_claim check_transaction check_amounts check_fee
    validate_destination_type select_prevouts candidates economic is_economic insert_by_key
    sort_by_key in_order lex_leb best_prefix finish_selection select_from max_vsize
building = refl

build_signed_claim-IsBuilt_example :
    IsBuilt one_claim test_key three_prevouts to_script 2000 built_claim
build_signed_claim-IsBuilt_example =
    build_signed_claim-IsBuilt one_claim test_key three_prevouts to_script 2000 built_claim building

abbrev rates_url : List ℕ
rates_url = https ++ (slipstream ++ rates_path)

rates_url_allowed : is_allowed get rates_url ≡ true
unfolding is_allowed strip_prefix strip_suffix split_before
rates_url_allowed = refl

is_allowed-IsPermitted_example : IsPermitted get rates_url
is_allowed-IsPermitted_example = is_allowed-IsPermitted get rates_url rates_url_allowed
