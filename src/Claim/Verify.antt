-- ===== src/Claim/Verify.antt =====
-- src/claim/verify.rs: the independent verification of a signed claim, with validate_destination_type of
-- src/claim/destination.rs. The bitcoin crate is a parameter. The names and the f64 rate of the summary are
-- left out; sums of amounts wrap at 2^64, as in a release build.
pub mod Sound
pub mod Sets
pub mod Amounts
use puzzle71_solver.Prelude.{
  ℕ, ◌+◌, ◌-◌, ◌*◌, ◌^◌, ◌≤◌, ◌≡◌, refl, Bool, true, false, ◌&&◌, ◌||◌, not, ltb, leb, ◌==◌,
  if◌then◌else◌, Option, none, some, List, [], ◌∷◌, length, u64, same_bytes,
}
use puzzle71_solver.Prelude.Results.{Result, ok, err, err_if, ◌>>=◌, ◌>>◌}
use puzzle71_solver.Claim.Policy.{
  VerifiedPrevout, PolicyError, fee_mismatch, output_below_dust, transaction_too_large, max_vsize,
  max_claim_weight_wu, select_prevouts,
}

-- The variants of `ClaimError` that the files modelled here return; those of the policy come from it.
pub data ClaimError : Type 0 where
  policy_error : PolicyError → ClaimError
  invalid_address unsupported_address_type destination_is_puzzle_address : ClaimError
  claim_tx_decode duplicate_outpoint script_mismatch fee_rate_out_of_bounds : ClaimError
  output_count output_script_mismatch input_set_mismatch non_final_sequence : ClaimError
  non_zero_locktime script_verification serialization_mismatch : ClaimError
  prev_tx_decode txid_mismatch vout_out_of_range sighash_computation : ClaimError

abbrev pub from_policy : {A : Type 0} → Result A PolicyError → Result A ClaimError
from_policy (ok a) = ok a
from_policy (err e) = err (policy_error e)

abbrev pub min_fee_rate_sat_vb : ℕ
min_fee_rate_sat_vb = 2000

abbrev pub max_fee_rate_sat_vb : ℕ
max_fee_rate_sat_vb = 20000

-- A transaction id and an output index.
abbrev pub Outpoint : Type 0
Outpoint = List ℕ × ℕ

pub record TxIn : Type 0 where
  pub previous_output : Outpoint
  pub script_sig : List ℕ
  pub sequence : ℕ
  pub witness : List (List ℕ)

pub record TxOut : Type 0 where
  pub value : ℕ
  pub script_pubkey : List ℕ

pub record Transaction : Type 0 where
  pub version : ℕ
  pub lock_time : ℕ
  pub input : List TxIn
  pub output : List TxOut

pub data AddressType : Type 0 where
  p2pkh p2sh p2wpkh p2wsh p2tr other : AddressType

-- What the code uses of the bitcoin crate. `A` is its `Address`.
pub record Bitcoin (A : Type 0) : Type 0 where
  pub script_of : A → List ℕ
  pub address_type : A → Option AddressType
  pub witness_program : A → Option (List ℕ)
  pub is_x_only_key : List ℕ → Bool
  pub minimal_non_dust : List ℕ → ℕ
  pub serialize : Transaction → List ℕ
  pub deserialize : List ℕ → Option Transaction
  pub weight : Transaction → ℕ
  pub vsize : Transaction → ℕ
  pub verify_scripts : Transaction → (Outpoint → Option TxOut) → Bool

pub record ClaimSummary : Type 0 where
  pub input_count : ℕ
  pub total_input_sat : ℕ
  pub output_sat : ℕ
  pub fee_sat : ℕ
  pub vsize : ℕ
  pub excluded_dust_count : ℕ
  pub excluded_dust_sat : ℕ

abbrev pub outpoint : VerifiedPrevout → Outpoint
outpoint p = (p.txid, p.vout)

abbrev pub outpoints : List VerifiedPrevout → List Outpoint
outpoints [] = []
outpoints (p ∷ ps) = outpoint p ∷ outpoints ps

abbrev pub spent : List TxIn → List Outpoint
spent [] = []
spent (i ∷ is) = i.previous_output ∷ spent is

abbrev pub same_outpoint : Outpoint → Outpoint → Bool
same_outpoint a b = same_bytes a.0 b.0 && (a.1 == b.1)

-- A `BTreeSet` of outpoints is a list of them.
abbrev pub contains : List Outpoint → Outpoint → Bool
contains [] o = false
contains (x ∷ xs) o = same_outpoint x o || contains xs o

abbrev pub contains_all : List Outpoint → List Outpoint → Bool
contains_all xs [] = true
contains_all xs (y ∷ ys) = contains xs y && contains_all xs ys

-- The loop that inserts each outpoint and stops at one that is there already.
abbrev pub has_duplicate : List Outpoint → Bool
has_duplicate [] = false
has_duplicate (x ∷ xs) = contains xs x || has_duplicate xs

-- `prevout_by_outpoint`: of two entries the later one stands.
abbrev pub prevout_by_outpoint : List VerifiedPrevout → Outpoint → Option TxOut
prevout_by_outpoint [] o = none
prevout_by_outpoint (p ∷ ps) o = elim (prevout_by_outpoint ps o) [
  | some t ↦ some t
  | none ↦
      if same_outpoint (outpoint p) o
      then some (record { value = p.value; script_pubkey = p.script })
      else none
]

abbrev pub value_or_zero : Option TxOut → ℕ
value_or_zero none = 0
value_or_zero (some t) = t.value

abbrev pub sum_of : (Outpoint → Option TxOut) → List Outpoint → ℕ
sum_of find [] = 0
sum_of find (o ∷ os) = value_or_zero (find o) + sum_of find os

-- The count and the sum of the prevouts that are not selected.
abbrev pub excluded_count : List Outpoint → List VerifiedPrevout → ℕ
excluded_count selected [] = 0
excluded_count selected (p ∷ ps) =
    let rest = excluded_count selected ps in
    if contains selected (outpoint p) then rest else rest + 1

abbrev pub excluded_sum : List Outpoint → List VerifiedPrevout → ℕ
excluded_sum selected [] = 0
excluded_sum selected (p ∷ ps) =
    let rest = excluded_sum selected ps in
    if contains selected (outpoint p) then rest else p.value + rest

abbrev pub pays_back : List ℕ → List VerifiedPrevout → Bool
pays_back script [] = false
pays_back script (p ∷ ps) = same_bytes script p.script || pays_back script ps

-- The loop over the inputs: each is final and without a witness, and none is there twice.
abbrev pub check_inputs : List Outpoint → List TxIn → Result (Unit {0}) ClaimError
check_inputs seen [] = ok tt
check_inputs seen (i ∷ is) = do
  err_if (not (i.sequence == 2 ^ 32 - 1) || not (length i.witness == 0)) non_final_sequence
  err_if (contains seen i.previous_output) input_set_mismatch
  check_inputs (i.previous_output ∷ seen) is

unfoldable pub check_fee : ℕ → ℕ → ℕ → ℕ → ℕ → Result (Unit {0}) ClaimError
check_fee fee_sat fee_rate input_count script_len actual_vsize = do
  err_if (leb (2 ^ 64) (max_vsize input_count script_len * fee_rate)) (policy_error fee_mismatch)
  err_if (not (fee_sat == max_vsize input_count script_len * fee_rate)) (policy_error fee_mismatch)
  err_if (ltb (max_vsize input_count script_len) actual_vsize) (policy_error fee_mismatch)

module _ {A : Type 0} (lib : Bitcoin A) where
  abbrev pub check_taproot : Option (List ℕ) → Result (Unit {0}) ClaimError
  check_taproot none = err invalid_address
  check_taproot (some program) = err_if (not (lib.is_x_only_key program)) invalid_address

  abbrev check_type : A → Option AddressType → Result (Unit {0}) ClaimError
  check_type a (some p2tr) = check_taproot (lib.witness_program a)
  check_type a (some p2pkh) = ok tt
  check_type a (some p2sh) = ok tt
  check_type a (some p2wpkh) = ok tt
  check_type a (some p2wsh) = ok tt
  check_type a (some other) = err unsupported_address_type
  check_type a none = err unsupported_address_type

  unfoldable pub validate_destination_type : A → Result (Unit {0}) ClaimError
  validate_destination_type a = check_type a (lib.address_type a)

  abbrev pub decode : List ℕ → Result Transaction ClaimError
  decode raw = elim (lib.deserialize raw) [ none ↦ err claim_tx_decode | some tx ↦ ok tx ]

  abbrev pub single_output : List TxOut → Result TxOut ClaimError
  single_output (o ∷ []) = ok o
  single_output _ = err output_count

  -- The amounts, once the inputs are the selected ones.
  unfoldable pub check_amounts :
      Transaction
      → TxOut
      → List VerifiedPrevout
      → List Outpoint
      → List ℕ
      → ℕ
      → Result ClaimSummary ClaimError
  check_amounts tx output prevouts selected script fee_rate =
      let find = prevout_by_outpoint prevouts in
      let total = u64 (sum_of find (spent tx.input)) in
      let fee = total - output.value in
      do
        err_if (ltb total output.value) (policy_error fee_mismatch)
        check_fee fee fee_rate (length tx.input) (length script) (lib.vsize tx)
        err_if (ltb output.value (lib.minimal_non_dust script)) (policy_error output_below_dust)
        err_if (not (lib.verify_scripts tx find)) script_verification
        ok (record {
          input_count = length tx.input;
          total_input_sat = total;
          output_sat = output.value;
          fee_sat = fee;
          vsize = lib.vsize tx;
          excluded_dust_count = excluded_count selected prevouts;
          excluded_dust_sat = u64 (excluded_sum selected prevouts);
        })

  -- The checks of a decoded transaction.
  unfoldable pub check_transaction :
      Transaction → List ℕ → List VerifiedPrevout → List ℕ → ℕ → Result ClaimSummary ClaimError
  check_transaction tx raw prevouts script fee_rate = do
    err_if (ltb max_claim_weight_wu (lib.weight tx)) (policy_error transaction_too_large)
    err_if (not (same_bytes (lib.serialize tx) raw)) serialization_mismatch
    output ← single_output tx.output
    err_if (not (same_bytes output.script_pubkey script)) output_script_mismatch
    err_if (pays_back output.script_pubkey prevouts) destination_is_puzzle_address
    err_if (not (tx.lock_time == 0)) non_zero_locktime
    selected ← from_policy (select_prevouts prevouts (length script) fee_rate)
    check_inputs [] tx.input
    err_if
        (not (
          contains_all (outpoints selected) (spent tx.input)
          && contains_all (spent tx.input) (outpoints selected)))
        input_set_mismatch
    check_amounts tx output prevouts (outpoints selected) script fee_rate

  unfoldable pub verify_signed_claim :
      List ℕ → List VerifiedPrevout → A → ℕ → Result ClaimSummary ClaimError
  verify_signed_claim raw prevouts destination fee_rate = do
    err_if (not (leb min_fee_rate_sat_vb fee_rate && leb fee_rate max_fee_rate_sat_vb))
        fee_rate_out_of_bounds
    validate_destination_type destination
    err_if (has_duplicate (outpoints prevouts)) duplicate_outpoint
    tx ← decode raw
    check_transaction tx raw prevouts (lib.script_of destination) fee_rate
