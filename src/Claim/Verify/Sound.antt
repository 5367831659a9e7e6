-- ===== src/Claim/Verify/Sound.antt =====
-- What a claim that `verify_signed_claim` of src/claim/verify.rs accepts has.
use puzzle71_solver.Prelude.{
  ℕ, ◌+◌, ◌-◌, ◌*◌, ◌^◌, ◌≤◌, ◌≡◌, ◌∙◌, refl, ap, ap₂, sym, subst, Bool, true, false, ◌&&◌, ◌||◌,
  not, ltb, leb, ◌==◌, Bool-cases, inl, inr, arith, Option-cases, none, some, List, [], ◌∷◌, length,
  u64, same_bytes, same_bytes-≡, same_bytes_refl,
}
use puzzle71_solver.Prelude.Results.{
  Result, ok, err, err_if, ◌>>=◌, ◌>>◌, then-ok, err_if-ok, ok_inj, bind-split,
}
use puzzle71_solver.Claim.Policy.{
  VerifiedPrevout, PolicyError, max_vsize, max_claim_weight_wu, select_prevouts,
}
use puzzle71_solver.Claim.Verify.{
  ClaimError, from_policy, min_fee_rate_sat_vb, max_fee_rate_sat_vb, Outpoint, TxIn, TxOut,
  Transaction, Bitcoin, ClaimSummary, outpoints, spent, same_outpoint, contains, contains_all,
  has_duplicate, prevout_by_outpoint, sum_of, pays_back, check_inputs, check_fee,
  validate_destination_type, decode, single_output, check_amounts, check_transaction,
  verify_signed_claim, fee_rate_out_of_bounds, duplicate_outpoint, claim_tx_decode,
  serialization_mismatch, output_script_mismatch, destination_is_puzzle_address, non_zero_locktime,
  input_set_mismatch, non_final_sequence, script_verification,
}

-- What the checks of the amounts leave.
pub record IsPaid {A : Type 0} (lib : Bitcoin A) (tx : Transaction)
    (prevouts : List VerifiedPrevout) (script : List ℕ) (fee_rate : ℕ) (summary : ClaimSummary)
    : Type 0 where
  pub count : summary.input_count ≡ length tx.input
  pub total : summary.total_input_sat ≡ u64 (sum_of (prevout_by_outpoint prevouts) (spent tx.input))
  pub balance : summary.total_input_sat ≡ summary.output_sat + summary.fee_sat
  pub fee : summary.fee_sat ≡ max_vsize (length tx.input) (length script) * fee_rate
  pub size :
      (summary.vsize ≡ lib.vsize tx) × (lib.vsize tx ≤ max_vsize (length tx.input) (length script))
  pub not_dust : lib.minimal_non_dust script ≤ summary.output_sat
  pub signed : lib.verify_scripts tx (prevout_by_outpoint prevouts) ≡ true

-- What the checks of a decoded transaction leave: the prevouts that the policy selects, and how the
-- transaction fits them.
pub record IsFitting {A : Type 0} (lib : Bitcoin A) (tx : Transaction) (raw : List ℕ)
    (prevouts : List VerifiedPrevout) (script : List ℕ) (fee_rate : ℕ) (summary : ClaimSummary)
    : Type 0 where
  pub selected : List VerifiedPrevout
  pub exact : lib.serialize tx ≡ raw
  pub weight : lib.weight tx ≤ 4000000
  pub one_output :
      tx.output
      ≡ (let o : TxOut = record { value = summary.output_sat; script_pubkey = script } in o) ∷ []
  pub leaves : pays_back script prevouts ≡ false
  pub lock_time : tx.lock_time ≡ 0
  pub chosen : select_prevouts prevouts (length script) fee_rate ≡ ok selected
  pub same_inputs : (o : Outpoint) → contains (spent tx.input) o ≡ contains (outpoints selected) o
  pub once : has_duplicate (spent tx.input) ≡ false
  pub paid : IsPaid lib tx prevouts script fee_rate summary

-- An accepted claim and its transaction.
pub record IsSound {A : Type 0} (lib : Bitcoin A) (raw : List ℕ) (prevouts : List VerifiedPrevout)
    (destination : A) (fee_rate : ℕ) (summary : ClaimSummary) : Type 0 where
  pub tx : Transaction
  pub rate : (2000 ≤ fee_rate) × (fee_rate ≤ 20000)
  pub unique : has_duplicate (outpoints prevouts) ≡ false
  pub decoded : lib.deserialize raw ≡ some tx
  pub fits : IsFitting lib tx raw prevouts (lib.script_of destination) fee_rate summary

pub passed : (b : Bool) (e : ClaimError) → err_if (not b) e ≡ ok tt → b ≡ true
passed true e h = refl
passed false e h = absurd (ground arith)

both : (a b : Bool) → a && b ≡ true → (a ≡ true) × (b ≡ true)
both a b h = (ground arith, ground arith)

leb-≤ : (a b : ℕ) → leb a b ≡ true → a ≤ b
leb-≤ a b h = ground arith

not_ltb-≤ : (a b : ℕ) → ltb a b ≡ false → b ≤ a
not_ltb-≤ a b h = ground arith

same-≡ : (a b : ℕ) → (a == b) ≡ true → a ≡ b
same-≡ a b h = ground arith

balances : (total output : ℕ) → ltb total output ≡ false → total ≡ output + (total - output)
balances total output h = ground arith

pub same_outpoint-≡ : (a b : Outpoint) → same_outpoint a b ≡ true → a ≡ b
same_outpoint-≡ a b h = ap₂ (λ x y. (x, y)) (same_bytes-≡ a.0 b.0 (ground arith)) (ground arith)

pub same_outpoint_refl : (a : Outpoint) → same_outpoint a a ≡ true
same_outpoint_refl a = ground (arith, same_bytes_refl a.0)

contains_all-contains :
    (xs ys : List Outpoint) (o : Outpoint)
    → contains_all xs ys ≡ true
    → contains ys o ≡ true
    → contains xs o ≡ true
contains_all-contains xs [] o h m = absurd (ground arith)
contains_all-contains xs (y ∷ ys) o h m = elim (Bool-cases (same_outpoint y o)) [
  | inl e ↦ subst (λ z. contains xs z ≡ true) (same_outpoint-≡ y o e) (ground arith)
  | inr e ↦ contains_all-contains xs ys o (ground arith) (ground arith)
]

same_sets :
    (xs ys : List Outpoint) (o : Outpoint)
    → contains_all xs ys ≡ true
    → contains_all ys xs ≡ true
    → contains ys o ≡ contains xs o
same_sets xs ys o h k = elim (Bool-cases (contains ys o)) [
  | inl e ↦ e ∙ sym (contains_all-contains xs ys o h e)
  | inr e ↦ elim (Bool-cases (contains xs o)) [
    | inl e' ↦ absurd (ground (arith, contains_all-contains ys xs o k e'))
    | inr e' ↦ e ∙ sym e'
  ]
]

check_fee-ok :
    (fee_sat fee_rate count script_len vsize : ℕ)
    → check_fee fee_sat fee_rate count script_len vsize ≡ ok tt
    → (fee_sat ≡ max_vsize count script_len * fee_rate) × (vsize ≤ max_vsize count script_len)
unfolding check_fee
check_fee-ok fee_sat fee_rate count script_len vsize h =
    let one = then-ok (err_if (leb (2 ^ 64) (max_vsize count script_len * fee_rate)) _) _ h in
    let two = then-ok (err_if (not (fee_sat == max_vsize count script_len * fee_rate)) _) _ one.1 in
    let same = err_if-ok _ _ two.0 in
    let small = err_if-ok (ltb (max_vsize count script_len) vsize) _ two.1 in
    (ground arith, ground arith)

check_inputs-ok :
    (seen : List Outpoint) (is : List TxIn)
    → check_inputs seen is ≡ ok tt
    → (has_duplicate (spent is) ≡ false)
      × ((o : Outpoint) → contains seen o ≡ true → contains (spent is) o ≡ false)
check_inputs-ok seen [] h = (refl, λ o m. refl)
check_inputs-ok seen (i ∷ is) h =
    let one =
      then-ok
        (err_if (not (i.sequence == 2 ^ 32 - 1) || not (length i.witness == 0)) non_final_sequence)
        _ h in
    let two = then-ok (err_if (contains seen i.previous_output) input_set_mismatch) _ one.1 in
    let fresh = err_if-ok (contains seen i.previous_output) input_set_mismatch two.0 in
    let (rest, apart) = check_inputs-ok (i.previous_output ∷ seen) is two.1 in
    let here : contains (i.previous_output ∷ seen) i.previous_output ≡ true =
      rw (same_outpoint_refl i.previous_output) refl in
    (
      ground (arith, rest, apart i.previous_output here),
      λ o m. elim (Bool-cases (same_outpoint i.previous_output o)) [
        | inl e ↦
            let again =
              subst (λ x. contains seen x ≡ true) (sym (same_outpoint-≡ i.previous_output o e)) m in
            absurd (ground (arith, again, fresh))
        | inr e ↦ ground (arith, e, apart o (ground (arith, m)))
      ],
    )

pub from_policy-ok :
    {A : Type 0} {a : A} (r : Result A PolicyError) → from_policy r ≡ ok a → r ≡ ok a
from_policy-ok (ok x) h = ap ok (ok_inj h)
from_policy-ok (err e) h = absurd (ground arith)

single_output-ok :
    {A : Type 0} (lib : Bitcoin A) (os : List TxOut) (o : TxOut)
    → single_output lib os ≡ ok o
    → os ≡ o ∷ []
single_output-ok lib [] o h = absurd (ground arith)
single_output-ok lib (x ∷ []) o h = ap (λ y. y ∷ []) (ok_inj h)
single_output-ok lib (x ∷ y ∷ os) o h = absurd (ground arith)

module _ {A : Type 0} (lib : Bitcoin A) where
  decode-ok :
      (raw : List ℕ) (tx : Transaction) → decode lib raw ≡ ok tx → lib.deserialize raw ≡ some tx
  decode-ok raw tx h = elim (Option-cases (lib.deserialize raw)) [
    | inl e ↦ absurd (ground (arith, e, h))
    | inr (t, e) ↦
        e
        ∙ ap some
            (ok_inj (ap (λ d. elim d [ none ↦ err claim_tx_decode | some x ↦ ok x ]) (sym e) ∙ h))
  ]

  check_amounts-ok :
      (tx : Transaction) (o : TxOut) (prevouts : List VerifiedPrevout) (selected : List Outpoint)
      (script : List ℕ) (fee_rate : ℕ) (summary : ClaimSummary)
      → check_amounts lib tx o prevouts selected script fee_rate ≡ ok summary
      → IsPaid lib tx prevouts script fee_rate summary × (o.value ≡ summary.output_sat)
  unfolding check_amounts
  check_amounts-ok tx o prevouts selected script fee_rate summary h =
      let find = prevout_by_outpoint prevouts in
      let total = u64 (sum_of find (spent tx.input)) in
      let one = then-ok (err_if (ltb total o.value) _) _ h in
      let two =
        then-ok
          (check_fee (total - o.value) fee_rate (length tx.input) (length script) (lib.vsize tx)) _
          one.1 in
      let three = then-ok (err_if (ltb o.value (lib.minimal_non_dust script)) _) _ two.1 in
      let four =
        then-ok (err_if (not (lib.verify_scripts tx find)) script_verification) _ three.1 in
      let (fee, size) =
        check_fee-ok (total - o.value) fee_rate (length tx.input) (length script) (lib.vsize tx)
          two.0 in
      let is = sym (ok_inj four.1) in
      let out = ap (λ s. s.output_sat) is in
      let dust = not_ltb-≤ o.value (lib.minimal_non_dust script) (err_if-ok _ _ three.0) in
      (
        record {
          count = ap (λ s. s.input_count) is;
          total = ap (λ s. s.total_input_sat) is;
          balance =
              ap (λ s. s.total_input_sat) is
              ∙ balances total o.value (err_if-ok (ltb total o.value) _ one.0)
              ∙ ap (λ s. s.output_sat + s.fee_sat) (sym is);
          fee = ap (λ s. s.fee_sat) is ∙ fee;
          size = (ap (λ s. s.vsize) is, size);
          not_dust = subst (λ v. lib.minimal_non_dust script ≤ v) (sym out) dust;
          signed = passed (lib.verify_scripts tx find) script_verification four.0;
        },
        sym out,
      )

  -- The checks that follow the one on the number of outputs.
  abbrev rest_checks :
      Transaction → List VerifiedPrevout → List ℕ → ℕ → TxOut → Result ClaimSummary ClaimError
  rest_checks tx prevouts script fee_rate o = do
    err_if (not (same_bytes o.script_pubkey script)) output_script_mismatch
    err_if (pays_back o.script_pubkey prevouts) destination_is_puzzle_address
    err_if (not (tx.lock_time == 0)) non_zero_locktime
    selected ← from_policy (select_prevouts prevouts (length script) fee_rate)
    check_inputs [] tx.input
    err_if
        (not (
          contains_all (outpoints selected) (spent tx.input)
          && contains_all (spent tx.input) (outpoints selected)))
        input_set_mismatch
    check_amounts lib tx o prevouts (outpoints selected) script fee_rate

  fits_output :
      (tx : Transaction) (raw : List ℕ) (prevouts : List VerifiedPrevout) (script : List ℕ)
      (fee_rate : ℕ) (summary : ClaimSummary) (o : TxOut)
      → lib.weight tx ≤ 4000000
      → lib.serialize tx ≡ raw
      → tx.output ≡ o ∷ []
      → rest_checks tx prevouts script fee_rate o ≡ ok summary
      → IsFitting lib tx raw prevouts script fee_rate summary
  fits_output tx raw prevouts script fee_rate summary o light exact single h =
      let one =
        then-ok (err_if (not (same_bytes o.script_pubkey script)) output_script_mismatch) _ h in
      let two =
        then-ok (err_if (pays_back o.script_pubkey prevouts) destination_is_puzzle_address) _
          one.1 in
      let three = then-ok (err_if (not (tx.lock_time == 0)) non_zero_locktime) _ two.1 in
      let (selected, chosen, h4) =
        bind-split (from_policy (select_prevouts prevouts (length script) fee_rate)) _ three.1 in
      let five = then-ok (check_inputs [] tx.input) _ h4 in
      let covered =
        contains_all (outpoints selected) (spent tx.input)
        && contains_all (spent tx.input) (outpoints selected) in
      let six = then-ok (err_if (not covered) input_set_mismatch) _ five.1 in
      let to_script = same_bytes-≡ o.script_pubkey script (passed _ output_script_mismatch one.0) in
      let (there, back) = both _ _ (passed covered input_set_mismatch six.0) in
      let (paid, out) =
        check_amounts-ok tx o prevouts (outpoints selected) script fee_rate summary six.1 in
      record {
        selected = selected;
        exact = exact;
        weight = light;
        one_output =
            single
            ∙ ap₂ (λ v s. (let x : TxOut = record { value = v; script_pubkey = s } in x) ∷ []) out
                to_script;
        leaves =
            ap (λ s. pays_back s prevouts) (sym to_script)
            ∙ err_if-ok _ destination_is_puzzle_address two.0;
        lock_time = same-≡ tx.lock_time 0 (passed _ non_zero_locktime three.0);
        chosen = from_policy-ok (select_prevouts prevouts (length script) fee_rate) chosen;
        same_inputs = λ x. same_sets (outpoints selected) (spent tx.input) x there back;
        once = (check_inputs-ok [] tx.input five.0).0;
        paid = paid;
      }

  check_transaction-ok :
      (tx : Transaction) (raw : List ℕ) (prevouts : List VerifiedPrevout) (script : List ℕ)
      (fee_rate : ℕ) (summary : ClaimSummary)
      → check_transaction lib tx raw prevouts script fee_rate ≡ ok summary
      → IsFitting lib tx raw prevouts script fee_rate summary
  unfolding check_transaction
  check_transaction-ok tx raw prevouts script fee_rate summary h =
      let one = then-ok (err_if (ltb max_claim_weight_wu (lib.weight tx)) _) _ h in
      let two =
        then-ok (err_if (not (same_bytes (lib.serialize tx) raw)) serialization_mismatch) _ one.1 in
      let (o, single, rest) = bind-split (single_output lib tx.output) _ two.1 in
      fits_output tx raw prevouts script fee_rate summary o
        (not_ltb-≤ max_claim_weight_wu (lib.weight tx) (err_if-ok _ _ one.0))
        (same_bytes-≡ (lib.serialize tx) raw (passed _ serialization_mismatch two.0))
        (single_output-ok lib tx.output o single) rest

-- A claim that `verify_signed_claim` accepts: its bytes are the serialization of a transaction that spends,
-- each once, exactly the prevouts that the policy selects at the rate, which is between 2000 and 20000; it
-- has the destination as its one output, which is none of the prevouts' scripts; its fee is the rate times
-- the size bound, its size is within the bound and the weight limit, its output is not dust, its scripts are
-- valid, and the summary reports these amounts.
pub verify_signed_claim-IsSound :
    {A : Type 0} (lib : Bitcoin A) (raw : List ℕ) (prevouts : List VerifiedPrevout)
    (destination : A) (fee_rate : ℕ) (summary : ClaimSummary)
    → verify_signed_claim lib raw prevouts destination fee_rate ≡ ok summary
    → IsSound lib raw prevouts destination fee_rate summary
unfolding verify_signed_claim
verify_signed_claim-IsSound lib raw prevouts destination fee_rate summary h =
    let in_bounds = leb min_fee_rate_sat_vb fee_rate && leb fee_rate max_fee_rate_sat_vb in
    let one = then-ok (err_if (not in_bounds) fee_rate_out_of_bounds) _ h in
    let two = then-ok (validate_destination_type lib destination) _ one.1 in
    let three = then-ok (err_if (has_duplicate (outpoints prevouts)) duplicate_outpoint) _ two.1 in
    let (tx, read, rest) = bind-split (decode lib raw) _ three.1 in
    let (low, high) = both _ _ (passed in_bounds fee_rate_out_of_bounds one.0) in
    record {
      tx = tx;
      rate = (leb-≤ 2000 fee_rate low, leb-≤ fee_rate 20000 high);
      unique = err_if-ok (has_duplicate (outpoints prevouts)) duplicate_outpoint three.0;
      decoded = decode-ok lib raw tx read;
      fits =
          check_transaction-ok lib tx raw prevouts (lib.script_of destination) fee_rate summary
            rest;
    }
