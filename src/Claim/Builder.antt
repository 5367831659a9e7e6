-- ===== src/Claim/Builder.antt =====
-- src/claim/builder.rs: the claim transaction, its signatures and its verification, with `verify_prevout`
-- of src/claim/prevout.rs. The bitcoin crate is a parameter; a key is its hash and what it signs with.
pub mod Sound
use puzzle71_solver.Prelude.{
  ℕ, zero, suc, ◌+◌, ◌-◌, ◌*◌, ◌^◌, ◌≤◌, ◌≡◌, ◌∙◌, refl, ap, sym, subst, Bool, true, false, ◌&&◌,
  ◌||◌, not, ltb, leb, ◌==◌, if◌then◌else◌, Bool-cases, inl, inr, arith, Option, none, some, List,
  [], ◌∷◌, ◌++◌, length, u64, same_bytes, get_elem?,
}
use puzzle71_solver.Prelude.Results.{
  Result, ok, err, err_if, ◌>>=◌, ◌>>◌, then-ok, err_if-ok, ok_inj, bind-split,
}
use puzzle71_solver.Claim.Policy.{
  VerifiedPrevout, PolicyError, output_below_dust, lex_leb, max_vsize, select_prevouts,
  check_max_weight, total_value,
}
use puzzle71_solver.Claim.Verify.{
  ClaimError, policy_error, from_policy, fee_rate_out_of_bounds, duplicate_outpoint,
  script_mismatch, destination_is_puzzle_address, min_fee_rate_sat_vb, max_fee_rate_sat_vb,
  Outpoint, TxIn, TxOut, Transaction, Bitcoin, ClaimSummary, outpoint, outpoints, spent,
  same_outpoint, contains, has_duplicate, validate_destination_type, verify_signed_claim,
  prev_tx_decode, txid_mismatch, vout_out_of_range, sighash_computation,
}

-- `ScriptBuf::new_p2pkh`: OP_DUP OP_HASH160 <hash> OP_EQUALVERIFY OP_CHECKSIG.
abbrev pub p2pkh_script_for_hash160 : List ℕ → List ℕ
p2pkh_script_for_hash160 hash = 0x76 ∷ 0xa9 ∷ 0x14 ∷ (hash ++ 0x88 ∷ 0xac ∷ [])

-- The txid of a transaction is the parameter `txid_of`.
unfoldable pub verify_prevout :
    {A : Type 0}
    → Bitcoin A
    → (Transaction → List ℕ)
    → Outpoint
    → List ℕ
    → List ℕ
    → Result VerifiedPrevout ClaimError
verify_prevout lib txid_of expected raw script = elim (lib.deserialize raw) [
  | none ↦ err prev_tx_decode
  | some tx ↦
      if not (same_bytes (txid_of tx) expected.0)
      then err txid_mismatch
      else elim (get_elem? tx.output expected.1) [
        | none ↦ err vout_out_of_range
        | some o ↦
            if not (same_bytes o.script_pubkey script)
            then err script_mismatch
            else ok (record {
              value = o.value;
              txid = expected.0;
              vout = expected.1;
              script = o.script_pubkey;
            })
      ]
]

-- The hash of a key, and the script_sig that it makes for an input of a transaction that spends a script.
pub record ClaimKey : Type 0 where
  pub hash160 : List ℕ
  pub script_sig : Transaction → ℕ → List ℕ → Option (List ℕ)

pub record SignedClaim : Type 0 where
  pub raw : List ℕ
  pub summary : ClaimSummary
  pub input_outpoints : List Outpoint

-- The order of the keys `(txid, vout)`; equal keys count as in order.
unfoldable pub by_outpoint : VerifiedPrevout → VerifiedPrevout → Bool
by_outpoint p q = not (lex_leb q.txid p.txid) || (lex_leb p.txid q.txid && leb p.vout q.vout)

-- `sort_by_key`, the stable sort of the standard library, here by insertion.
unfoldable pub insert_by_outpoint : VerifiedPrevout → List VerifiedPrevout → List VerifiedPrevout
insert_by_outpoint p [] = p ∷ []
insert_by_outpoint p (q ∷ qs) =
    let rest = insert_by_outpoint p qs in if by_outpoint p q then p ∷ q ∷ qs else q ∷ rest

unfoldable pub sort_by_outpoint : List VerifiedPrevout → List VerifiedPrevout
sort_by_outpoint [] = []
sort_by_outpoint (p ∷ ps) = insert_by_outpoint p (sort_by_outpoint ps)

abbrev pub all_pay : List ℕ → List VerifiedPrevout → Bool
all_pay script [] = true
all_pay script (p ∷ ps) = same_bytes p.script script && all_pay script ps

abbrev pub unsigned : List VerifiedPrevout → List TxIn
unsigned [] = []
unsigned (p ∷ ps) =
    record { previous_output = outpoint p; script_sig = []; sequence = 2 ^ 32 - 1; witness = [] }
    ∷ unsigned ps

abbrev pub unsigned_claim : List VerifiedPrevout → List ℕ → ℕ → Transaction
unsigned_claim economic script value = record {
  version = 2;
  lock_time = 0;
  input = unsigned economic;
  output = (let o : TxOut = record { value = value; script_pubkey = script } in o) ∷ [];
}

-- `tx.input[index].script_sig = script_sig`.
abbrev pub set_script_sig : ℕ → List ℕ → List TxIn → List TxIn
set_script_sig index sig [] = []
set_script_sig zero sig (i ∷ is) = record i { script_sig = sig } ∷ is
set_script_sig (suc index) sig (i ∷ is) = i ∷ set_script_sig index sig is

-- The loop over the inputs from an index on, with how many are left. Each is signed in the transaction
-- that has the signatures of those before it.
unfoldable pub sign_from : ClaimKey → List ℕ → ℕ → ℕ → Transaction → Result Transaction ClaimError
sign_from key script zero index tx = ok tx
sign_from key script (suc left) index tx = elim (key.script_sig tx index script) [
  | none ↦ err sighash_computation
  | some sig ↦
      sign_from key script left (index + 1)
        (record tx { input = set_script_sig index sig tx.input })
]

unfoldable pub output_value : ℕ → ℕ → ℕ → Result ℕ ClaimError
output_value total fee dust =
    if ltb total fee || ltb (total - fee) dust
    then err (policy_error output_below_dust)
    else ok (total - fee)

module _ {A : Type 0} (lib : Bitcoin A) where
  -- What follows the choice of the inputs, which are in the order of their outpoints.
  unfoldable pub finish_claim :
      ClaimKey → List VerifiedPrevout → List VerifiedPrevout → A → ℕ → Result SignedClaim ClaimError
  finish_claim key prevouts economic destination fee_rate =
      let script = lib.script_of destination in
      let key_script = p2pkh_script_for_hash160 key.hash160 in
      let fee = u64 (max_vsize (length economic) (length script) * fee_rate) in
      do
        err_if (same_bytes script key_script) destination_is_puzzle_address
        value ← output_value (u64 (total_value economic)) fee (lib.minimal_non_dust script)
        tx ← sign_from key key_script (length economic) 0 (unsigned_claim economic script value)
        summary ← verify_signed_claim lib (lib.serialize tx) prevouts destination fee_rate
        ok (record {
          raw = lib.serialize tx;
          summary = summary;
          input_outpoints = outpoints economic;
        })

  unfoldable pub build_signed_claim :
      ClaimKey → List VerifiedPrevout → A → ℕ → Result SignedClaim ClaimError
  build_signed_claim key prevouts destination fee_rate = do
    err_if (not (leb min_fee_rate_sat_vb fee_rate && leb fee_rate max_fee_rate_sat_vb))
        fee_rate_out_of_bounds
    err_if (has_duplicate (outpoints prevouts)) duplicate_outpoint
    err_if (not (all_pay (p2pkh_script_for_hash160 key.hash160) prevouts)) script_mismatch
    validate_destination_type lib destination
    selected ← from_policy (select_prevouts prevouts (length (lib.script_of destination)) fee_rate)
    from_policy (check_max_weight (length selected) (length (lib.script_of destination)))
    finish_claim key prevouts (sort_by_outpoint selected) destination fee_rate
