-- ===== src/Claim/Builder/Sound.antt =====
-- What a claim that `build_signed_claim` of src/claim/builder.rs returns has.
use puzzle71_solver.Prelude.{
  ℕ, ◌≡◌, ◌∙◌, refl, ap, sym, true, false, ◌&&◌, ◌||◌, not, leb, Bool-cases, inl, inr, arith, List,
  [], ◌∷◌, length, same_bytes, u64, ◌*◌,
}
use puzzle71_solver.Prelude.Results.{ok, err_if, then-ok, err_if-ok, ok_inj, bind-split}
use puzzle71_solver.Claim.Policy.{
  VerifiedPrevout, select_prevouts, check_max_weight, max_vsize, total_value,
}
use puzzle71_solver.Claim.Verify.{
  from_policy, fee_rate_out_of_bounds, duplicate_outpoint, script_mismatch,
  destination_is_puzzle_address, min_fee_rate_sat_vb, max_fee_rate_sat_vb, Outpoint, Bitcoin,
  outpoint, outpoints, spent, same_outpoint, contains, has_duplicate, validate_destination_type,
  verify_signed_claim,
}
use puzzle71_solver.Claim.Verify.Sound.{
  IsSound, verify_signed_claim-IsSound, from_policy-ok, passed,
}
use puzzle71_solver.Claim.Verify.Amounts.{IsSettled, verify_signed_claim-IsSettled}
use puzzle71_solver.Claim.Builder.{
  ClaimKey, SignedClaim, p2pkh_script_for_hash160, by_outpoint, insert_by_outpoint,
  sort_by_outpoint, all_pay, finish_claim, build_signed_claim, output_value, sign_from,
  unsigned_claim,
}

insert_by_outpoint-contains :
    (p : VerifiedPrevout) (qs : List VerifiedPrevout) (o : Outpoint)
    → contains (outpoints (insert_by_outpoint p qs)) o
      ≡ (same_outpoint (outpoint p) o || contains (outpoints qs) o)
unfolding insert_by_outpoint
insert_by_outpoint-contains p [] o = refl
insert_by_outpoint-contains p (q ∷ qs) o = elim (Bool-cases (by_outpoint p q)) [
  | inl e ↦ rw e refl
  | inr e ↦ rw e (ground (arith, insert_by_outpoint-contains p qs o))
]

sort_by_outpoint-contains :
    (ps : List VerifiedPrevout) (o : Outpoint)
    → contains (outpoints (sort_by_outpoint ps)) o ≡ contains (outpoints ps) o
unfolding sort_by_outpoint
sort_by_outpoint-contains [] o = refl
sort_by_outpoint-contains (p ∷ ps) o =
    insert_by_outpoint-contains p (sort_by_outpoint ps) o
    ∙ ap (λ b. same_outpoint (outpoint p) o || b) (sort_by_outpoint-contains ps o)

-- A built claim: all prevouts pay to the key, the destination does not, the bytes are sound for the
-- verifier with the reported summary, the amounts are those of the selected prevouts, and the reported
-- outpoints are the ones that the transaction spends.
pub record IsBuilt {A : Type 0} (lib : Bitcoin A) (key : ClaimKey) (prevouts : List VerifiedPrevout)
    (destination : A) (fee_rate : ℕ) (claim : SignedClaim) : Type 0 where
  pub own : all_pay (p2pkh_script_for_hash160 key.hash160) prevouts ≡ true
  pub elsewhere :
      same_bytes (lib.script_of destination) (p2pkh_script_for_hash160 key.hash160) ≡ false
  pub verified : verify_signed_claim lib claim.raw prevouts destination fee_rate ≡ ok claim.summary
  pub sound : IsSound lib claim.raw prevouts destination fee_rate claim.summary
  pub settled : IsSettled prevouts (length (lib.script_of destination)) fee_rate claim.summary
  pub spends : (o : Outpoint) → contains claim.input_outpoints o ≡ contains (spent sound.tx.input) o

module _ {A : Type 0} (lib : Bitcoin A) (key : ClaimKey) (prevouts : List VerifiedPrevout)
    (destination : A) (fee_rate : ℕ) where
  -- What the steps behind the choice of the inputs leave.
  finish_claim-ok :
      (economic : List VerifiedPrevout) (claim : SignedClaim)
      → finish_claim lib key prevouts economic destination fee_rate ≡ ok claim
      → (same_bytes (lib.script_of destination) (p2pkh_script_for_hash160 key.hash160) ≡ false)
        × (verify_signed_claim lib claim.raw prevouts destination fee_rate ≡ ok claim.summary)
        × (outpoints economic ≡ claim.input_outpoints)
  unfolding finish_claim
  finish_claim-ok economic claim h =
      let own = same_bytes (lib.script_of destination) (p2pkh_script_for_hash160 key.hash160) in
      let one = then-ok (err_if own destination_is_puzzle_address) _ h in
      let fee = u64 (max_vsize (length economic) (length (lib.script_of destination)) * fee_rate) in
      let (value, paid, h2) =
        bind-split
          (output_value (u64 (total_value economic)) fee
            (lib.minimal_non_dust (lib.script_of destination)))
          _ one.1 in
      let (tx, signed, h3) =
        bind-split
          (sign_from key (p2pkh_script_for_hash160 key.hash160) (length economic) 0
            (unsigned_claim economic (lib.script_of destination) value))
          _ h2 in
      let (summary, verified, h4) =
        bind-split (verify_signed_claim lib (lib.serialize tx) prevouts destination fee_rate) _
          h3 in
      let is = ok_inj h4 in
      (
        err_if-ok own destination_is_puzzle_address one.0,
        ap (λ c. verify_signed_claim lib c.raw prevouts destination fee_rate) (sym is)
            ∙ verified
            ∙ ap (λ c. ok c.summary) is,
        ap (λ c. c.input_outpoints) is,
      )

  built :
      (selected : List VerifiedPrevout) (claim : SignedClaim)
      → all_pay (p2pkh_script_for_hash160 key.hash160) prevouts ≡ true
      → select_prevouts prevouts (length (lib.script_of destination)) fee_rate ≡ ok selected
      → finish_claim lib key prevouts (sort_by_outpoint selected) destination fee_rate ≡ ok claim
      → IsBuilt lib key prevouts destination fee_rate claim
  built selected claim own chosen h =
      let (elsewhere, verified, inputs) = finish_claim-ok (sort_by_outpoint selected) claim h in
      let sound =
        verify_signed_claim-IsSound lib claim.raw prevouts destination fee_rate claim.summary
          verified in
      record {
        own = own;
        elsewhere = elsewhere;
        verified = verified;
        sound = sound;
        settled =
            verify_signed_claim-IsSettled lib claim.raw prevouts destination fee_rate claim.summary
              verified;
        spends = λ o.
            ap (λ os. contains os o) (sym inputs)
            ∙ sort_by_outpoint-contains selected o
            ∙ ap (λ ps. contains (outpoints ps) o) (ok_inj (sym chosen ∙ sound.fits.chosen))
            ∙ sym (sound.fits.same_inputs o);
      }

-- A claim that `build_signed_claim` returns is one that `verify_signed_claim` accepts with the reported
-- summary: sound, with the amounts of the prevouts that the policy selects; all prevouts pay to the key and
-- the destination does not; the reported outpoints are those that the transaction spends.
pub build_signed_claim-IsBuilt :
    {A : Type 0} (lib : Bitcoin A) (key : ClaimKey) (prevouts : List VerifiedPrevout)
    (destination : A) (fee_rate : ℕ) (claim : SignedClaim)
    → build_signed_claim lib key prevouts destination fee_rate ≡ ok claim
    → IsBuilt lib key prevouts destination fee_rate claim
unfolding build_signed_claim
build_signed_claim-IsBuilt lib key prevouts destination fee_rate claim h =
    let script_len = length (lib.script_of destination) in
    let one =
      then-ok
        (err_if (not (leb min_fee_rate_sat_vb fee_rate && leb fee_rate max_fee_rate_sat_vb))
          fee_rate_out_of_bounds)
        _ h in
    let two = then-ok (err_if (has_duplicate (outpoints prevouts)) duplicate_outpoint) _ one.1 in
    let three =
      then-ok
        (err_if (not (all_pay (p2pkh_script_for_hash160 key.hash160) prevouts)) script_mismatch) _
        two.1 in
    let four = then-ok (validate_destination_type lib destination) _ three.1 in
    let (selected, chosen, h5) =
      bind-split (from_policy (select_prevouts prevouts script_len fee_rate)) _ four.1 in
    let six = then-ok (from_policy (check_max_weight (length selected) script_len)) _ h5 in
    built lib key prevouts destination fee_rate selected claim (passed _ script_mismatch three.0)
      (from_policy-ok (select_prevouts prevouts script_len fee_rate) chosen) six.1
