-- ===== src/Claim/Verify/Amounts.antt =====
-- The amounts of a claim that src/claim/verify.rs accepts are those of the prevouts that the policy selects.
use puzzle71_solver.Prelude.{
  ℕ, zero, suc, ◌+◌, ◌*◌, ◌≡◌, ◌∙◌, refl, ap, sym, subst, Bool, true, false, ◌||◌, ◌==◌,
  if◌then◌else◌, Bool-cases, inl, inr, arith, Option, none, some, List, [], ◌∷◌, length, take, u64,
}
use puzzle71_solver.Prelude.Results.{ok, err, bind-split, ok_inj}
use puzzle71_solver.Claim.Policy.{
  VerifiedPrevout, max_vsize, is_economic, economic, insert_by_key, sort_by_key, in_order,
  candidates, best_prefix, finish_selection, select_from, select_prevouts, total_value,
  output_below_dust,
}
use puzzle71_solver.Claim.Verify.{
  Outpoint, TxIn, TxOut, Bitcoin, ClaimSummary, outpoint, outpoints, spent, same_outpoint, contains,
  has_duplicate, prevout_by_outpoint, value_or_zero, sum_of, verify_signed_claim,
}
use puzzle71_solver.Claim.Verify.Sound.{same_outpoint_refl, verify_signed_claim-IsSound}
use puzzle71_solver.Claim.Verify.Sets.{sum_by, sum_by-same, same_outpoint_comm}

abbrev output_of : VerifiedPrevout → TxOut
output_of p = record { value = p.value; script_pubkey = p.script }

-- Each of these prevouts is found among all of them.
abbrev AllFound : List VerifiedPrevout → List VerifiedPrevout → Type 0
AllFound all [] = Unit
AllFound all (p ∷ ps) =
    (prevout_by_outpoint all (outpoint p) ≡ some (output_of p)) × AllFound all ps

find-none :
    (ps : List VerifiedPrevout) (o : Outpoint)
    → contains (outpoints ps) o ≡ false
    → prevout_by_outpoint ps o ≡ none
find-none [] o h = refl
find-none (p ∷ ps) o h =
    let other : same_outpoint (outpoint p) o ≡ false = ground (arith, h) in
    rw (find-none ps o (ground (arith, h)), other) refl

AllFound-later :
    (p : VerifiedPrevout) (all ps : List VerifiedPrevout) → AllFound all ps → AllFound (p ∷ all) ps
AllFound-later p all [] h = tt
AllFound-later p all (q ∷ qs) h = (rw (h.0) refl, AllFound-later p all qs h.1)

AllFound-all : (ps : List VerifiedPrevout) → has_duplicate (outpoints ps) ≡ false → AllFound ps ps
AllFound-all [] h = tt
AllFound-all (p ∷ ps) h = (
  rw (find-none ps (outpoint p) (ground (arith, h)), same_outpoint_refl (outpoint p)) refl,
  AllFound-later p ps ps (AllFound-all ps (ground (arith, h))),
)

-- These prevouts are among all of them, and none is there twice.
abbrev IsPart : List VerifiedPrevout → List VerifiedPrevout → Type 0
IsPart all ps = (has_duplicate (outpoints ps) ≡ false) × AllFound all ps

economic-contains :
    (rate : ℕ) (ps : List VerifiedPrevout) (o : Outpoint)
    → contains (outpoints ps) o ≡ false
    → contains (outpoints (economic rate ps)) o ≡ false
unfolding economic
economic-contains rate [] o h = refl
economic-contains rate (p ∷ ps) o h = elim (Bool-cases (is_economic p.value rate)) [
  | inl e ↦ rw e (ground (arith, h, economic-contains rate ps o (ground (arith, h))))
  | inr e ↦ rw e (economic-contains rate ps o (ground (arith, h)))
]

economic-IsPart :
    (all : List VerifiedPrevout) (rate : ℕ) (ps : List VerifiedPrevout)
    → IsPart all ps
    → IsPart all (economic rate ps)
unfolding economic
economic-IsPart all rate [] h = h
economic-IsPart all rate (p ∷ ps) h =
    let (once, found) = economic-IsPart all rate ps (ground (arith, h.0), h.1.1) in
    elim (Bool-cases (is_economic p.value rate)) [
      | inl e ↦ rw e (
        ground (arith, once, h.0, economic-contains rate ps (outpoint p) (ground (arith, h.0))),
        (h.1.0, found),
      )
      | inr e ↦ rw e (once, found)
    ]

insert-contains :
    (p : VerifiedPrevout) (qs : List VerifiedPrevout) (o : Outpoint)
    → contains (outpoints (insert_by_key p qs)) o
      ≡ (same_outpoint (outpoint p) o || contains (outpoints qs) o)
unfolding insert_by_key
insert-contains p [] o = refl
insert-contains p (q ∷ qs) o = elim (Bool-cases (in_order p q)) [
  | inl e ↦ rw e refl
  | inr e ↦ rw e (ground (arith, insert-contains p qs o))
]

insert-IsPart :
    (all : List VerifiedPrevout) (p : VerifiedPrevout) (qs : List VerifiedPrevout)
    → prevout_by_outpoint all (outpoint p) ≡ some (output_of p)
    → contains (outpoints qs) (outpoint p) ≡ false
    → IsPart all qs
    → IsPart all (insert_by_key p qs)
unfolding insert_by_key
insert-IsPart all p [] here fresh h = (refl, (here, tt))
insert-IsPart all p (q ∷ qs) here fresh h =
    let (once, found) =
      insert-IsPart all p qs here (ground (arith, fresh)) (ground (arith, h.0), h.1.1) in
    let apart = same_outpoint_comm (outpoint q) (outpoint p) (ground (arith, fresh)) in
    elim (Bool-cases (in_order p q)) [
      | inl e ↦ rw e (ground (arith, fresh, h.0), (here, h.1))
      | inr e ↦
          rw e (ground (arith, once, apart, h.0, insert-contains p qs (outpoint q)), (h.1.0, found))
    ]

sort-contains :
    (ps : List VerifiedPrevout) (o : Outpoint)
    → contains (outpoints (sort_by_key ps)) o ≡ contains (outpoints ps) o
unfolding sort_by_key
sort-contains [] o = refl
sort-contains (p ∷ ps) o =
    insert-contains p (sort_by_key ps) o
    ∙ ap (λ b. same_outpoint (outpoint p) o || b) (sort-contains ps o)

sort-IsPart : (all ps : List VerifiedPrevout) → IsPart all ps → IsPart all (sort_by_key ps)
unfolding sort_by_key
sort-IsPart all [] h = h
sort-IsPart all (p ∷ ps) h =
    insert-IsPart all p (sort_by_key ps) h.1.0 (sort-contains ps (outpoint p) ∙ ground (arith, h.0))
      (sort-IsPart all ps (ground (arith, h.0), h.1.1))

take-contains :
    (n : ℕ) (ps : List VerifiedPrevout) (o : Outpoint)
    → contains (outpoints ps) o ≡ false
    → contains (outpoints (take n ps)) o ≡ false
take-contains zero ps o h = refl
take-contains (suc n) [] o h = refl
take-contains (suc n) (p ∷ ps) o h = ground (arith, h, take-contains n ps o (ground (arith, h)))

take-IsPart :
    (all : List VerifiedPrevout) (n : ℕ) (ps : List VerifiedPrevout)
    → IsPart all ps
    → IsPart all (take n ps)
take-IsPart all zero ps h = (refl, tt)
take-IsPart all (suc n) [] h = (refl, tt)
take-IsPart all (suc n) (p ∷ ps) h =
    let (once, found) = take-IsPart all n ps (ground (arith, h.0), h.1.1) in
    (
      ground (arith, once, h.0, take-contains n ps (outpoint p) (ground (arith, h.0))),
      (h.1.0, found),
    )

picked :
    (b : Bool) (taken selected : List VerifiedPrevout)
    → (if b then err output_below_dust else ok taken) ≡ ok selected
    → taken ≡ selected
picked true taken selected h = absurd (ground (arith, h))
picked false taken selected h = ok_inj h

finish-IsPart :
    (all cs selected : List VerifiedPrevout) (best : Option ℕ × ℕ)
    → IsPart all cs
    → finish_selection cs best ≡ ok selected
    → IsPart all selected
unfolding finish_selection
finish-IsPart all cs selected (payout, count) h done =
    subst (IsPart all) (picked (count == 0) (take count cs) selected done)
      (take-IsPart all count cs h)

select_from-IsPart :
    (all cs selected : List VerifiedPrevout) (script_len rate : ℕ)
    → IsPart all cs
    → select_from script_len rate cs ≡ ok selected
    → IsPart all selected
unfolding select_from
select_from-IsPart all [] selected script_len rate h done = absurd (ground (arith, done))
select_from-IsPart all (c ∷ cs) selected script_len rate h done =
    let (best, found, last) =
      bind-split (best_prefix script_len rate 0 0 none 0 (c ∷ cs)) (finish_selection (c ∷ cs))
        done in
    finish-IsPart all (c ∷ cs) selected best h last

-- The selected prevouts are among the given ones, once each.
select_prevouts-IsPart :
    (ps selected : List VerifiedPrevout) (script_len rate : ℕ)
    → has_duplicate (outpoints ps) ≡ false
    → select_prevouts ps script_len rate ≡ ok selected
    → IsPart ps selected
unfolding select_prevouts candidates
select_prevouts-IsPart ps selected script_len rate once done =
    select_from-IsPart ps (candidates rate ps) selected script_len rate
      (sort-IsPart ps (economic rate ps) (economic-IsPart ps rate ps (once, AllFound-all ps once)))
      done

sum_of-sum_by :
    (find : Outpoint → Option TxOut) (os : List Outpoint)
    → sum_of find os ≡ sum_by (λ o. value_or_zero (find o)) os
sum_of-sum_by find [] = refl
sum_of-sum_by find (o ∷ os) = ap (λ n. value_or_zero (find o) + n) (sum_of-sum_by find os)

found-total_value :
    (all ps : List VerifiedPrevout)
    → AllFound all ps
    → sum_by (λ o. value_or_zero (prevout_by_outpoint all o)) (outpoints ps) ≡ total_value ps
found-total_value all [] h = refl
found-total_value all (p ∷ ps) h =
    let rest = found-total_value all ps h.1 in
    let here = ap value_or_zero h.0 in omega (arith, rest, here)

spent-length : (is : List TxIn) → sum_by (λ o. 1) (spent is) ≡ length is
spent-length [] = refl
spent-length (i ∷ is) = omega (arith, spent-length is)

outpoints-length : (ps : List VerifiedPrevout) → sum_by (λ o. 1) (outpoints ps) ≡ length ps
outpoints-length [] = refl
outpoints-length (p ∷ ps) = omega (arith, outpoints-length ps)

-- The amounts of an accepted claim: it has as many inputs as the policy selects prevouts, their sum is the
-- output and the fee, and the fee is the rate times the size bound for that many inputs.
pub record IsSettled (prevouts : List VerifiedPrevout) (script_len fee_rate : ℕ)
    (summary : ClaimSummary) : Type 0 where
  pub selected : List VerifiedPrevout
  pub chosen : select_prevouts prevouts script_len fee_rate ≡ ok selected
  pub count : summary.input_count ≡ length selected
  pub total : summary.total_input_sat ≡ u64 (total_value selected)
  pub balance :
      u64 (total_value selected)
      ≡ summary.output_sat + max_vsize (length selected) script_len * fee_rate

-- What a claim that `verify_signed_claim` accepts pays: the sum of the values of exactly the prevouts that
-- the policy selects, modulo 2^64, is the reported output and the rate times the size bound for that many
-- inputs.
pub verify_signed_claim-IsSettled :
    {A : Type 0} (lib : Bitcoin A) (raw : List ℕ) (prevouts : List VerifiedPrevout)
    (destination : A) (fee_rate : ℕ) (summary : ClaimSummary)
    → verify_signed_claim lib raw prevouts destination fee_rate ≡ ok summary
    → IsSettled prevouts (length (lib.script_of destination)) fee_rate summary
verify_signed_claim-IsSettled lib raw prevouts destination fee_rate summary h =
    let sound = verify_signed_claim-IsSound lib raw prevouts destination fee_rate summary h in
    let fits = sound.fits in
    let paid = fits.paid in
    let script_len = length (lib.script_of destination) in
    let find = prevout_by_outpoint prevouts in
    let (once, found) =
      select_prevouts-IsPart prevouts fits.selected script_len fee_rate sound.unique fits.chosen in
    let as_many =
      sym (spent-length sound.tx.input)
      ∙ sum_by-same (λ o. 1) (spent sound.tx.input) (outpoints fits.selected) fits.once once
          fits.same_inputs
      ∙ outpoints-length fits.selected in
    let as_much =
      sum_of-sum_by find (spent sound.tx.input)
      ∙ sum_by-same (λ o. value_or_zero (find o)) (spent sound.tx.input) (outpoints fits.selected)
          fits.once once fits.same_inputs
      ∙ found-total_value prevouts fits.selected found in
    let total = paid.total ∙ ap u64 as_much in
    record {
      selected = fits.selected;
      chosen = fits.chosen;
      count = paid.count ∙ as_many;
      total = total;
      balance =
          sym total
          ∙ paid.balance
          ∙ ap (λ f. summary.output_sat + f)
              (paid.fee ∙ ap (λ n. max_vsize n script_len * fee_rate) as_many);
    }
