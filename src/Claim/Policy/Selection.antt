-- ===== src/Claim/Policy/Selection.antt =====
-- The selection loop of src/claim/policy.rs keeps the best prefix.
use puzzle71_solver.Prelude.{
  ℕ, zero, suc, ◌+◌, ◌-◌, ◌^◌, ◌≤◌, ◌<◌, ◌≡◌, ◌⊎◌, inl, inr, refl, ◌∙◌, ap, subst, sym, true, false,
  ◌&&◌, ◌||◌, ltb, leb, ◌==◌, Bool-cases, arith, Option, none, some, List, [], ◌∷◌, length, take,
}
use puzzle71_solver.Prelude.Results.{Result, ok, err, ◌>>=◌}
use puzzle71_solver.Claim.Policy.{
  VerifiedPrevout, PolicyError, no_economic_inputs, fee_mismatch, output_below_dust,
  transaction_too_large, fee_for, is_none_or_below, best_prefix, finish_selection, select_from,
  select_prevouts, candidates, total_value,
}

-- 0 for no payout yet, and one more than the payout otherwise.
abbrev score : Option ℕ → ℕ
score none = 0
score (some payout) = payout + 1

-- The score of a payout `total - fee`, and 0 where the fee is the larger.
abbrev gain : ℕ → ℕ → ℕ
gain total fee = total + 1 - fee

module _ (script_len fee_rate : ℕ) where
  -- The score of the prefix of `j` candidates, `index` candidates worth `total` having gone before.
  abbrev gain_at : ℕ → ℕ → List VerifiedPrevout → ℕ → ℕ
  gain_at index total ps j =
      gain (total + total_value (take j ps)) (fee_for script_len fee_rate (index + j))

  -- What the loop over `ps` returns: no prefix has a larger score than its payout, nor had the best
  -- before; and its count is that of the best before or of a prefix that pays.
  abbrev Ends :
      ℕ → ℕ → Option ℕ → ℕ → List VerifiedPrevout → Result (Option ℕ × ℕ) PolicyError → Type 0
  Ends index total best count ps (ok (o, n)) =
      ((j : ℕ) → 1 ≤ j → j ≤ length ps → gain_at index total ps j ≤ score o)
      × (score best ≤ score o)
      × (((n ≡ count) × (score o ≡ score best))
          ⊎ ((j : ℕ) × (1 ≤ j)
              × (j ≤ length ps)
              × (n ≡ index + j)
              × (score o ≡ gain_at index total ps j)
              × (0 < score o)))
  Ends index total best count ps (err fee_mismatch) =
      (j : ℕ) × (1 ≤ j)
      × (j ≤ length ps)
      × ((2 ^ 64 ≤ total + total_value (take j ps))
          ⊎ (2 ^ 64 ≤ fee_for script_len fee_rate (index + j)))
  Ends index total best count ps (err no_economic_inputs) = ⊥
  Ends index total best count ps (err output_below_dust) = ⊥
  Ends index total best count ps (err transaction_too_large) = ⊥

  -- The score of a longer prefix is that of a prefix of the rest.
  gain_at-suc :
      (index total : ℕ) (p : VerifiedPrevout) (ps : List VerifiedPrevout) (j : ℕ)
      → gain_at index total (p ∷ ps) (suc j) ≡ gain_at (index + 1) (total + p.value) ps j
  gain_at-suc index total p ps j =
      let shift : index + suc j ≡ index + 1 + j = omega arith in rw shift (omega arith)

  overflow-suc :
      (index total : ℕ) (p : VerifiedPrevout) (ps : List VerifiedPrevout) (j : ℕ)
      → (2 ^ 64 ≤ total + p.value + total_value (take j ps))
        ⊎ (2 ^ 64 ≤ fee_for script_len fee_rate (index + 1 + j))
      → (2 ^ 64 ≤ total + total_value (take (suc j) (p ∷ ps)))
        ⊎ (2 ^ 64 ≤ fee_for script_len fee_rate (index + suc j))
  overflow-suc index total p ps j big =
      let shift : index + suc j ≡ index + 1 + j = omega arith in
      rw shift (elim big [ inl h ↦ inl (omega arith) | inr h ↦ inr h ])

  -- One round: `best'` and `count'` are what it leaves, either as they were or those of this prefix.
  Ends-step :
      (index total : ℕ) (best best' : Option ℕ) (count count' : ℕ) (p : VerifiedPrevout)
      (ps : List VerifiedPrevout) (r : Result (Option ℕ × ℕ) PolicyError)
      → gain (total + p.value) (fee_for script_len fee_rate (index + 1)) ≤ score best'
      → score best ≤ score best'
      → ((count' ≡ count) × (score best' ≡ score best))
        ⊎ ((count' ≡ index + 1)
            × (score best' ≡ gain (total + p.value) (fee_for script_len fee_rate (index + 1)))
            × (0 < score best'))
      → Ends (index + 1) (total + p.value) best' count' ps r
      → Ends index total best count (p ∷ ps) r
  Ends-step index total best best' count count' p ps (ok (o, n)) here grows from
        (all, above, source) =
      (
        λ j.
            elim j
              as (λ j. 1 ≤ j → j ≤ suc (length ps) → gain_at index total (p ∷ ps) j ≤ score o) [
                | zero ↦ λ low high. absurd (omega arith)
                | suc j' ↦ λ low high.
                    elim j'
                        as (λ j'.
                          suc j' ≤ suc (length ps)
                          → gain_at index total (p ∷ ps) (suc j') ≤ score o) [
                            | zero ↦ λ _. omega (arith, here, above)
                            | suc i ↦ λ high. omega (
                              arith,
                              gain_at-suc index total p ps (suc i),
                              all (suc i) (omega arith) (omega arith),
                            )
                          ]
                      high
              ],
        omega arith,
        elim source [
          | inl (same, kept) ↦ elim from [
            | inl (same', kept') ↦ inl (omega arith, omega arith)
            | inr (taken, scored, paid) ↦
                inr (1, omega arith, omega arith, omega arith, omega arith, omega arith)
          ]
          | inr (j, low, high, at_j, scored, paid) ↦ inr (
            suc j,
            omega arith,
            omega arith,
            omega arith,
            omega (arith, gain_at-suc index total p ps j, scored),
            paid,
          )
        ],
      )
  Ends-step index total best best' count count' p ps (err fee_mismatch) here grows from
        (j, low, high, big) =
      (suc j, omega arith, omega arith, overflow-suc index total p ps j big)
  Ends-step index total best best' count count' p ps (err no_economic_inputs) here grows from r =
      elim r [ ]
  Ends-step index total best best' count count' p ps (err output_below_dust) here grows from r =
      elim r [ ]
  Ends-step index total best best' count count' p ps (err transaction_too_large) here grows from r =
      elim r [ ]

  -- The test of one round picks the larger score.
  better_iff :
      (best : Option ℕ) (next fee : ℕ)
      → (leb fee next && is_none_or_below best (next - fee)) ≡ ltb (score best) (gain next fee)
  better_iff none next fee = ground arith
  better_iff (some b) next fee = ground arith

  best_prefix-Ends :
      (index total : ℕ) (best : Option ℕ) (count : ℕ) (ps : List VerifiedPrevout)
      → Ends index total best count ps (best_prefix script_len fee_rate index total best count ps)
  unfolding best_prefix
  best_prefix-Ends index total best count [] =
      (λ j low high. absurd (omega arith), omega arith, inl (refl, refl))
  best_prefix-Ends index total best count (p ∷ ps) =
      let next = total + p.value in
      let fee = fee_for script_len fee_rate (index + 1) in
      elim (Bool-cases (leb (2 ^ 64) next || leb (2 ^ 64) fee)) [
        | inl over ↦ rw over (1, omega arith, omega arith, ground arith)
        | inr fits ↦ elim (Bool-cases (leb fee next && is_none_or_below best (next - fee))) [
          | inl better ↦
              let larger : ltb (score best) (gain next fee) ≡ true =
                sym (better_iff best next fee) ∙ better in
              rw (fits, better)
                (Ends-step index total best (some (next - fee)) count (index + 1) p ps
                  (best_prefix script_len fee_rate (index + 1) next (some (next - fee)) (index + 1)
                    ps)
                  (ground arith) (ground arith) (inr (refl, ground arith, omega arith))
                  (best_prefix-Ends (index + 1) next (some (next - fee)) (index + 1) ps))
          | inr worse ↦
              let smaller : ltb (score best) (gain next fee) ≡ false =
                sym (better_iff best next fee) ∙ worse in
              rw (fits, worse)
                (Ends-step index total best best count count p ps
                  (best_prefix script_len fee_rate (index + 1) next best count ps) (ground arith)
                  (omega arith) (inl (refl, refl))
                  (best_prefix-Ends (index + 1) next best count ps))
        ]
      ]

  -- What the selection from the candidates `cs` may return. The chosen inputs are a prefix that pays its
  -- fee, and no other prefix that pays its own has a larger payout. Each error has its reason.
  abbrev pub IsBestOf : List VerifiedPrevout → Result (List VerifiedPrevout) PolicyError → Type 0
  IsBestOf cs (ok chosen) =
      (n : ℕ) × (1 ≤ n)
      × (n ≤ length cs)
      × (chosen ≡ take n cs)
      × (fee_for script_len fee_rate n ≤ total_value chosen)
      × ((k : ℕ)
          → 1 ≤ k
          → k ≤ length cs
          → fee_for script_len fee_rate k ≤ total_value (take k cs)
          → total_value (take k cs) - fee_for script_len fee_rate k
            ≤ total_value chosen - fee_for script_len fee_rate n)
  IsBestOf cs (err no_economic_inputs) = cs ≡ []
  IsBestOf cs (err output_below_dust) =
      (k : ℕ) → 1 ≤ k → k ≤ length cs → total_value (take k cs) < fee_for script_len fee_rate k
  IsBestOf cs (err fee_mismatch) =
      (k : ℕ) × (1 ≤ k)
      × (k ≤ length cs)
      × ((2 ^ 64 ≤ total_value (take k cs)) ⊎ (2 ^ 64 ≤ fee_for script_len fee_rate k))
  IsBestOf cs (err transaction_too_large) = ⊥

  gain_at-start :
      (cs : List VerifiedPrevout) (k : ℕ)
      → gain_at 0 0 cs k ≡ gain (total_value (take k cs)) (fee_for script_len fee_rate k)
  gain_at-start cs k = let from_zero : 0 + k ≡ k = omega arith in rw from_zero (omega arith)

  overflow-start :
      (cs : List VerifiedPrevout) (k : ℕ)
      → (2 ^ 64 ≤ 0 + total_value (take k cs)) ⊎ (2 ^ 64 ≤ fee_for script_len fee_rate (0 + k))
      → (2 ^ 64 ≤ total_value (take k cs)) ⊎ (2 ^ 64 ≤ fee_for script_len fee_rate k)
  overflow-start cs k big =
      let from_zero : 0 + k ≡ k = omega arith in
      elim big [
        | inl h ↦ inl (omega arith)
        | inr h ↦ inr (subst (λ m. 2 ^ 64 ≤ fee_for script_len fee_rate m) from_zero h)
      ]

  finish-IsBestOf :
      (cs : List VerifiedPrevout) (r : Result (Option ℕ × ℕ) PolicyError)
      → Ends 0 0 none 0 cs r
      → IsBestOf cs (r >>= finish_selection cs)
  unfolding finish_selection
  finish-IsBestOf cs (ok (o, zero)) (all, above, inl (same, kept)) =
      λ k low high. omega (arith, all k low high, gain_at-start cs k)
  finish-IsBestOf cs (ok (o, zero)) (all, above, inr (j, low, high, at_j, scored, paid)) =
      absurd (omega arith)
  finish-IsBestOf cs (ok (o, suc n)) (all, above, inl (same, kept)) = absurd (omega arith)
  finish-IsBestOf cs (ok (o, suc n)) (all, above, inr (j, low, high, at_j, scored, paid)) =
      let same : j ≡ suc n = omega arith in
      let best : score o
          ≡ gain (total_value (take (suc n) cs)) (fee_for script_len fee_rate (suc n)) =
        scored
        ∙ gain_at-start cs j
        ∙ ap (λ m. gain (total_value (take m cs)) (fee_for script_len fee_rate m)) same in
      let nonzero : (suc n == 0) ≡ false = ground arith in
      rw nonzero (
        suc n,
        omega arith,
        omega arith,
        refl,
        omega (arith, best),
        λ k low high pays. omega (arith, best, all k low high, gain_at-start cs k),
      )
  finish-IsBestOf cs (err fee_mismatch) (j, low, high, big) =
      (j, low, high, overflow-start cs j big)
  finish-IsBestOf cs (err no_economic_inputs) r = elim r [ ]
  finish-IsBestOf cs (err output_below_dust) r = elim r [ ]
  finish-IsBestOf cs (err transaction_too_large) r = elim r [ ]

  select_from-IsBestOf :
      (cs : List VerifiedPrevout) → IsBestOf cs (select_from script_len fee_rate cs)
  unfolding select_from
  select_from-IsBestOf [] = refl
  select_from-IsBestOf (c ∷ cs) =
      finish-IsBestOf (c ∷ cs) (best_prefix script_len fee_rate 0 0 none 0 (c ∷ cs))
        (best_prefix-Ends 0 0 none 0 (c ∷ cs))

-- The selection returns the prefix of the candidates, the economic prevouts by falling value, whose payout
-- at its exact fee is the largest of all prefixes that pay their fee. It reports no economic inputs only
-- where there is no candidate, an output below dust only where no prefix pays its fee, and a mismatch only
-- where a total or a fee does not fit a u64.
pub select_prevouts-IsBestOf :
    (prevouts : List VerifiedPrevout) (script_len fee_rate : ℕ)
    → IsBestOf script_len fee_rate
        (candidates fee_rate prevouts)
        (select_prevouts prevouts script_len fee_rate)
unfolding select_prevouts
select_prevouts-IsBestOf prevouts script_len fee_rate =
    select_from-IsBestOf script_len fee_rate (candidates fee_rate prevouts)
