-- ===== src/Claim/Policy/Subsets.antt =====
-- The prefix that src/claim/policy.rs selects is as good as any subset of the economic prevouts.
use puzzle71_solver.Prelude.{
  ℕ, zero, suc, ◌+◌, ◌-◌, ◌≤◌, ◌≡◌, ◌∙◌, ap, subst, refl, true, false, if◌then◌else◌, Bool-cases,
  inl, inr, arith, List, [], ◌∷◌, length, take,
}
use puzzle71_solver.Prelude.Results.{ok}
use puzzle71_solver.Claim.Policy.{
  VerifiedPrevout, is_economic, in_order, insert_by_key, sort_by_key, economic, candidates, fee_for,
  select_prevouts, total_value,
}
use puzzle71_solver.Claim.Policy.Selection.{IsBestOf, select_prevouts-IsBestOf}

-- The first list leaves out some of the second, and keeps the order of the rest.
pub data Sublist : List VerifiedPrevout → List VerifiedPrevout → Type 0 where
  done : Sublist [] []
  skip : {ys xs : List VerifiedPrevout} (x : VerifiedPrevout) → Sublist ys xs → Sublist ys (x ∷ xs)
  keep :
      {ys xs : List VerifiedPrevout} (x : VerifiedPrevout)
      → Sublist ys xs
      → Sublist (x ∷ ys) (x ∷ xs)

abbrev pub AllEconomic : ℕ → List VerifiedPrevout → Type 0
AllEconomic fee_rate [] = Unit
AllEconomic fee_rate (p ∷ ps) = (is_economic p.value fee_rate ≡ true) × AllEconomic fee_rate ps

economic-Sublist :
    (fee_rate : ℕ) (ys xs : List VerifiedPrevout)
    → Sublist ys xs
    → AllEconomic fee_rate ys
    → Sublist ys (economic fee_rate xs)
unfolding economic
economic-Sublist fee_rate [] [] done all = done
economic-Sublist fee_rate (x ∷ ys) [] s all = elim s [ ]
economic-Sublist fee_rate ys (x ∷ xs) (skip _ s) all =
    elim (Bool-cases (is_economic x.value fee_rate)) [
      | inl h ↦ rw h (skip x (economic-Sublist fee_rate ys xs s all))
      | inr h ↦ rw h (economic-Sublist fee_rate ys xs s all)
    ]
economic-Sublist fee_rate (x ∷ ys) (_ ∷ xs) (keep _ s) all =
    rw (all.0) (keep x (economic-Sublist fee_rate ys xs s all.1))

-- By falling value.
abbrev StartsBelow : ℕ → List VerifiedPrevout → Type 0
StartsBelow top [] = Unit
StartsBelow top (p ∷ ps) = p.value ≤ top

abbrev IsDescending : List VerifiedPrevout → Type 0
IsDescending [] = Unit
IsDescending (p ∷ ps) = StartsBelow p.value ps × IsDescending ps

in_order-value : (p q : VerifiedPrevout) → in_order p q ≡ true → q.value ≤ p.value
unfolding in_order
in_order-value p q h = ground arith

out_of_order-value : (p q : VerifiedPrevout) → in_order p q ≡ false → p.value ≤ q.value
unfolding in_order
out_of_order-value p q h = ground arith

insert_by_key-StartsBelow :
    (top : ℕ) (p : VerifiedPrevout) (qs : List VerifiedPrevout)
    → p.value ≤ top
    → StartsBelow top qs
    → StartsBelow top (insert_by_key p qs)
unfolding insert_by_key
insert_by_key-StartsBelow top p [] h below = h
insert_by_key-StartsBelow top p (q ∷ qs) h below = elim (Bool-cases (in_order p q)) [
  | inl o ↦ rw o h
  | inr o ↦ rw o below
]

insert_by_key-IsDescending :
    (p : VerifiedPrevout) (qs : List VerifiedPrevout)
    → IsDescending qs
    → IsDescending (insert_by_key p qs)
unfolding insert_by_key
insert_by_key-IsDescending p [] d = (tt, tt)
insert_by_key-IsDescending p (q ∷ qs) d = elim (Bool-cases (in_order p q)) [
  | inl o ↦ rw o (in_order-value p q o, d)
  | inr o ↦ rw o (
    insert_by_key-StartsBelow q.value p qs (out_of_order-value p q o) d.0,
    insert_by_key-IsDescending p qs d.1,
  )
]

sort_by_key-IsDescending : (ps : List VerifiedPrevout) → IsDescending (sort_by_key ps)
unfolding sort_by_key
sort_by_key-IsDescending [] = tt
sort_by_key-IsDescending (p ∷ ps) =
    insert_by_key-IsDescending p (sort_by_key ps) (sort_by_key-IsDescending ps)

-- The first `k` of a descending list are worth as much as any `k` that leave out its head.
take-tail :
    (k top : ℕ) (qs : List VerifiedPrevout)
    → IsDescending qs
    → StartsBelow top qs
    → total_value (take (suc k) qs) ≤ top + total_value (take k qs)
take-tail k top [] d below = omega arith
take-tail zero top (q ∷ qs) d below = omega arith
take-tail (suc k) top (q ∷ qs) d below = omega (arith, take-tail k q.value qs d.1 d.0, below)

-- One more prevout never makes the first `k` worth less.
insert_by_key-skip :
    (k : ℕ) (p : VerifiedPrevout) (qs : List VerifiedPrevout)
    → IsDescending qs
    → total_value (take k qs) ≤ total_value (take k (insert_by_key p qs))
unfolding insert_by_key
insert_by_key-skip zero p qs d = omega arith
insert_by_key-skip (suc k) p [] d = omega arith
insert_by_key-skip (suc k) p (q ∷ qs) d = elim (Bool-cases (in_order p q)) [
  | inl o ↦
      rw o
        (omega (arith, in_order-value p q o, take-tail k p.value (q ∷ qs) d (in_order-value p q o)))
  | inr o ↦ rw o (omega (arith, insert_by_key-skip k p qs d.1))
]

insert_by_key-keep :
    (k : ℕ) (p : VerifiedPrevout) (qs : List VerifiedPrevout)
    → p.value + total_value (take k qs) ≤ total_value (take (suc k) (insert_by_key p qs))
unfolding insert_by_key
insert_by_key-keep k p [] = ground arith
insert_by_key-keep k p (q ∷ qs) = elim (Bool-cases (in_order p q)) [
  | inl o ↦ rw o (omega arith)
  | inr o ↦
      elim k
        as (λ k.
          p.value + total_value (take k (q ∷ qs))
          ≤ total_value
              (take (suc k) (if in_order p q then p ∷ q ∷ qs else q ∷ insert_by_key p qs))) [
                | zero ↦ rw o (omega (arith, out_of_order-value p q o))
                | suc k' ↦ rw o (omega (arith, insert_by_key-keep k' p qs))
              ]
]

sort_by_key-top :
    (ys xs : List VerifiedPrevout)
    → Sublist ys xs
    → total_value ys ≤ total_value (take (length ys) (sort_by_key xs))
unfolding sort_by_key
sort_by_key-top [] [] done = omega arith
sort_by_key-top (x ∷ ys) [] s = elim s [ ]
sort_by_key-top ys (x ∷ xs) (skip _ s) = omega (
  arith,
  sort_by_key-top ys xs s,
  insert_by_key-skip (length ys) x (sort_by_key xs) (sort_by_key-IsDescending xs),
)
sort_by_key-top (x ∷ ys) (_ ∷ xs) (keep _ s) =
    omega (arith, sort_by_key-top ys xs s, insert_by_key-keep (length ys) x (sort_by_key xs))

length-insert_by_key :
    (p : VerifiedPrevout) (qs : List VerifiedPrevout)
    → length (insert_by_key p qs) ≡ suc (length qs)
unfolding insert_by_key
length-insert_by_key p [] = refl
length-insert_by_key p (q ∷ qs) = elim (Bool-cases (in_order p q)) [
  | inl o ↦ rw o refl
  | inr o ↦ rw o (omega (arith, length-insert_by_key p qs))
]

length-Sublist :
    (ys xs : List VerifiedPrevout) → Sublist ys xs → length ys ≤ length (sort_by_key xs)
unfolding sort_by_key
length-Sublist [] [] done = omega arith
length-Sublist (x ∷ ys) [] s = elim s [ ]
length-Sublist ys (x ∷ xs) (skip _ s) =
    omega (arith, length-Sublist ys xs s, length-insert_by_key x (sort_by_key xs))
length-Sublist (x ∷ ys) (_ ∷ xs) (keep _ s) =
    omega (arith, length-Sublist ys xs s, length-insert_by_key x (sort_by_key xs))

length-take : (n : ℕ) (xs : List VerifiedPrevout) → n ≤ length xs → length (take n xs) ≡ n
length-take zero xs h = refl
length-take (suc n) [] h = absurd (omega arith)
length-take (suc n) (x ∷ xs) h = omega (arith, length-take n xs (omega arith))

-- Where the selection succeeds, no subset of economic prevouts that pays its own fee has a larger payout
-- than the selected inputs have at the fee for as many inputs.
pub select_prevouts-optimal :
    (prevouts chosen ys : List VerifiedPrevout) (script_len fee_rate : ℕ)
    → select_prevouts prevouts script_len fee_rate ≡ ok chosen
    → Sublist ys prevouts
    → AllEconomic fee_rate ys
    → 1 ≤ length ys
    → fee_for script_len fee_rate (length ys) ≤ total_value ys
    → (fee_for script_len fee_rate (length chosen) ≤ total_value chosen)
      × (total_value ys - fee_for script_len fee_rate (length ys)
          ≤ total_value chosen - fee_for script_len fee_rate (length chosen))
unfolding candidates
select_prevouts-optimal prevouts chosen ys script_len fee_rate e s all some_input pays =
    let (n, low, high, prefix, paid, best) =
      subst (IsBestOf script_len fee_rate (candidates fee_rate prevouts)) e
        (select_prevouts-IsBestOf prevouts script_len fee_rate) in
    let sub = economic-Sublist fee_rate ys prevouts s all in
    let top = sort_by_key-top ys (economic fee_rate prevouts) sub in
    let fits = length-Sublist ys (economic fee_rate prevouts) sub in
    let count : length chosen ≡ n =
      ap length prefix ∙ length-take n (candidates fee_rate prevouts) high in
    rw count (paid, omega (arith, top, best (length ys) some_input fits (omega (arith, top, pays))))
