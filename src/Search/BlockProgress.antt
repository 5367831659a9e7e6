-- ===== src/Search/BlockProgress.antt =====
-- src/search/block_progress.rs: how many keys of the selected block have completed.
use puzzle71_solver.Prelude.{
  ℕ, ◌+◌, ◌-◌, ◌^◌, ◌≤◌, ◌<◌, ◌≡◌, ◌↔◌, ◌≢◌, List, [], ◌∷◌, Bool, arith, leb, ltb, ◌==◌,
  if◌then◌else◌,
}
use puzzle71_solver.Prelude.Results.{Result, ok, err}

pub data ProgressError : Type 0 where
  block_size_zero progress_overflow too_many_keys : ProgressError

pub record BlockProgress : Type 0 where
  pub expected_keys : ℕ
  pub completed_keys : ℕ

unfoldable pub new : ℕ → Result BlockProgress ProgressError
new expected =
    if expected == 0
    then err block_size_zero
    else ok (record { expected_keys = expected; completed_keys = 0 })

-- `record_completed` on `&mut self`: the progress afterwards, and the result of the call.
unfoldable pub record_completed :
    BlockProgress → ℕ → BlockProgress × Result (Unit {0}) ProgressError
record_completed p keys =
    let next = p.completed_keys + keys in
    if leb (2 ^ 128) next
    then (p, err progress_overflow)
    else if ltb p.expected_keys next
    then (p, err too_many_keys)
    else (record p { completed_keys = next }, ok tt)

unfoldable pub remaining_keys : BlockProgress → ℕ
remaining_keys p = p.expected_keys - p.completed_keys

unfoldable pub is_complete : BlockProgress → Bool
is_complete p = p.completed_keys == p.expected_keys

-- No more keys are completed than expected, and the expected number is a u128 other than 0.
pub record IsValid (p : BlockProgress) : Type 0 where
  pub fits : p.expected_keys < 2 ^ 128
  pub positive : 0 < p.expected_keys
  pub within : p.completed_keys ≤ p.expected_keys

-- The dispatches of a block, one after the other; the first refused one ends them.
pub record_all : BlockProgress → List ℕ → BlockProgress × Result (Unit {0}) ProgressError
record_all p [] = (p, ok tt)
record_all p (k ∷ ks) =
    let (p', r) = record_completed p k in elim r [ ok _ ↦ record_all p' ks | err e ↦ (p', err e) ]

abbrev pub sum : List ℕ → ℕ
sum [] = 0
sum (k ∷ ks) = k + sum ks

-- `record_completed` keeps the progress valid. It accepts the keys exactly when they fit what remains;
-- then that many fewer remain. Otherwise it reports too many keys, or the overflow of the sum where
-- that does not fit a u128, and changes nothing.
pub record_completed-IsValid :
    (p : BlockProgress) (keys : ℕ)
    → IsValid p
    → let (p', r) = record_completed p keys in
      IsValid p'
      × (keys ≤ remaining_keys p → (r ≡ ok tt) × (remaining_keys p' + keys ≡ remaining_keys p))
      × (remaining_keys p < keys
          → (p' ≡ p)
            × (r
                ≡ err (
                    if leb (2 ^ 128) (p.completed_keys + keys)
                    then progress_overflow
                    else too_many_keys)))
unfolding record_completed remaining_keys
record_completed-IsValid p keys v = ground arith

record_all_fits :
    (p : BlockProgress) (ks : List ℕ)
    → IsValid p
    → p.completed_keys + sum ks ≤ p.expected_keys
    → record_all p ks ≡ (record p { completed_keys = p.completed_keys + sum ks }, ok tt)
unfolding record_all record_completed
record_all_fits p [] v h = ground arith
record_all_fits p (k ∷ ks) v h = ground (
  arith,
  record_all_fits (record p { completed_keys = p.completed_keys + k }) ks (omega arith)
      (omega arith),
)

record_all_exceeds :
    (p : BlockProgress) (ks : List ℕ)
    → IsValid p
    → p.expected_keys < p.completed_keys + sum ks
    → (record_all p ks).1 ≢ ok tt
unfolding record_all record_completed
record_all_exceeds p [] v h = absurd (omega arith)
record_all_exceeds p (k ∷ ks) v h = ground (
  arith,
  λ (g : p.completed_keys + k ≤ p.expected_keys).
      record_all_exceeds (record p { completed_keys = p.completed_keys + k }) ks (omega arith)
        (omega arith),
)

-- A fresh block of n keys accepts a sequence of dispatches exactly when their keys do not exceed n; and
-- after accepted dispatches it is complete exactly when their keys add up to n.
pub record_all-is_complete :
    (n : ℕ) (ks : List ℕ) (p : BlockProgress)
    → n < 2 ^ 128
    → new n ≡ ok p
    → ((record_all p ks).1 ≡ ok tt ↔ sum ks ≤ n)
      × ((record_all p ks).1 ≡ ok tt → is_complete (record_all p ks).0 ≡ (sum ks == n))
unfolding new is_complete
record_all-is_complete n ks p h e = ground (arith, record_all_fits p ks, record_all_exceeds p ks)
