-- ===== src/Search/Bisect.antt =====
-- The standard library's binary search on slices, which src/search/duplicate_filter.rs calls:
-- `binary_search_by` and `partition_point`. The search keeps a window of `size` elements at `base`.
use Prim.Native.Nat.{Ordering}
use puzzle71_solver.Prelude.{
  ℕ, zero, suc, ◌+◌, ◌-◌, ◌/◌, ◌≤◌, ◌<◌, ◌≡◌, ◌≢◌, ◌⊎◌, inl, inr, Bool, true, false, refl,
  Bool-cases, arith, ltb, ◌==◌, if◌then◌else◌,
}
use puzzle71_solver.Prelude.Results.{Result, ok, err, is_ok}

-- The loop `while size > 1`, on fuel. A window of `size` elements is halved, so `size` rounds suffice.
unfoldable pub bisect : (ℕ → Ordering) → ℕ → ℕ → ℕ → ℕ
bisect f zero size base = base
bisect f (suc fuel) size base =
    let half = size / 2 in
    let mid = base + half in
    let rest = bisect f fuel (size - half) (elim (f mid) [ Ordering.gt ↦ base | _ ↦ mid ]) in
    if ltb 1 size then rest else base

-- `binary_search_by` on `n` elements, of which `f i` is the comparison of element i.
unfoldable pub binary_search_by : (ℕ → Ordering) → ℕ → Result ℕ ℕ
binary_search_by f n =
    if n == 0
    then err 0
    else let base = bisect f n n 0 in
      elim (f base) [
        | Ordering.eq ↦ ok base
        | Ordering.lt ↦ err (base + 1)
        | Ordering.gt ↦ err base
      ]

-- `partition_point` on `n` elements, of which `p i` says whether element i passes.
unfoldable pub partition_point : (ℕ → Bool) → ℕ → ℕ
partition_point p n = elim (binary_search_by (λ i. if p i then Ordering.lt else Ordering.gt) n) [
  | ok i ↦ i
  | err i ↦ i
]

-- No element after a greater one is less or equal.
abbrev pub IsPartitioned : (ℕ → Ordering) → ℕ → Type 0
IsPartitioned f n = (i j : ℕ) → i < j → j < n → f i ≡ Ordering.gt → f j ≡ Ordering.gt

-- Where the window ends up: everything behind `r` in the window is greater, and `r` itself is not,
-- unless it is the first.
record IsSplit (f : ℕ → Ordering) (base size r : ℕ) : Type 0 where
  lower : base ≤ r
  upper : r < base + size
  behind : (j : ℕ) → r < j → j < base + size → f j ≡ Ordering.gt
  here : (r ≡ base) ⊎ (f r ≢ Ordering.gt)

Ordering-cases : (o : Ordering) → (o ≡ Ordering.gt) ⊎ (o ≢ Ordering.gt)
Ordering-cases o = ground arith

not_greater :
    (o : Ordering) (base mid : ℕ)
    → o ≢ Ordering.gt
    → (elim o [ Ordering.gt ↦ base | _ ↦ mid ]) ≡ mid
not_greater o base mid h = ground arith

-- The halving step, on either side.
IsSplit-left :
    (f : ℕ → Ordering) (n base size r : ℕ)
    → IsPartitioned f n
    → base + size ≤ n
    → f (base + size / 2) ≡ Ordering.gt
    → 1 < size
    → IsSplit f base (size - size / 2) r
    → IsSplit f base size r
IsSplit-left f n base size r part inside greater more s = record {
  lower = s.lower;
  upper = omega (arith, s.upper);
  behind = λ j p q. ground (arith, s.behind j, part (base + size / 2) j);
  here = s.here;
}

IsSplit-right :
    (f : ℕ → Ordering) (base size r : ℕ)
    → f (base + size / 2) ≢ Ordering.gt
    → 1 < size
    → IsSplit f (base + size / 2) (size - size / 2) r
    → IsSplit f base size r
IsSplit-right f base size r le more s = record {
  lower = omega (arith, s.lower);
  upper = omega (arith, s.upper);
  behind = λ j p q. s.behind j p (omega arith);
  here = ground (arith, s.here);
}

bisect-IsSplit :
    (f : ℕ → Ordering) (n fuel size base : ℕ)
    → IsPartitioned f n
    → 0 < size
    → size ≤ suc fuel
    → base + size ≤ n
    → IsSplit f base size (bisect f fuel size base)
unfolding bisect
bisect-IsSplit f n zero size base part pos enough inside = record {
  lower = omega arith;
  upper = omega arith;
  behind = λ j p q. absurd (omega arith);
  here = inl refl;
}
bisect-IsSplit f n (suc fuel) size base part pos enough inside = elim (Bool-cases (ltb 1 size)) [
  | inl more ↦ elim (Ordering-cases (f mid)) [
    | inl greater ↦
        rw (more, greater)
          (IsSplit-left f n base size (bisect f fuel (size - half) base) part inside greater
            (ground arith)
            (bisect-IsSplit f n fuel (size - half) base part (ground arith) (ground arith)
              (omega arith)))
    | inr le ↦
        rw (more, not_greater (f mid) base mid le)
          (IsSplit-right f base size (bisect f fuel (size - half) mid) le (ground arith) (
            bisect-IsSplit f n fuel (size - half) mid part (ground arith) (ground arith)
              (omega arith)))
  ]
  | inr single ↦ rw single (record {
    lower = omega arith;
    upper = omega arith;
    behind = λ j p q. absurd (ground arith);
    here = inl refl;
  })
]
  where
    half : ℕ
    half = size / 2

    mid : ℕ
    mid = base + size / 2

-- `binary_search_by` finds an element that compares equal, where there is one, and reports none else.
-- The comparisons must be ordered: less, then equal at most once, then greater.
pub record IsOrdered (f : ℕ → Ordering) (n : ℕ) : Type 0 where
  pub partitioned : IsPartitioned f n
  pub less_before : (i j : ℕ) → i < j → j < n → f j ≢ Ordering.gt → f i ≡ Ordering.lt

pub binary_search_by-found :
    (f : ℕ → Ordering) (n k : ℕ)
    → IsOrdered f n
    → k < n
    → f k ≡ Ordering.eq
    → binary_search_by f n ≡ ok k
unfolding binary_search_by
binary_search_by-found f n k ord inside e =
    let r = bisect f n n 0 in
    let s = bisect-IsSplit f n n n 0 ord.partitioned (omega arith) (omega arith) (omega arith) in
    let at_k : r ≡ k = ground (arith, s.lower, s.upper, s.behind k, s.here, ord.less_before k r) in
    rw at_k (rw e (ground arith))

pub binary_search_by-missing :
    (f : ℕ → Ordering) (n : ℕ)
    → IsPartitioned f n
    → ((k : ℕ) → k < n → f k ≢ Ordering.eq)
    → is_ok (binary_search_by f n) ≡ false
unfolding binary_search_by
binary_search_by-missing f n part none_equal = elim (Bool-cases (n == 0)) [
  | inl empty ↦ rw empty
  | inr full ↦
      let s = bisect-IsSplit f n n n 0 part (ground arith) (omega arith) (omega arith) in
      let other = none_equal (bisect f n n 0) (omega (arith, s.upper)) in ground arith
]

-- `partition_point` returns the number of elements that pass, if those stand in front.
pub partition_point-count :
    (p : ℕ → Bool) (n k : ℕ)
    → k ≤ n
    → ((i : ℕ) → i < k → p i ≡ true)
    → ((i : ℕ) → k ≤ i → i < n → p i ≡ false)
    → partition_point p n ≡ k
unfolding partition_point binary_search_by
partition_point-count p n k h front back = elim (Bool-cases (n == 0)) [
  | inl empty ↦ ground arith
  | inr full ↦
      let f : ℕ → Ordering = λ i. if p i then Ordering.lt else Ordering.gt in
      let part : IsPartitioned f n =
        λ i j lt inside g. ground (arith, front i, back i, front j, back j) in
      let r = bisect f n n 0 in
      let s = bisect-IsSplit f n n n 0 part (ground arith) (omega arith) (omega arith) in
      ground (arith, s.lower, s.upper, s.behind (k - 1), s.here, front r, back r, front (k - 1))
]
