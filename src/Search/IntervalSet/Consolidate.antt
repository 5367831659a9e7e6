-- ===== src/Search/IntervalSet/Consolidate.antt =====
-- `insert_range` and `consolidate` of src/search/duplicate_filter.rs: sort by start and merge what
-- overlaps or touches. `sort_by_key` is the standard library's stable sort, here by insertion.
use puzzle71_solver.Prelude.{
  ℕ, ◌+◌, ◌-◌, ◌^◌, ◌≤◌, ◌<◌, ◌≡◌, ◌∙◌, Bool, false, ◌&&◌, ◌||◌, ltb, leb, if◌then◌else◌, arith,
  Bool-cases, inl, inr, refl, ap, min, max, List, [], ◌∷◌, ◌++◌,
}
use puzzle71_solver.Search.IntervalSet.{Interval, covers, IsSeparated}

-- `sort_by_key` by the start, stable.
unfoldable pub insert_by_start : Interval → List Interval → List Interval
insert_by_start x [] = x ∷ []
insert_by_start x (y ∷ ys) = if leb x.0 y.0 then x ∷ y ∷ ys else y ∷ insert_by_start x ys

unfoldable pub sort_by_start : List Interval → List Interval
sort_by_start [] = []
sort_by_start (x ∷ xs) = insert_by_start x (sort_by_start xs)

-- `u64::saturating_add(1)`.
abbrev pub saturating_succ : ℕ → ℕ
saturating_succ n = min (n + 1) (2 ^ 64 - 1)

-- The loop of `consolidate` over the later intervals, with `current`; what is left of `merged` when it
-- ends is given in order.
unfoldable pub merge_from : Interval → List Interval → List Interval
merge_from current [] = current ∷ []
merge_from (s, e) ((s', e') ∷ rest) =
    let joined = merge_from (s, max e e') rest in
    let apart = (s, e) ∷ merge_from (s', e') rest in
    if leb s' (saturating_succ e) then joined else apart

unfoldable pub merge_sorted : List Interval → List Interval
merge_sorted [] = []
merge_sorted (x ∷ xs) = merge_from x xs

unfoldable pub consolidate : List Interval → List Interval
consolidate xs = merge_sorted (sort_by_start xs)

unfoldable pub insert_range : List Interval → ℕ → ℕ → List Interval
insert_range xs start end =
    if ltb end start then xs else consolidate (sort_by_start (xs ++ (start, end) ∷ []))

-- Every interval runs upwards inside u64.
abbrev pub AllUpwards : List Interval → Type 0
AllUpwards [] = Unit
AllUpwards ((s, e) ∷ xs) = (s ≤ e) × (e < 2 ^ 64) × AllUpwards xs

-- Starts do not decrease, from `lo` on.
abbrev IsSortedFrom : ℕ → List Interval → Type 0
IsSortedFrom lo [] = Unit
IsSortedFrom lo ((s, e) ∷ xs) = (lo ≤ s) × IsSortedFrom s xs

insert_by_start-sorted :
    (lo : ℕ) (x : Interval) (xs : List Interval)
    → lo ≤ x.0
    → IsSortedFrom lo xs
    → IsSortedFrom lo (insert_by_start x xs)
unfolding insert_by_start
insert_by_start-sorted lo x [] h v = (h, tt)
insert_by_start-sorted lo x (y ∷ ys) h v = ground (arith, insert_by_start-sorted y.0 x ys)

sort_by_start-sorted : (xs : List Interval) → IsSortedFrom 0 (sort_by_start xs)
unfolding sort_by_start
sort_by_start-sorted [] = tt
sort_by_start-sorted (x ∷ xs) =
    insert_by_start-sorted 0 x (sort_by_start xs) (omega arith) (sort_by_start-sorted xs)

insert_by_start-upwards :
    (x : Interval) (xs : List Interval)
    → x.0 ≤ x.1
    → x.1 < 2 ^ 64
    → AllUpwards xs
    → AllUpwards (insert_by_start x xs)
unfolding insert_by_start
insert_by_start-upwards x [] h h' v = (h, h', tt)
insert_by_start-upwards x (y ∷ ys) h h' v = ground (arith, insert_by_start-upwards x ys)

sort_by_start-upwards : (xs : List Interval) → AllUpwards xs → AllUpwards (sort_by_start xs)
unfolding sort_by_start
sort_by_start-upwards [] v = tt
sort_by_start-upwards (x ∷ xs) v =
    insert_by_start-upwards x (sort_by_start xs) v.0 v.1 (sort_by_start-upwards xs v.2)

or_swap : (p q r : Bool) → p || (q || r) ≡ q || (p || r)
or_swap p q r = ground arith

insert_by_start-covers :
    (x : Interval) (xs : List Interval) (c : ℕ)
    → covers (insert_by_start x xs) c ≡ covers (x ∷ xs) c
unfolding insert_by_start
insert_by_start-covers x [] c = refl
insert_by_start-covers x (y ∷ ys) c = elim (Bool-cases (leb x.0 y.0)) [
  | inl front ↦ rw front
  | inr back ↦ rw back (
      ap (λ t. (leb y.0 c && leb c y.1) || t) (insert_by_start-covers x ys c)
      ∙ or_swap (leb y.0 c && leb c y.1) (leb x.0 c && leb c x.1) (covers ys c))
]

sort_by_start-covers : (xs : List Interval) (c : ℕ) → covers (sort_by_start xs) c ≡ covers xs c
unfolding sort_by_start
sort_by_start-covers [] c = refl
sort_by_start-covers (x ∷ xs) c =
    insert_by_start-covers x (sort_by_start xs) c
    ∙ ap (λ t. (leb x.0 c && leb c x.1) || t) (sort_by_start-covers xs c)

-- Two intervals that overlap or touch, as one.
merge_two :
    (s e s' e' c : ℕ) (r : Bool)
    → s ≤ e
    → s ≤ s'
    → s' ≤ e'
    → s' ≤ e + 1
    → (leb s c && leb c (max e e')) || r ≡ (leb s c && leb c e) || ((leb s' c && leb c e') || r)
merge_two s e s' e' c r h0 h1 h2 h3 = ground arith

IsSortedFrom-le :
    (lo lo' : ℕ) (ys : List Interval) → lo ≤ lo' → IsSortedFrom lo' ys → IsSortedFrom lo ys
IsSortedFrom-le lo lo' [] p q = tt
IsSortedFrom-le lo lo' (y ∷ ys) p q = (omega arith, q.1)

merge_from-covers :
    (s e : ℕ) (xs : List Interval) (c : ℕ)
    → s ≤ e
    → e < 2 ^ 64
    → IsSortedFrom s xs
    → AllUpwards xs
    → covers (merge_from (s, e) xs) c ≡ (leb s c && leb c e) || covers xs c
unfolding merge_from
merge_from-covers s e [] c h h' o v = refl
merge_from-covers s e ((s', e') ∷ xs) c h h' o v = elim (Bool-cases (leb s' (saturating_succ e))) [
  | inl joins ↦ rw joins (
      merge_from-covers s (max e e') xs c (omega arith) (omega arith)
        (IsSortedFrom-le s s' xs o.0 o.1) v.2
      ∙ merge_two s e s' e' c (covers xs c) h o.0 v.0 (ground arith))
  | inr apart ↦
      rw apart (ap (λ t. (leb s c && leb c e) || t) (merge_from-covers s' e' xs c v.0 v.1 o.1 v.2))
]

merge_from-IsSeparated :
    (lo s e : ℕ) (xs : List Interval)
    → lo ≤ s
    → s ≤ e
    → e < 2 ^ 64
    → IsSortedFrom s xs
    → AllUpwards xs
    → IsSeparated 2 lo (merge_from (s, e) xs)
unfolding merge_from
merge_from-IsSeparated lo s e [] l h h' o v = (l, h, h', tt)
merge_from-IsSeparated lo s e ((s', e') ∷ xs) l h h' o v =
    elim (Bool-cases (leb s' (saturating_succ e))) [
      | inl joins ↦ rw joins (
          merge_from-IsSeparated lo s (max e e') xs l (omega arith) (omega arith)
            (IsSortedFrom-le s s' xs o.0 o.1) v.2)
      | inr apart ↦
          rw apart
            (l, h, h', merge_from-IsSeparated (e + 2) s' e' xs (ground arith) v.0 v.1 o.1 v.2)
    ]

merge_sorted-lem :
    (xs : List Interval)
    → IsSortedFrom 0 xs
    → AllUpwards xs
    → IsSeparated 2 0 (merge_sorted xs) × ((c : ℕ) → covers (merge_sorted xs) c ≡ covers xs c)
unfolding merge_sorted
merge_sorted-lem [] o v = (tt, λ c. refl)
merge_sorted-lem ((s, e) ∷ xs) o v = (
  merge_from-IsSeparated 0 s e xs o.0 v.0 v.1 o.1 v.2,
  λ c. merge_from-covers s e xs c v.0 v.1 o.1 v.2,
)

append-upwards :
    (xs : List Interval) (s e : ℕ)
    → AllUpwards xs
    → s ≤ e
    → e < 2 ^ 64
    → AllUpwards (xs ++ (s, e) ∷ [])
append-upwards [] s e v h h' = (h, h', tt)
append-upwards (x ∷ xs) s e v h h' = (v.0, v.1, append-upwards xs s e v.2 h h')

append-covers :
    (xs : List Interval) (s e c : ℕ)
    → covers (xs ++ (s, e) ∷ []) c ≡ (leb s c && leb c e) || covers xs c
append-covers [] s e c = refl
append-covers (x ∷ xs) s e c =
    ap (λ t. (leb x.0 c && leb c x.1) || t) (append-covers xs s e c)
    ∙ or_swap (leb x.0 c && leb c x.1) (leb s c && leb c e) (covers xs c)

-- `insert_range` on any intervals that run upwards, sorted or not: a range given the wrong way round
-- changes nothing; another is added, so that exactly the old blocks and those of the range are covered,
-- and the intervals become sorted and apart.
pub insert_range-lem :
    (xs : List Interval) (s e : ℕ)
    → AllUpwards xs
    → e < 2 ^ 64
    → (e < s → insert_range xs s e ≡ xs)
      × (s ≤ e
          → IsSeparated 2 0 (insert_range xs s e)
            × ((c : ℕ) → covers (insert_range xs s e) c ≡ (leb s c && leb c e) || covers xs c))
unfolding insert_range consolidate
insert_range-lem xs s e v h = (
  λ p. ground arith,
  λ p.
      let forward : ltb e s ≡ false = ground arith in
      let all = xs ++ (s, e) ∷ [] in
      let up = sort_by_start-upwards all (append-upwards xs s e v p h) in
      let m =
        merge_sorted-lem (sort_by_start (sort_by_start all))
          (sort_by_start-sorted (sort_by_start all))
          (sort_by_start-upwards (sort_by_start all) up) in
      rw forward (
        m.0,
        λ c.
            m.1 c
            ∙ sort_by_start-covers (sort_by_start all) c
            ∙ sort_by_start-covers all c
            ∙ append-covers xs s e c,
      ),
)
