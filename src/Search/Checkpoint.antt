-- ===== src/Search/Checkpoint.antt =====
-- src/search/checkpoint.rs: the checked state of a checkpoint. The total runtime is an f64, a parameter
-- with its test `is_finite` and its test `< 0.0`.
use puzzle71_solver.Prelude.{
  ℕ, ◌+◌, ◌-◌, ◌*◌, ◌/◌, ◌^◌, ◌≤◌, ◌<◌, ◌≡◌, Bool, true, false, not, ◌||◌, ltb, leb, ◌==◌,
  if◌then◌else◌, Option, none, some, List, [], ◌∷◌, arith, Bool-cases, inl, inr, refl, ap,
}
use native.Mathlib.Nat.{mul-le-mul_right, div-mul-le_self}
use puzzle71_solver.Prelude.Results.{Result, ok, err, err_if, ◌>>=◌, ◌>>◌}
use puzzle71_solver.PuzzleConfig
use puzzle71_solver.PuzzleConfig.{range_size}
use puzzle71_solver.Search.IntervalSet.{Interval, IsSeparated, blocks_in}

pub data CheckpointError : Type 0 where
  parse_failed wrong_puzzle zero_block_size bad_runtime too_many_indices reversed outside unsorted
        block_overflow :
      CheckpointError
  block_mismatch key_overflow key_mismatch : CheckpointError

pub record CheckpointState (F : Type 0) : Type 0 where
  pub puzzle_number : ℕ
  pub total_keys_tested : ℕ
  pub total_blocks_tested : ℕ
  pub total_runtime_secs : F
  pub scanned_intervals : List Interval
  pub last_saved_timestamp : ℕ

-- `previous_end.is_some_and(|previous| start <= previous)`.
not_after : Option ℕ → ℕ → Bool
not_after none start = false
not_after (some previous) start = leb start previous

-- The loop over the intervals; its result is the number of covered blocks.
pub covered_loop : ℕ → Option ℕ → ℕ → List Interval → Result ℕ CheckpointError
covered_loop available previous covered [] = ok covered
covered_loop available previous covered ((start, end) ∷ xs) =
    let rest = covered_loop available (some end) (covered + (end - start + 1)) xs in
    if ltb end start
    then err reversed
    else if leb available end
    then err outside
    else if not_after previous start
    then err unsorted
    else if leb (2 ^ 64) (covered + (end - start + 1))
    then err block_overflow
    else rest

-- The two comparisons with the counters of the state.
pub check_counters : ℕ → ℕ → ℕ → ℕ → Result (Unit {0}) CheckpointError
check_counters block_size blocks keys covered = do
  err_if (not (blocks == covered)) block_mismatch
  err_if (leb (2 ^ 128) (covered * block_size)) key_overflow
  err_if (not (keys == covered * block_size)) key_mismatch

module _ {F : Type 0} (is_finite is_negative : F → Bool) where
  pub validate_for_block_size : CheckpointState F → ℕ → Result (Unit {0}) CheckpointError
  validate_for_block_size s block_size = do
    err_if (block_size == 0) zero_block_size
    err_if (not (is_finite s.total_runtime_secs) || is_negative s.total_runtime_secs) bad_runtime
    err_if (leb (2 ^ 64) (range_size / block_size)) too_many_indices
    covered ← covered_loop (range_size / block_size) none 0 s.scanned_intervals
    check_counters block_size s.total_blocks_tested s.total_keys_tested covered

-- `from_json`; the JSON reader is a parameter.
pub from_json :
    {F : Type 0}
    → (List ℕ → Option (CheckpointState F))
    → List ℕ
    → Result (CheckpointState F) CheckpointError
from_json parse content = elim (parse content) [
  | none ↦ err parse_failed
  | some s ↦ if s.puzzle_number == PuzzleConfig.puzzle_number then ok s else err wrong_puzzle
]

-- The ends of all intervals lie below `available`.
abbrev pub EndBelow : ℕ → List Interval → Type 0
EndBelow available [] = Unit
EndBelow available ((start, end) ∷ xs) = (end < available) × EndBelow available xs

-- Where the next interval may start.
abbrev after : Option ℕ → ℕ
after none = 0
after (some previous) = previous + 1

-- The two errors for a number that does not fit its type.
abbrev pub is_overflow : CheckpointError → Bool
is_overflow block_overflow = true
is_overflow key_overflow = true
is_overflow _ = false

abbrev LoopEnds : ℕ → ℕ → ℕ → List Interval → Result ℕ CheckpointError → Type 0
LoopEnds available lo covered xs (ok n) =
    IsSeparated 1 lo xs × EndBelow available xs × (n ≡ covered + blocks_in xs) × (n ≤ available)
LoopEnds available lo covered xs (err e) =
    (IsSeparated 1 lo xs → EndBelow available xs → ⊥) × (is_overflow e ≡ false)

LoopEnds-step :
    (available lo covered start end : ℕ) (xs : List Interval) (r : Result ℕ CheckpointError)
    → available < 2 ^ 64
    → lo ≤ start
    → start ≤ end
    → end < available
    → LoopEnds available (end + 1) (covered + (end - start + 1)) xs r
    → LoopEnds available lo covered ((start, end) ∷ xs) r
unfolding blocks_in
LoopEnds-step available lo covered start end xs (ok n) small low up inside
      (sep, ends, count, fits) =
    ((low, up, omega arith, sep), (inside, ends), omega arith, fits)
LoopEnds-step available lo covered start end xs (err e) small low up inside (refuted, kind) =
    (λ sep ends. refuted sep.3 ends.1, kind)

not_after-after :
    (previous : Option ℕ) (start : ℕ) → not_after previous start ≡ ltb start (after previous)
unfolding not_after
not_after-after none start = ground arith
not_after-after (some p) start = ground arith

covered_loop-LoopEnds :
    (available : ℕ) (previous : Option ℕ) (covered : ℕ) (xs : List Interval)
    → available < 2 ^ 64
    → covered ≤ after previous
    → after previous ≤ available
    → LoopEnds available (after previous) covered xs (covered_loop available previous covered xs)
unfolding covered_loop blocks_in
covered_loop-LoopEnds available previous covered [] small low fits =
    (tt, tt, omega arith, omega arith)
covered_loop-LoopEnds available previous covered ((start, end) ∷ xs) small low fits =
    elim (Bool-cases (ltb end start)) [
      | inl h ↦ rw h (λ sep ends. ground arith, refl)
      | inr up ↦ elim (Bool-cases (leb available end)) [
        | inl h ↦ rw (up, h) (λ sep ends. ground arith, refl)
        | inr inside ↦ elim (Bool-cases (ltb start (after previous))) [
          | inl h ↦
              rw (up, inside, not_after-after previous start, h) (λ sep ends. ground arith, refl)
          | inr sorted ↦
              let room : leb (2 ^ 64) (covered + (end - start + 1)) ≡ false = ground arith in
              rw (up, inside, not_after-after previous start, sorted, room)
                (LoopEnds-step available (after previous) covered start end xs
                  (covered_loop available (some end) (covered + (end - start + 1)) xs) small
                  (ground arith) (ground arith) (ground arith)
                  (covered_loop-LoopEnds available (some end) (covered + (end - start + 1)) xs small
                    (ground arith) (ground arith)))
        ]
      ]
    ]

-- What a checkpoint must be for a block size: its runtime is finite and not negative, the blocks of the
-- range have u64 indices, its intervals are sorted, disjoint and inside the range, and its two counters
-- agree with them.
pub record IsConsistent {F : Type 0} (is_finite is_negative : F → Bool) (s : CheckpointState F)
    (block_size : ℕ) : Type 0 where
  pub positive : 0 < block_size
  pub finite : is_finite s.total_runtime_secs ≡ true
  pub non_negative : is_negative s.total_runtime_secs ≡ false
  pub indexed : range_size / block_size < 2 ^ 64
  pub separated : IsSeparated 1 0 s.scanned_intervals
  pub inside : EndBelow (range_size / block_size) s.scanned_intervals
  pub blocks : s.total_blocks_tested ≡ blocks_in s.scanned_intervals
  pub keys : s.total_keys_tested ≡ blocks_in s.scanned_intervals * block_size

module _ {F : Type 0} (is_finite is_negative : F → Bool) where
  abbrev pub Verdict : CheckpointState F → ℕ → Result (Unit {0}) CheckpointError → Type 0
  Verdict s block_size (ok _) = IsConsistent is_finite is_negative s block_size
  Verdict s block_size (err e) =
      (IsConsistent is_finite is_negative s block_size → ⊥) × (is_overflow e ≡ false)

  counters-Verdict :
      (s : CheckpointState F) (block_size : ℕ) (r : Result ℕ CheckpointError)
      → 0 < block_size
      → is_finite s.total_runtime_secs ≡ true
      → is_negative s.total_runtime_secs ≡ false
      → range_size / block_size < 2 ^ 64
      → LoopEnds (range_size / block_size) 0 0 s.scanned_intervals r
      → Verdict s block_size
          (r >>= check_counters block_size s.total_blocks_tested s.total_keys_tested)
  unfolding check_counters
  counters-Verdict s block_size (err e) pos fin pos_time small (refuted, kind) =
      (λ c. refuted c.separated c.inside, kind)
  counters-Verdict s block_size (ok n) pos fin pos_time small (sep, ends, count, fits) =
      elim (Bool-cases (s.total_blocks_tested == n)) [
        | inr h ↦ rw h (λ c. ground (arith, c.blocks), refl)
        | inl same ↦
            let scaled : n * block_size ≡ blocks_in s.scanned_intervals * block_size =
              ap (λ m. m * block_size) (omega (arith, count)) in
            let bound : n * block_size ≤ range_size / block_size * block_size =
              mul-le-mul_right block_size fits in
            let whole : range_size / block_size * block_size ≤ range_size =
              div-mul-le_self range_size block_size in
            let room : leb (2 ^ 128) (n * block_size) ≡ false = grind arith in
            elim (Bool-cases (s.total_keys_tested == n * block_size)) [
              | inr h ↦ rw (same, room, h) (λ c. ground (arith, c.keys, scaled), refl)
              | inl h ↦
                  rw (same, room, h)
                    (record {
                      positive = pos;
                      finite = fin;
                      non_negative = pos_time;
                      indexed = small;
                      separated = sep;
                      inside = ends;
                      blocks = ground arith;
                      keys = ground (arith, scaled);
                    })
            ]
      ]

-- On every checkpoint and block size, `validate_for_block_size` accepts a consistent checkpoint only, and
-- refuses an inconsistent one only; its two checks for an overflow never report one.
pub validate_for_block_size-Verdict :
    {F : Type 0} (is_finite is_negative : F → Bool) (s : CheckpointState F) (block_size : ℕ)
    → Verdict is_finite is_negative s block_size
        (validate_for_block_size is_finite is_negative s block_size)
unfolding validate_for_block_size
validate_for_block_size-Verdict is_finite is_negative s block_size =
    elim (Bool-cases (block_size == 0)) [
      | inl h ↦ rw h (λ c. ground (arith, c.positive), refl)
      | inr pos ↦
          elim (Bool-cases
            (not (is_finite s.total_runtime_secs) || is_negative s.total_runtime_secs)) [
              | inl h ↦ rw (pos, h) (λ c. ground (arith, c.finite, c.non_negative), refl)
              | inr time ↦ elim (Bool-cases (leb (2 ^ 64) (range_size / block_size))) [
                | inl h ↦ rw (pos, time, h) (λ c. ground (arith, c.indexed), refl)
                | inr small ↦
                    rw (pos, time, small)
                      (counters-Verdict is_finite is_negative s block_size
                        (covered_loop (range_size / block_size) none 0 s.scanned_intervals)
                        (ground arith) (ground arith) (ground arith) (ground arith)
                        (covered_loop-LoopEnds (range_size / block_size) none 0 s.scanned_intervals
                          (ground arith) (omega arith) (omega arith)))
              ]
            ]
    ]
