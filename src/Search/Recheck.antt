-- ===== src/Search/Recheck.antt =====
-- src/search/recheck.rs: the plan of a recheck, from an archived checkpoint or from an explicit list of
-- targets, and the block at each of its ordinals. Reading and parsing the file are left out; a manifest's
-- fields come as they were parsed. An index that the code takes without a test is read by `at`, and is
-- shown to be in range.
pub mod Order
pub mod Coverage
use puzzle71_solver.Prelude.{
  ℕ, zero, suc, ◌+◌, ◌-◌, ◌*◌, ◌/◌, ◌%◌, ◌^◌, ◌≤◌, ◌<◌, ◌≡◌, ◌∙◌, refl, ap, sym, Bool, true, false,
  not, ◌&&◌, ◌||◌, ltb, leb, ◌==◌, if◌then◌else◌, Bool-cases, inl, inr, arith, Option, none, some,
  List, [], ◌∷◌, length, get_elem?, get_or, take,
}
use puzzle71_solver.Prelude.Results.{Result, ok, err, err_if, ◌>>=◌, ◌>>◌}
use puzzle71_solver.PuzzleConfig.{range_size}
use puzzle71_solver.Search.Bisect.{partition_point, partition_point-count}
use puzzle71_solver.Search.IntervalSet.{Interval, at, contains, blocks_in}
use puzzle71_solver.Search.IntervalSet.Consolidate.{AllUpwards}
use puzzle71_solver.Search.Checkpoint.{CheckpointState, CheckpointError, validate_for_block_size}

pub data PlanBlocks : Type 0 where
  legacy : List Interval → List ℕ → PlanBlocks
  unverified_targets : List ℕ → PlanBlocks

-- The plan, with the one number of its identity that the code computes with.
pub record RecheckPlan : Type 0 where
  pub total_blocks : ℕ
  pub blocks : PlanBlocks

pub data PlanError : Type 0 where
  bad_block_size no_target bad_target no_complete_block : PlanError
  bad_checkpoint : CheckpointError → PlanError

-- The test of the block size.
pub check_block_size : ℕ → Result (Unit {0}) PlanError
check_block_size block_size =
    err_if
      (block_size == 0
        || ltb range_size block_size
        || not (range_size % block_size == 0)
        || leb (2 ^ 64) (range_size / block_size))
      bad_block_size

abbrev is_seen : ℕ → List ℕ → Bool
is_seen index [] = false
is_seen index (other ∷ seen) = (index == other) || is_seen index seen

-- The loop over the target indices, with those seen before.
unfoldable pub check_targets : ℕ → List ℕ → List ℕ → Result (Unit {0}) PlanError
check_targets available seen [] = ok tt
check_targets available seen (index ∷ indices) =
    let rest = check_targets available (index ∷ seen) indices in
    if leb available index || is_seen index seen then err bad_target else rest

unfoldable pub plan_of_targets : ℕ → List ℕ → Result RecheckPlan PlanError
plan_of_targets block_size [] = err no_target
plan_of_targets block_size (index ∷ indices) = do
  check_targets (range_size / block_size) [] (index ∷ indices)
  ok (record {
    total_blocks = length (index ∷ indices);
    blocks = unverified_targets (index ∷ indices);
  })

-- The running totals `ordinal_ends`, after `total` blocks.
unfoldable pub ends_from : ℕ → List Interval → List ℕ
ends_from total [] = []
ends_from total ((start, end) ∷ xs) =
    (total + (end - start + 1)) ∷ ends_from (total + (end - start + 1)) xs

unfoldable pub legacy_plan : List Interval → RecheckPlan
legacy_plan xs = record { total_blocks = blocks_in xs; blocks = legacy xs (ends_from 0 xs) }

unfoldable pub wrap_error : Result (Unit {0}) CheckpointError → Result (Unit {0}) PlanError
wrap_error (ok _) = ok tt
wrap_error (err e) = err (bad_checkpoint e)

unfoldable pub plan_of_checkpoint :
    {F : Type 0} → (F → Bool) → (F → Bool) → CheckpointState F → ℕ → Result RecheckPlan PlanError
plan_of_checkpoint is_finite is_negative s block_size = do
  wrap_error (validate_for_block_size is_finite is_negative s block_size)
  err_if (s.total_blocks_tested == 0) no_complete_block
  ok (legacy_plan s.scanned_intervals)

unfoldable pub block_at : RecheckPlan → ℕ → Option ℕ
block_at plan ordinal = if leb plan.total_blocks ordinal then none else elim plan.blocks [
  | unverified_targets indices ↦ get_elem? indices ordinal
  | legacy intervals ends ↦
      let index = partition_point (λ i. leb (get_or ends i 0) ordinal) (length ends) in
      let previous = if index == 0 then 0 else get_or ends (index - 1) 0 in
      some ((at intervals index).0 + ordinal - previous)
]

-- The blocks of the intervals in their order, one after the other.
abbrev pub nth_block : List Interval → ℕ → Option ℕ
nth_block [] k = none
nth_block ((start, end) ∷ xs) k =
    if ltb k (end - start + 1) then some (start + k) else nth_block xs (k - (end - start + 1))
