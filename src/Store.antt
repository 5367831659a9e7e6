-- ===== src/Store.antt =====
-- src/search/store.rs: the checkpoint store, its journal and the replay. The runtime is an f64 up to
-- numeric equality: a type with the operations of `Runtime`. The names of the children: `Line` is a line
-- of the journal, `Journal` its bytes, `Calls` what the running store does.
pub mod Order
pub mod Refine
pub mod Line
pub mod Journal
pub mod Absorb
pub mod Calls
mod Tests
pub mod Scope
use puzzle71_solver.Prelude.{
  ℕ, zero, suc, ◌+◌, ◌-◌, ◌*◌, ◌/◌, ◌^◌, ◌<◌, ◌≡◌, Bool, true, false, not, ◌&&◌, ◌||◌, ltb, leb,
  ◌==◌, if◌then◌else◌, max, Option, none, some, List, [], ◌∷◌,
}
use puzzle71_solver.Prelude.Results.{Result, ok, err, err_if, ◌>>=◌, ◌>>◌}
use puzzle71_solver.PuzzleConfig.{range_size}
use puzzle71_solver.Search.IntervalSet
use puzzle71_solver.Search.IntervalSet.{Interval, covers}
use puzzle71_solver.Search.DuplicateFilter
use puzzle71_solver.Search.DuplicateFilter.{
  DuplicateFilter, is_scanned, mark_scanned, from_intervals,
}
use puzzle71_solver.Search.Recheck.{RecheckPlan, block_at}

-- `<`, `max` and `==` of f64, whether `Duration::try_from_secs_f64` accepts a number, and the number that
-- its JSON reads back as: serde_json without `float_roundtrip` need not give the same one.
pub record Runtime (F : Type 0) : Type 0 where
  pub less : F → F → Bool
  pub larger : F → F → F
  pub same : F → F → Bool
  pub is_duration : F → Bool
  pub stored : F → F

-- What IEEE 754 says of the first three on the numbers that are durations. Of `stored` nothing is assumed.
pub record IsOrdered {F : Type 0} (rt : Runtime F) : Type 0 where
  pub less_trans :
      (a b c : F)
      → rt.is_duration a ≡ true
      → rt.is_duration b ≡ true
      → rt.is_duration c ≡ true
      → rt.less b a ≡ false
      → rt.less c b ≡ false
      → rt.less c a ≡ false
  pub less_irrefl : (a : F) → rt.less a a ≡ false
  pub larger-is_duration :
      (a b : F)
      → rt.is_duration a ≡ true
      → rt.is_duration b ≡ true
      → rt.is_duration (rt.larger a b) ≡ true
  pub larger_right :
      (a b : F)
      → rt.is_duration a ≡ true
      → rt.is_duration b ≡ true
      → rt.less (rt.larger a b) b ≡ false
  pub larger_left :
      (a b : F)
      → rt.is_duration a ≡ true
      → rt.is_duration b ≡ true
      → rt.less (rt.larger a b) a ≡ false
  pub larger_absorbs :
      (a b : F)
      → rt.is_duration a ≡ true
      → rt.is_duration b ≡ true
      → rt.less a b ≡ false
      → rt.larger a b ≡ a
  pub larger_other : (a b : F) → rt.is_duration b ≡ true → rt.less b a ≡ false → rt.larger a b ≡ b
  pub same_eq : (a b : F) → rt.same a b ≡ true → a ≡ b

pub record RecheckIdentity : Type 0 where
  pub source_sha256 : List ℕ
  pub total_blocks : ℕ
  pub puzzle_number : ℕ
  pub range_min : List ℕ
  pub range_max : List ℕ
  pub block_size : List ℕ
  pub target_hash160 : List ℕ
  pub kernel_sha256 : List ℕ

pub record RecheckState : Type 0 where
  pub identity : RecheckIdentity
  pub plan : RecheckPlan
  pub completed : ℕ

pub record JournalRecord (F : Type 0) : Type 0 where
  pub completed_block : Option ℕ
  pub recheck_ordinal : Option ℕ
  pub total_runtime_secs : F
  pub saved_timestamp : ℕ

-- The part of the store that the journal records. `A` is the filter.
pub record Progress (A F : Type 0) : Type 0 where
  pub block_size : ℕ
  pub filter : A
  pub total_blocks : ℕ
  pub total_runtime_secs : F
  pub last_saved_timestamp : ℕ
  pub recheck : Option RecheckState

-- What the store does with its filter. The code's is the `DuplicateFilter`; the other keeps the intervals
-- alone, and is the specification.
pub record Filter (A : Type 0) : Type 0 where
  pub scanned : A → ℕ → Bool
  pub mark : A → ℕ → A
  pub make : List Interval → A

abbrev pub duplicate_filter : Filter DuplicateFilter
duplicate_filter = record { scanned = is_scanned; mark = mark_scanned; make = from_intervals }

abbrev pub exact_filter : Filter (List Interval)
exact_filter = record { scanned = covers; mark = IntervalSet.insert; make = λ xs. xs }

pub data StoreError : Type 0 where
  runtime_invalid unscoped_ordinal ordinal_mismatch precedes_recheck outside_range : StoreError
  poisoned_store not_next_block io_failed : StoreError
  no_checksum checksum_mismatch invalid_record identity_mismatch foreign_header : StoreError

abbrev pub next_of : Option RecheckState → Option ℕ
next_of none = none
next_of (some r) = block_at r.plan r.completed

unfoldable pub next_recheck_block : {A F : Type 0} → Progress A F → Option ℕ
next_recheck_block p = next_of p.recheck

abbrev pub is_some : Option ℕ → Bool
is_some none = false
is_some (some n) = true

abbrev pub same_option : Option ℕ → Option ℕ → Bool
same_option none none = true
same_option (some a) (some b) = a == b
same_option _ _ = false

-- `prior.checked_add(1) == Some(ordinal)`, if there is a prior ordinal.
abbrev pub follows : Option ℕ → ℕ → Bool
follows none ordinal = true
follows (some prior) ordinal = ltb (prior + 1) (2 ^ 64) && (prior + 1 == ordinal)

abbrev pub ordinal_ok : RecheckState → Option ℕ → ℕ → Option ℕ → Bool
ordinal_ok r prior ordinal block =
    same_option (block_at r.plan ordinal) block
    && not (leb r.identity.total_blocks ordinal)
    && follows prior ordinal
    && leb ordinal r.completed

-- The tests on the ordinal of a record.
unfoldable pub check_ordinal :
    Option RecheckState → Option ℕ → Option ℕ → Option ℕ → Result (Unit {0}) StoreError
check_ordinal recheck prior none none = ok tt
check_ordinal recheck prior none (some block) = err_if (is_some (next_of recheck)) precedes_recheck
check_ordinal none prior (some ordinal) block = err unscoped_ordinal
check_ordinal (some r) prior (some ordinal) block =
    err_if (not (ordinal_ok r prior ordinal block)) ordinal_mismatch

-- The cursor after a record.
unfoldable pub advance_recheck : Option RecheckState → Option ℕ → Option RecheckState
advance_recheck recheck none = recheck
advance_recheck none (some ordinal) = none
advance_recheck (some r) (some ordinal) =
    some (if ordinal == r.completed then record r { completed = r.completed + 1 } else r)

abbrev pub prior_ordinal : Option ℕ → Option ℕ → Option ℕ
prior_ordinal prior none = prior
prior_ordinal prior (some ordinal) = some ordinal

abbrev pub in_range : ℕ → Option ℕ → Bool
in_range block_size none = true
in_range block_size (some index) = ltb index (range_size / block_size)

module _ {F : Type 0} (rt : Runtime F) where
  abbrev pub decreases : Option F → F → Bool
  decreases none runtime = false
  decreases (some previous) runtime = rt.less runtime previous

  -- The tests of one record, with the runtime and the ordinal of the records before it. A refused record
  -- ends the replay, and the store is dropped.
  unfoldable pub check_record :
      Option RecheckState → ℕ → Option F × Option ℕ → JournalRecord F → Result (Unit {0}) StoreError
  check_record recheck block_size (previous, prior) r = do
    err_if (not (rt.is_duration r.total_runtime_secs) || decreases previous r.total_runtime_secs)
        runtime_invalid
    check_ordinal recheck prior r.recheck_ordinal r.completed_block
    err_if (not (in_range block_size r.completed_block)) outside_range

abbrev pub previous_of : {F : Type 0} → Option F × Option ℕ → JournalRecord F → Option F × Option ℕ
previous_of (previous, prior) r = (some r.total_runtime_secs, prior_ordinal prior r.recheck_ordinal)

module _ {A F : Type 0} (rt : Runtime F) (ops : Filter A) where
  unfoldable pub mark_block : Progress A F → Option ℕ → Progress A F
  mark_block p none = p
  mark_block p (some index) =
      if ops.scanned p.filter index
      then p
      else record p { filter = ops.mark p.filter index; total_blocks = p.total_blocks + 1 }

  unfoldable pub apply_runtime : Progress A F → JournalRecord F → Progress A F
  apply_runtime p r = record p {
    total_runtime_secs = rt.larger p.total_runtime_secs r.total_runtime_secs;
    last_saved_timestamp = max p.last_saved_timestamp r.saved_timestamp;
  }

  unfoldable pub apply_record : Progress A F → JournalRecord F → Progress A F
  apply_record p r =
      let advanced = record p { recheck = advance_recheck p.recheck r.recheck_ordinal } in
      apply_runtime (mark_block advanced r.completed_block) r

  unfoldable pub replay_record :
      Progress A F → Option F × Option ℕ → JournalRecord F → Result (Progress A F) StoreError
  replay_record p prev r = do check_record rt p.recheck p.block_size prev r; ok (apply_record p r)

  unfoldable pub replay :
      Progress A F → Option F × Option ℕ → List (JournalRecord F) → Result (Progress A F) StoreError
  replay p prev [] = ok p
  replay p prev (r ∷ rs) = do p' ← replay_record p prev r; replay p' (previous_of prev r) rs
