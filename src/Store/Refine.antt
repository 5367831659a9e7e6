-- ===== src/Store/Refine.antt =====
-- The replay with the code's filter of src/search/store.rs does what the replay with the exact intervals
-- does.
use puzzle71_solver.Prelude.{
  ℕ, ◌/◌, ◌^◌, ◌<◌, ◌≡◌, refl, ap, sym, true, Bool-cases, inl, inr, arith, Option, none, some, List,
  [], ◌∷◌,
}
use puzzle71_solver.Prelude.Results.{Result, ok, err, ◌>>=◌, Result-cases}
use puzzle71_solver.PuzzleConfig.{range_size}
use puzzle71_solver.Search.IntervalSet.{Interval, covers}
use puzzle71_solver.Search.DuplicateFilter.{
  DuplicateFilter, IsSynced, mark_scanned, is_scanned-covers, mark_scanned-is_scanned,
}
use puzzle71_solver.Store.Order.{check_record-ok}
use puzzle71_solver.Store.{
  Runtime, Progress, JournalRecord, StoreError, duplicate_filter, exact_filter, mark_block,
  check_record, apply_record, apply_runtime, advance_recheck, replay_record, replay, previous_of,
  in_range,
}

-- The exact view: the intervals of the filter, and the rest as it is.
abbrev pub forget : {F : Type 0} → Progress DuplicateFilter F → Progress (List Interval) F
forget p = record {
  block_size = p.block_size;
  filter = p.filter.intervals;
  total_blocks = p.total_blocks;
  total_runtime_secs = p.total_runtime_secs;
  last_saved_timestamp = p.last_saved_timestamp;
  recheck = p.recheck;
}

-- The filter is synchronised, and the blocks of the range have u64 indices.
pub record IsGood {F : Type 0} (p : Progress DuplicateFilter F) : Type 0 where
  pub synced : IsSynced p.filter
  pub indexed : range_size / p.block_size < 2 ^ 64

abbrev pub Refines :
    {F : Type 0}
    → Result (Progress DuplicateFilter F) StoreError
    → Result (Progress (List Interval) F) StoreError
    → Type 0
Refines (ok p) (ok q) = IsGood p × (forget p ≡ q)
Refines (err e) (err e') = e ≡ e'
Refines _ _ = ⊥

module _ {F : Type 0} (rt : Runtime F) where
  mark_block-forget :
      (p : Progress DuplicateFilter F) (block : Option ℕ)
      → IsGood p
      → in_range p.block_size block ≡ true
      → IsGood (mark_block rt duplicate_filter p block)
        × (forget (mark_block rt duplicate_filter p block)
            ≡ mark_block rt exact_filter (forget p) block)
  unfolding mark_block
  mark_block-forget p none g inside = (g, refl)
  mark_block-forget p (some index) g inside =
      let same = is_scanned-covers p.filter index g.synced in
      elim (Bool-cases (covers p.filter.intervals index)) [
        | inl h ↦ rw (same, h) (g, refl)
        | inr h ↦
            rw (same, h)
              (
                record {
                  synced =
                      (mark_scanned-is_scanned p.filter index g.synced
                        (ground (arith, g.indexed))).0;
                  indexed = g.indexed;
                },
                unfold mark_scanned in refl,
              )
      ]

  pub apply_record-forget :
      (p : Progress DuplicateFilter F) (r : JournalRecord F)
      → IsGood p
      → in_range p.block_size r.completed_block ≡ true
      → IsGood (apply_record rt duplicate_filter p r)
        × (forget (apply_record rt duplicate_filter p r)
            ≡ apply_record rt exact_filter (forget p) r)
  unfolding apply_record apply_runtime
  apply_record-forget p r g inside =
      let advanced = record p { recheck = advance_recheck p.recheck r.recheck_ordinal } in
      let marked =
        mark_block-forget advanced r.completed_block
          (record { synced = g.synced; indexed = g.indexed }) inside in
      (
        record { synced = marked.0.synced; indexed = marked.0.indexed },
        ap (λ q. apply_runtime rt exact_filter q r) marked.1,
      )

  replay_record-Refines :
      (p : Progress DuplicateFilter F) (prev : Option F × Option ℕ) (r : JournalRecord F)
      → IsGood p
      → Refines
          (replay_record rt duplicate_filter p prev r)
          (replay_record rt exact_filter (forget p) prev r)
  unfolding replay_record
  replay_record-Refines p prev r g =
      elim (Result-cases (check_record rt p.recheck p.block_size prev r)) [
        | inl fine ↦ rw fine (
            apply_record-forget p r g
              (check_record-ok rt p.recheck p.block_size prev r fine).inside)
        | inr (e, bad) ↦ rw bad refl
      ]

  bind-Refines :
      (m : Result (Progress DuplicateFilter F) StoreError)
      (n : Result (Progress (List Interval) F) StoreError) (prev : Option F × Option ℕ)
      (rs : List (JournalRecord F))
      → Refines m n
      → ((p : Progress DuplicateFilter F)
          → IsGood p
          → Refines
              (replay rt duplicate_filter p prev rs)
              (replay rt exact_filter (forget p) prev rs))
      → Refines
          (m >>= λ p. replay rt duplicate_filter p prev rs)
          (n >>= λ p. replay rt exact_filter p prev rs)
  bind-Refines (ok p) (ok q) prev rs (g, same) rest = rw (sym same) (rest p g)
  bind-Refines (err e) (err e') prev rs same rest = same
  bind-Refines (ok p) (err e') prev rs same rest = elim same [ ]
  bind-Refines (err e) (ok q) prev rs same rest = elim same [ ]

-- The replay with the Bloom filter in front refines the replay on the intervals alone: from a synchronised
-- filter, on every sequence of records, both accept or both refuse with the same error, and accepted ones
-- leave a synchronised filter with the intervals, counters and cursor that the specification has.
pub replay-Refines :
    {F : Type 0} (rt : Runtime F) (p : Progress DuplicateFilter F) (prev : Option F × Option ℕ)
    (rs : List (JournalRecord F))
    → IsGood p
    → Refines (replay rt duplicate_filter p prev rs) (replay rt exact_filter (forget p) prev rs)
unfolding replay
replay-Refines rt p prev [] g = (g, refl)
replay-Refines rt p prev (r ∷ rs) g =
    bind-Refines rt (replay_record rt duplicate_filter p prev r)
      (replay_record rt exact_filter (forget p) prev r) (previous_of prev r) rs
      (replay_record-Refines rt p prev r g) (λ q h. replay-Refines rt q (previous_of prev r) rs h)
