-- ===== src/Search.antt =====
-- The search side of the solver, src/search/: progress in a block, the set of scanned blocks, the
-- random choice of a block, dispatch sizes, checkpoints and the journal.
pub mod BlockProgress
pub mod Bisect
pub mod IntervalSet
pub mod Bloom
pub mod DuplicateFilter
pub mod Rng
pub mod Profile
pub mod Checkpoint
pub mod Dispatch
pub mod Recheck
mod Tests
