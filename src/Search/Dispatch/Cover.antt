-- ===== src/Search/Dispatch/Cover.antt =====
-- The loop of src/main.rs that searches one block covers it exactly, and ends.
use puzzle71_solver.Prelude.{
  ℕ, ◌+◌, ◌-◌, ◌*◌, ◌≤◌, ◌≡◌, refl, true, false, Bool-cases, inl, inr, arith, min, List, [], ◌∷◌,
  length,
}
use puzzle71_solver.Search.Profile.{PowerMode}
use puzzle71_solver.Search.BlockProgress.{BlockProgress, remaining_keys, is_complete, IsValid}
use puzzle71_solver.Search.Dispatch.{
  Dispatch, Outcome, no_key, dispatch_error, found_key, BlockEnd, block_complete, shutdown,
  metal_failed, overrun, candidate, next_dispatch, search_block, Tiles, Searches, StopsEarly,
  advanced, advanced-IsValid, record_completed-advanced, IsStep, next_dispatch-IsStep,
}

-- One dispatch in front of what the rest of the loop returns.
Tiles-step :
    (block_start : ℕ) (p : BlockProgress) (d : Dispatch) (hi : ℕ) (ds : List Dispatch)
    → IsStep block_start p d
    → Tiles (block_start + (advanced p d.keys).completed_keys) hi ds
    → Tiles (block_start + p.completed_keys) hi (d ∷ ds)
Tiles-step block_start p d hi ds s tiles =
    let next : block_start + p.completed_keys + d.keys ≡ block_start + (p.completed_keys + d.keys) =
      omega arith in
    (s.starts, s.some_key, s.enough, s.tight, rw next tiles)

Searches-step :
    (block_start : ℕ) (p : BlockProgress) (d : Dispatch) (end : BlockEnd) (ds : List Dispatch)
    → IsStep block_start p d
    → Searches block_start (advanced p d.keys) (end, ds)
    → Searches block_start p (end, d ∷ ds)
Searches-step block_start p d block_complete ds s tiles =
    Tiles-step block_start p d (block_start + p.expected_keys) ds s tiles
Searches-step block_start p d overrun ds s r = elim r [ ]
Searches-step block_start p d shutdown ds s (reached, below, tiles) =
    (reached, below, Tiles-step block_start p d reached ds s tiles)
Searches-step block_start p d metal_failed ds s (reached, below, tiles) =
    (reached, below, Tiles-step block_start p d reached ds s tiles)
Searches-step block_start p d (candidate key) ds s (reached, below, tiles) =
    (reached, below, Tiles-step block_start p d reached ds s tiles)

stop_here :
    (block_start : ℕ) (p : BlockProgress)
    → IsValid p
    → is_complete p ≡ false
    → StopsEarly block_start p []
unfolding is_complete
stop_here block_start p v going = (block_start + p.completed_keys, ground (arith, v.within), refl)

complete_here :
    (block_start : ℕ) (p : BlockProgress)
    → is_complete p ≡ true
    → Tiles (block_start + p.completed_keys) (block_start + p.expected_keys) []
unfolding is_complete
complete_here block_start p done = ground arith

-- Whatever modes are requested and whatever the dispatches return, the loop over a block never overruns
-- it. Where it reports the block complete, the dispatches without a key cover every key that the block had
-- left, once and in order, each with just the threads that its keys need; where it stops early, they cover
-- a beginning of those keys in the same way, and not all of them.
pub search_block-Searches :
    (block_start : ℕ) (p : BlockProgress) (events : List (PowerMode × Outcome))
    → IsValid p
    → Searches block_start p (search_block block_start p events)
unfolding search_block
search_block-Searches block_start p [] v = elim (Bool-cases (is_complete p)) [
  | inl done ↦ rw done (complete_here block_start p done)
  | inr going ↦ rw going (stop_here block_start p v going)
]
search_block-Searches block_start p ((mode, found_key key) ∷ events) v =
    elim (Bool-cases (is_complete p)) [
      | inl done ↦ rw done (complete_here block_start p done)
      | inr going ↦ rw going (stop_here block_start p v going)
    ]
search_block-Searches block_start p ((mode, dispatch_error) ∷ events) v =
    elim (Bool-cases (is_complete p)) [
      | inl done ↦ rw done (complete_here block_start p done)
      | inr going ↦ rw going (stop_here block_start p v going)
    ]
search_block-Searches block_start p ((mode, no_key) ∷ events) v =
    elim (Bool-cases (is_complete p)) [
      | inl done ↦ rw done (complete_here block_start p done)
      | inr going ↦
          let d = next_dispatch block_start p mode in
          let s = next_dispatch-IsStep block_start p mode v going in
          let recorded = record_completed-advanced p d.keys v s.inside in
          rw (going, recorded.1, recorded.0)
            (Searches-step block_start p d (search_block block_start (advanced p d.keys) events).0
              (search_block block_start (advanced p d.keys) events).1 s
              (search_block-Searches block_start (advanced p d.keys) events
                (advanced-IsValid p d.keys v s.inside)))
    ]

-- No event is a failure or a candidate.
abbrev pub AllClean : List (PowerMode × Outcome) → Type 0
AllClean [] = Unit
AllClean ((mode, outcome) ∷ events) = (outcome ≡ no_key) × AllClean events

-- The loop ends: after enough dispatches without a key or a failure, one for each 131,072 keys that are
-- left, the block is complete, whatever modes were requested.
pub search_block-ends :
    (block_start : ℕ) (p : BlockProgress) (events : List (PowerMode × Outcome))
    → IsValid p
    → AllClean events
    → remaining_keys p ≤ 131072 * length events
    → (search_block block_start p events).0 ≡ block_complete
unfolding search_block remaining_keys
search_block-ends block_start p [] v clean enough =
    let done : is_complete p ≡ true = unfold is_complete in ground (arith, v.within) in rw done refl
search_block-ends block_start p ((mode, outcome) ∷ events) v (quiet, clean) enough =
    elim (Bool-cases (is_complete p)) [
      | inl done ↦ rw done refl
      | inr going ↦
          let d = next_dispatch block_start p mode in
          let s = next_dispatch-IsStep block_start p mode v going in
          let some_progress : min (p.expected_keys - p.completed_keys) 131072 ≤ d.keys =
            s.progress in
          let recorded = record_completed-advanced p d.keys v s.inside in
          rw (going, quiet, recorded.1, recorded.0)
            (search_block-ends block_start (advanced p d.keys) events
              (advanced-IsValid p d.keys v s.inside) clean (omega (arith, some_progress, enough)))
    ]
