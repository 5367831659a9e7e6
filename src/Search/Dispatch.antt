-- ===== src/Search/Dispatch.antt =====
-- The loop of src/main.rs that searches one selected block, in dispatches of the size that the requested
-- power mode gives. What each round meets is an event: the mode, and the outcome of the GPU's
-- `dispatch_exact`, which is not modelled. Reports, saved checkpoints, pauses and throttling are left out;
-- the end of the list of events stands for a shutdown.
pub mod Cover
use puzzle71_solver.Prelude.{
  ℕ, zero, suc, ◌+◌, ◌-◌, ◌*◌, ◌/◌, ◌^◌, ◌≤◌, ◌<◌, ◌≡◌, ◌≢◌, ◌⊎◌, inl, inr, refl, Bool, true, false,
  ltb, leb, ◌==◌, if◌then◌else◌, Bool-cases, arith, min, List, [], ◌∷◌, length,
}
use native.Mathlib.Nat.{div-add-mod', mod-lt}
use puzzle71_solver.Prelude.Results.{Result, ok, err}
use puzzle71_solver.Search.Profile.{
  PowerMode, eco, balanced, high, full, auto, DispatchProfile, batch_keys, dispatch_profile,
}
use puzzle71_solver.Search.BlockProgress.{
  BlockProgress, ProgressError, record_completed, remaining_keys, is_complete, IsValid,
}

-- A call of `dispatch_exact`: the first key, the threads, the steps of each, and the number of keys.
pub record Dispatch : Type 0 where
  pub start_key : ℕ
  pub thread_count : ℕ
  pub steps : ℕ
  pub keys : ℕ

pub data Outcome : Type 0 where
  no_key dispatch_error : Outcome
  found_key : ℕ → Outcome

-- How the search of a block ends. `overrun` is the panic of the `expect`.
pub data BlockEnd : Type 0 where
  block_complete shutdown metal_failed overrun : BlockEnd
  candidate : ℕ → BlockEnd

abbrev div_ceil : ℕ → ℕ → ℕ
div_ceil n d = (n + d - 1) / d

unfoldable pub next_dispatch : ℕ → BlockProgress → PowerMode → Dispatch
next_dispatch block_start progress mode =
    let profile = dispatch_profile mode in
    let sub_keys = min (remaining_keys progress) (batch_keys profile) in
    record {
      start_key = block_start + progress.completed_keys;
      thread_count = div_ceil sub_keys profile.steps;
      steps = profile.steps;
      keys = sub_keys;
    }

-- The loop, with the dispatches that completed without a key, in order.
pub search_block : ℕ → BlockProgress → List (PowerMode × Outcome) → BlockEnd × List Dispatch
search_block block_start progress [] =
    (if is_complete progress then block_complete else shutdown, [])
search_block block_start progress ((mode, outcome) ∷ events) =
    let d = next_dispatch block_start progress mode in
    let (after, recorded) = record_completed progress d.keys in
    let (end, later) = search_block block_start after events in
    if is_complete progress then (block_complete, []) else elim outcome [
      | found_key key ↦ (candidate key, [])
      | dispatch_error ↦ (metal_failed, [])
      | no_key ↦ elim recorded [ ok _ ↦ (end, d ∷ later) | err _ ↦ (overrun, []) ]
    ]

-- The dispatches cover the keys from `lo` to before `hi` with no gap and no overlap. Each has at least one
-- key, and its threads have a step for every key, but not all without the last thread.
abbrev pub Tiles : ℕ → ℕ → List Dispatch → Type 0
Tiles lo hi [] = lo ≡ hi
Tiles lo hi (d ∷ ds) =
    (d.start_key ≡ lo)
    × (0 < d.keys)
    × (d.keys ≤ d.thread_count * d.steps)
    × (d.thread_count * d.steps < d.keys + d.steps)
    × Tiles (lo + d.keys) hi ds

-- The dispatches so far, of a block that is not done.
abbrev pub StopsEarly : ℕ → BlockProgress → List Dispatch → Type 0
StopsEarly block_start p ds =
    (reached : ℕ) × (reached < block_start + p.expected_keys)
    × Tiles (block_start + p.completed_keys) reached ds

-- What `search_block` returns on a block whose first key is `block_start`.
abbrev pub Searches : ℕ → BlockProgress → BlockEnd × List Dispatch → Type 0
Searches block_start p (block_complete, ds) =
    Tiles (block_start + p.completed_keys) (block_start + p.expected_keys) ds
Searches block_start p (overrun, ds) = ⊥
Searches block_start p (shutdown, ds) = StopsEarly block_start p ds
Searches block_start p (metal_failed, ds) = StopsEarly block_start p ds
Searches block_start p (candidate key, ds) = StopsEarly block_start p ds

div_ceil-bounds : (n d : ℕ) → 0 < d → (n ≤ div_ceil n d * d) × (div_ceil n d * d < n + d)
div_ceil-bounds n d pos = (
  omega (arith, div-add-mod' (n + d - 1) d, mod-lt (n + d - 1) pos),
  omega (arith, div-add-mod' (n + d - 1) d, mod-lt (n + d - 1) pos),
)

-- Every mode has threads and steps for at least 131,072 keys.
dispatch_profile-bounds :
    (mode : PowerMode)
    → (0 < (dispatch_profile mode).steps) × (131072 ≤ batch_keys (dispatch_profile mode))
unfolding dispatch_profile batch_keys
dispatch_profile-bounds eco = (omega arith, omega arith)
dispatch_profile-bounds balanced = (omega arith, omega arith)
dispatch_profile-bounds high = (omega arith, omega arith)
dispatch_profile-bounds full = (omega arith, omega arith)
dispatch_profile-bounds auto = (omega arith, omega arith)

-- The progress after the dispatch.
abbrev advanced : BlockProgress → ℕ → BlockProgress
advanced p keys = record p { completed_keys = p.completed_keys + keys }

advanced-IsValid :
    (p : BlockProgress) (keys : ℕ) → IsValid p → keys ≤ remaining_keys p → IsValid (advanced p keys)
unfolding remaining_keys
advanced-IsValid p keys v h = record {
  fits = v.fits;
  positive = v.positive;
  within = omega (arith, v.within);
}

record_completed-advanced :
    (p : BlockProgress) (keys : ℕ)
    → IsValid p
    → keys ≤ remaining_keys p
    → ((record_completed p keys).0 ≡ advanced p keys) × ((record_completed p keys).1 ≡ ok tt)
unfolding record_completed remaining_keys
record_completed-advanced p keys v h = ground (arith, v.fits, v.within)

record IsStep (block_start : ℕ) (p : BlockProgress) (d : Dispatch) : Type 0 where
  starts : d.start_key ≡ block_start + p.completed_keys
  some_key : 0 < d.keys
  inside : d.keys ≤ remaining_keys p
  enough : d.keys ≤ d.thread_count * d.steps
  tight : d.thread_count * d.steps < d.keys + d.steps
  progress : min (remaining_keys p) 131072 ≤ d.keys

next_dispatch-IsStep :
    (block_start : ℕ) (p : BlockProgress) (mode : PowerMode)
    → IsValid p
    → is_complete p ≡ false
    → IsStep block_start p (next_dispatch block_start p mode)
unfolding next_dispatch is_complete remaining_keys
next_dispatch-IsStep block_start p mode v going =
    let bounds = dispatch_profile-bounds mode in
    let open_keys : p.completed_keys < p.expected_keys = ground (arith, v.within) in
    let ceil =
      div_ceil-bounds
        (min (p.expected_keys - p.completed_keys) (batch_keys (dispatch_profile mode)))
        (dispatch_profile mode).steps bounds.0 in
    record {
      starts = refl;
      some_key = omega (arith, bounds.1);
      inside = omega arith;
      enough = ceil.0;
      tight = ceil.1;
      progress = omega (arith, bounds.1);
    }
