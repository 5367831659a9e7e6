-- ===== src/Store/Journal.antt =====
-- The journal file of src/search/store.rs: its header, its replay, and the repair of an interrupted tail.
pub mod Render
use puzzle71_solver.Prelude.{
  ℕ, zero, suc, ◌+◌, ◌-◌, ◌/◌, ◌%◌, ◌≡◌, ◌∙◌, refl, ap, Bool, true, false, not, ◌&&◌, ltb, ◌==◌,
  if◌then◌else◌, arith, Option, none, some, List, [], ◌∷◌, ◌++◌, length, length-append, take,
  same_bytes, same_bytes_refl, has,
}
use mathlib.Core.List.{append_assoc}
use mathlib.Core.Path.{fun_ext}
use puzzle71_solver.Prelude.Results.{Result, ok, err, err_if, ◌>>=◌, ◌>>◌, bind-ok}
use puzzle71_solver.PuzzleConfig
use puzzle71_solver.Search.Recheck.{PlanBlocks, legacy, unverified_targets}
use puzzle71_solver.Store.{
  Runtime, Filter, RecheckIdentity, RecheckState, JournalRecord, Progress, StoreError,
  identity_mismatch, foreign_header, io_failed, replay_record, replay, previous_of,
}
use puzzle71_solver.Store.Line.{
  Codec, IsCodec, newline, line_body, encode_line, decode_line, split_lines, decode_line-line_body,
  line_body-has, split_lines-line, split_lines-tail,
}

pub record JournalHeader : Type 0 where
  pub format : ℕ
  pub puzzle_number : ℕ
  pub range_min : List ℕ
  pub range_max : List ℕ
  pub block_size : List ℕ
  pub recheck : Option RecheckIdentity

-- `to_string` of a u128, in 39 digits at most.
decimal_onto : ℕ → ℕ → List ℕ → List ℕ
decimal_onto zero n digits = digits
decimal_onto (suc fuel) n digits =
    let rest = decimal_onto fuel (n / 10) ((48 + n % 10) ∷ digits) in
    if ltb n 10 then (48 + n) ∷ digits else rest

pub decimal : ℕ → List ℕ
decimal n = decimal_onto 39 n []

abbrev scoped_format : PlanBlocks → ℕ
scoped_format (legacy intervals ends) = 2
scoped_format (unverified_targets indices) = 3

pub for_block_size : ℕ → JournalHeader
for_block_size block_size = record {
  format = 1;
  puzzle_number = PuzzleConfig.puzzle_number;
  range_min = decimal PuzzleConfig.range_min;
  range_max = decimal PuzzleConfig.range_max;
  block_size = decimal block_size;
  recheck = none;
}

unfoldable pub for_scope : ℕ → Option RecheckState → JournalHeader
for_scope block_size none = for_block_size block_size
for_scope block_size (some r) = record (for_block_size block_size) {
  format = scoped_format r.plan.blocks;
  recheck = some r.identity;
}

-- The derived `==`.
abbrev same_identity : RecheckIdentity → RecheckIdentity → Bool
same_identity a b =
    same_bytes a.source_sha256 b.source_sha256
    && (a.total_blocks == b.total_blocks)
    && (a.puzzle_number == b.puzzle_number)
    && same_bytes a.range_min b.range_min
    && same_bytes a.range_max b.range_max
    && same_bytes a.block_size b.block_size
    && same_bytes a.target_hash160 b.target_hash160
    && same_bytes a.kernel_sha256 b.kernel_sha256

abbrev same_scope : Option RecheckIdentity → Option RecheckIdentity → Bool
same_scope none none = true
same_scope (some a) (some b) = same_identity a b
same_scope _ _ = false

pub same_header : JournalHeader → JournalHeader → Bool
same_header a b =
    (a.format == b.format)
    && (a.puzzle_number == b.puzzle_number)
    && same_bytes a.range_min b.range_min
    && same_bytes a.range_max b.range_max
    && same_bytes a.block_size b.block_size
    && same_scope a.recheck b.recheck

abbrev starts_with : List ℕ → List ℕ → Bool
starts_with bytes [] = true
starts_with [] (b ∷ bs) = false
starts_with (x ∷ xs) (b ∷ bs) = (x == b) && starts_with xs bs

module _ {A F : Type 0} (rt : Runtime F) (ops : Filter A) (headers : Codec JournalHeader)
    (records : Codec (JournalRecord F)) where
  -- The loop over the lines behind the header.
  pub replay_lines :
      Progress A F → Option F × Option ℕ → List (List ℕ) → Result (Progress A F) StoreError
  replay_lines p prev [] = ok p
  replay_lines p prev (l ∷ ls) = do
    r ← decode_line records l
    p' ← replay_record rt ops p prev r
    replay_lines p' (previous_of prev r) ls

  abbrev replay_with_header :
      Progress A F → List (List ℕ) → List ℕ → List ℕ → Result (Progress A F × List ℕ) StoreError
  replay_with_header p [] tail bytes =
      if starts_with (encode_line headers (for_scope p.block_size p.recheck)) tail
      then ok (p, encode_line headers (for_scope p.block_size p.recheck))
      else err foreign_header
  replay_with_header p (l ∷ ls) tail bytes = do
    h ← decode_line headers l
    err_if (not (same_header h (for_scope p.block_size p.recheck))) identity_mismatch
    p' ← replay_lines p (none, none) ls
    ok (p', take (length bytes - length tail) bytes)

  -- `replay_and_repair_tail`: the progress, and the journal as it is repaired. `repairs` tells whether the
  -- writes of the repair succeed.
  pub replay_and_repair_tail :
      Bool → Progress A F → List ℕ → Result (Progress A F × List ℕ) StoreError
  replay_and_repair_tail repairs p bytes =
      let (lines, tail) = split_lines bytes in
      do done ← replay_with_header p lines tail bytes; err_if (not repairs) io_failed; ok done
