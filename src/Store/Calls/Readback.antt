-- ===== src/Store/Calls/Readback.antt =====
-- A record of src/search/store.rs as it is read back, with another runtime: what it does to the progress,
-- and to the list of the records.
use puzzle71_solver.Prelude.{
  ℕ, ◌≡◌, inl, inr, refl, ap, true, Bool-cases, Option, none, some, List, [], ◌∷◌, ◌++◌,
}
use puzzle71_solver.Search.DuplicateFilter.{DuplicateFilter, is_scanned}
use puzzle71_solver.Store.{
  Runtime, JournalRecord, Progress, duplicate_filter, apply_record, advance_recheck, mark_block,
  apply_runtime,
}
use puzzle71_solver.Store.Line.{read_record, is_timed}
use puzzle71_solver.Store.Journal.Render.{reads, AreTimed}
use puzzle71_solver.Store.Calls.Durable.{with_runtime}

pub mark_block-runtime :
    {F : Type 0} (rt : Runtime F) (p : Progress DuplicateFilter F) (block : Option ℕ) (seen : F)
    → mark_block rt duplicate_filter (with_runtime p seen) block
      ≡ with_runtime (mark_block rt duplicate_filter p block) seen
unfolding mark_block
mark_block-runtime rt p none seen = refl
mark_block-runtime rt p (some index) seen = elim (Bool-cases (is_scanned p.filter index)) [
  | inl h ↦ rw h refl
  | inr h ↦ rw h refl
]

-- The record as it is read back, over the progress with another runtime.
pub apply_record-runtime :
    {F : Type 0} (rt : Runtime F) (p : Progress DuplicateFilter F) (r : JournalRecord F) (seen : F)
    → apply_record rt duplicate_filter (with_runtime p seen) (read_record rt r)
      ≡ with_runtime
          (apply_record rt duplicate_filter p r)
          (rt.larger seen (rt.stored r.total_runtime_secs))
unfolding apply_record apply_runtime
apply_record-runtime rt p r seen =
    let advanced = record p { recheck = advance_recheck p.recheck r.recheck_ordinal } in
    ap (λ q. apply_runtime rt duplicate_filter q (read_record rt r))
      (mark_block-runtime rt advanced r.completed_block seen)

pub reads-append :
    {F : Type 0} (rt : Runtime F) (rs : List (JournalRecord F)) (r : JournalRecord F)
    → reads rt (rs ++ r ∷ []) ≡ reads rt rs ++ read_record rt r ∷ []
reads-append rt [] r = refl
reads-append rt (x ∷ rs) r = ap (λ l. read_record rt x ∷ l) (reads-append rt rs r)

pub append-AreTimed :
    {F : Type 0} (rt : Runtime F) (rs : List (JournalRecord F)) (r : JournalRecord F)
    → AreTimed rt rs
    → is_timed rt r ≡ true
    → AreTimed rt (rs ++ r ∷ [])
append-AreTimed rt [] r timed h = (h, tt)
append-AreTimed rt (x ∷ rs) r timed h = (timed.0, append-AreTimed rt rs r timed.1 h)
