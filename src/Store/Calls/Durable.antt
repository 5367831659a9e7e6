-- ===== src/Store/Calls/Durable.antt =====
-- What the disk holds while the store of src/search/store.rs runs: its snapshot and its journal replay to
-- its progress, but for the runtime, which is what the JSON of runtimes reads back as.
use puzzle71_solver.Prelude.{
  ℕ, ◌+◌, ◌≡◌, ◌∙◌, refl, ap, sym, subst, true, false, Option, none, some, List, [], ◌∷◌, ◌++◌, has,
}
use mathlib.Core.List.{append_assoc, append-nil}
use puzzle71_solver.Prelude.Results.{Result, ok, err, ◌>>=◌, bind-ok, bind_assoc}
use mathlib.Core.Path.{fun_ext}
use puzzle71_solver.Search.IntervalSet.{Interval}
use puzzle71_solver.Search.DuplicateFilter.{
  DuplicateFilter, from_intervals-is_scanned, from_intervals,
}
use puzzle71_solver.Store.{
  Runtime, IsOrdered, RecheckState, JournalRecord, Progress, StoreError, duplicate_filter,
  exact_filter, replay_record, replay, previous_of,
}
use puzzle71_solver.Store.Refine.{forget, IsGood, Refines, replay-Refines}
use puzzle71_solver.Store.Line.{Codec, IsExactCodec, IsRecordCodec, newline, encode_line}
use puzzle71_solver.Store.Journal.{JournalHeader, for_scope, replay_and_repair_tail}
use puzzle71_solver.Store.Journal.Render.{
  render, render_records, replay_and_repair_tail-render, reads, AreTimed,
}
use puzzle71_solver.Store.Absorb.{IsFit}
use puzzle71_solver.Store.Scope.{HasScope}
use puzzle71_solver.Store.Calls.{Store, resume, resume_scope}

abbrev pub prev_after :
    {F : Type 0} → Option F × Option ℕ → List (JournalRecord F) → Option F × Option ℕ
prev_after prev [] = prev
prev_after prev (r ∷ rs) = prev_after (previous_of prev r) rs

-- The progress with another runtime.
abbrev pub with_runtime : {A F : Type 0} → Progress A F → F → Progress A F
with_runtime p runtime = record p { total_runtime_secs = runtime }

-- The exact progress that the snapshot file stands for.
abbrev pub base : {F : Type 0} → Store F → Progress (List Interval) F
base s = resume exact_filter s.snapshot_file s.progress.block_size s.progress.recheck

abbrev pub real_base : {F : Type 0} → Store F → Progress DuplicateFilter F
real_base s = resume duplicate_filter s.snapshot_file s.progress.block_size s.progress.recheck

-- A scoped store has a scoped snapshot.
abbrev pub IsAnchored : Option RecheckState → Option ℕ → Type 0
IsAnchored (some r) none = ⊥
IsAnchored _ _ = Unit

-- The cursor stands behind the last ordinal of the journal.
abbrev pub IsBehind : Option ℕ → Option RecheckState → Type 0
IsBehind none scope = Unit
IsBehind (some o) none = ⊥
IsBehind (some o) (some r) = o + 1 ≡ r.completed

module _ {F : Type 0} (rt : Runtime F) (ord : IsOrdered rt) (headers : Codec JournalHeader)
    (records : Codec (JournalRecord F)) where
  -- The last runtime of the journal is a duration, and not above the progress.
  abbrev pub IsReached : Option F → F → Type 0
  IsReached none runtime = Unit
  IsReached (some q) runtime = (rt.is_duration q ≡ true) × (rt.less runtime q ≡ false)

  abbrev pub head : Store F → JournalHeader
  head s = for_scope (base s).block_size (base s).recheck

  -- These records, over the snapshot, lead to the progress `q`, and its next record follows them.
  pub record IsWritten (s : Store F) (rs : List (JournalRecord F)) (q : Progress (List Interval) F)
      : Type 0 where
    pub replays : replay rt exact_filter (base s) (none, none) rs ≡ ok q
    pub reached : IsReached (prev_after (none, none) rs).0 q.total_runtime_secs
    pub behind : IsBehind (prev_after (none, none) rs).1 q.recheck
    pub scoped : HasScope q.recheck
    pub anchored : IsAnchored q.recheck s.snapshot_file.completed
    pub same_size : q.block_size ≡ s.progress.block_size
    pub same_scope : resume_scope q.recheck s.snapshot_file.completed ≡ (base s).recheck
    pub fit : IsFit rt ord (base s)

  -- These records are written, and their read-back leads to the progress with the runtime `seen`.
  pub record IsDurable (s : Store F) : Type 0 where
    pub written : List (JournalRecord F)
    pub timed : AreTimed rt written
    pub seen : F
    pub journal : s.journal ≡ render headers records (head s) written
    pub leads : IsWritten s (reads rt written) (with_runtime (forget s.progress) seen)
    pub good : IsGood s.progress

  -- The store that is opened from the files of another.
  abbrev pub reopened : Store F → Progress DuplicateFilter F → List ℕ → Store F
  reopened s p bytes = record {
    progress = p;
    journal = bytes;
    snapshot_file = s.snapshot_file;
    poisoned = false;
  }

  -- Opening the files of the store, with the code's filter, gives the progress `p`, durable again.
  pub record Recovers (s : Store F) (p : Progress (List Interval) F) : Type 0 where
    pub opened : Progress DuplicateFilter F
    pub repaired : List ℕ
    pub replayed :
        replay_and_repair_tail rt duplicate_filter headers records true (real_base s) s.journal
        ≡ ok (opened, repaired)
    pub same : forget opened ≡ p
    pub durable : IsDurable (reopened s opened repaired)

  pub real_base-IsGood : (s : Store F) → IsFit rt ord (base s) → IsGood (real_base s)
  real_base-IsGood s fit = record {
    synced =
        (from_intervals-is_scanned s.snapshot_file.checkpoint.scanned_intervals fit.separated).0;
    indexed = fit.indexed;
  }

  -- A replay with exact intervals is one with the code's filter.
  real-ok :
      (m : Result (Progress DuplicateFilter F) StoreError) (q : Progress (List Interval) F)
      → Refines m (ok q)
      → (p : Progress DuplicateFilter F) × (m ≡ ok p) × IsGood p × (forget p ≡ q)
  real-ok (ok p) q (g, e) = (p, refl, g, e)
  real-ok (err x) q h = elim h [ ]

  reopened-base :
      (s : Store F) (rs : List (JournalRecord F)) (q : Progress (List Interval) F)
      (p : Progress DuplicateFilter F) (bytes : List ℕ)
      → IsWritten s rs q
      → forget p ≡ q
      → base (reopened s p bytes) ≡ base s
  reopened-base s rs q p bytes w same =
      ap (λ b. resume exact_filter s.snapshot_file b p.recheck)
        (ap (λ x. x.block_size) same ∙ w.same_size)
      ∙ ap (λ o. record (base s) { recheck = o })
          (ap (λ x. resume_scope x.recheck s.snapshot_file.completed) same ∙ w.same_scope)

  -- An opened store is durable, with the records that it was opened with.
  pub reopened-IsDurable :
      (s : Store F) (rs : List (JournalRecord F)) (q : Progress (List Interval) F)
      (p : Progress DuplicateFilter F)
      → IsWritten s (reads rt rs) q
      → AreTimed rt rs
      → IsGood p
      → forget p ≡ q
      → IsDurable (reopened s p (render headers records (head s) rs))
  reopened-IsDurable s rs q p w timed good same =
      let bytes = render headers records (head s) rs in
      let t = reopened s p bytes in
      let based = reopened-base s (reads rt rs) q p bytes w same in
      record {
        written = rs;
        timed = timed;
        seen = p.total_runtime_secs;
        journal =
            ap (λ b. render headers records (for_scope b.block_size b.recheck) rs) (sym based);
        leads = record {
          replays =
              ap (λ b. replay rt exact_filter b (none, none) (reads rt rs)) based
              ∙ w.replays
              ∙ ap ok (sym same);
          reached =
              subst (λ x. IsReached (prev_after (none, none) (reads rt rs)).0 x.total_runtime_secs)
                (sym same) w.reached;
          behind =
              subst (λ x. IsBehind (prev_after (none, none) (reads rt rs)).1 x.recheck) (sym same)
                w.behind;
          scoped = subst (λ x. HasScope x.recheck) (sym same) w.scoped;
          anchored =
              subst (λ x. IsAnchored x.recheck s.snapshot_file.completed) (sym same) w.anchored;
          same_size = refl;
          same_scope = refl;
          fit = subst (IsFit rt ord) (sym based) w.fit;
        };
        good = good;
      }

  module _ (good_headers : IsExactCodec headers) (good_records : IsRecordCodec rt records) where
    -- A journal of whole records, perhaps with an interrupted line behind them.
    pub render-Recovers :
        (s : Store F) (rs : List (JournalRecord F)) (tail : List ℕ) (q : Progress (List Interval) F)
        → IsWritten s (reads rt rs) q
        → AreTimed rt rs
        → s.journal ≡ render headers records (head s) rs ++ tail
        → has newline tail ≡ false
        → Recovers s q
    unfolding from_intervals
    render-Recovers s rs tail q w timed journal torn =
        let back = reads rt rs in
        let m = replay rt duplicate_filter (real_base s) (none, none) back in
        let refined =
          replay-Refines rt (real_base s) (none, none) back (real_base-IsGood s w.fit) in
        let (p, e, g, same) = real-ok m q (subst (Refines m) w.replays refined) in
        record {
          opened = p;
          repaired = render headers records (head s) rs;
          replayed =
              ap (replay_and_repair_tail rt duplicate_filter headers records true (real_base s))
                journal
              ∙ replay_and_repair_tail-render rt duplicate_filter headers records good_headers
                  good_records (real_base s) rs tail timed torn
              ∙ ap (λ m. m >>= λ x. ok (x, render headers records (head s) rs)) e;
          same = same;
          durable = reopened-IsDurable s rs q p w timed g same;
        }

    pub IsDurable-Recovers :
        (s : Store F) (d : IsDurable s) → Recovers s (with_runtime (forget s.progress) d.seen)
    IsDurable-Recovers s d =
        render-Recovers s d.written [] (with_runtime (forget s.progress) d.seen) d.leads d.timed
          (d.journal ∙ sym (append-nil _)) refl

  pub replay-append :
      (p : Progress (List Interval) F) (prev : Option F × Option ℕ) (rs : List (JournalRecord F))
      (r : JournalRecord F)
      → replay rt exact_filter p prev (rs ++ r ∷ []) ≡ (
          replay rt exact_filter p prev rs >>= λ q.
          replay_record rt exact_filter q (prev_after prev rs) r)
  unfolding replay
  replay-append p prev [] r = bind-ok (replay_record rt exact_filter p prev r)
  replay-append p prev (x ∷ rs) r =
      ap (λ k. replay_record rt exact_filter p prev x >>= k)
        (fun_ext λ p'. replay-append p' (previous_of prev x) rs r)
      ∙ sym (
          bind_assoc (replay_record rt exact_filter p prev x)
            (λ p'. replay rt exact_filter p' (previous_of prev x) rs)
            (λ q. replay_record rt exact_filter q (prev_after (previous_of prev x) rs) r))

  render_records-append :
      (rs : List (JournalRecord F)) (r : JournalRecord F)
      → render_records records (rs ++ r ∷ []) ≡ render_records records rs ++ encode_line records r
  render_records-append [] r = append-nil _
  render_records-append (x ∷ rs) r =
      ap (λ l. encode_line records x ++ l) (render_records-append rs r)
      ∙ sym
          (append_assoc (encode_line records x) (render_records records rs) (encode_line records r))

  pub render-append :
      (h : JournalHeader) (rs : List (JournalRecord F)) (r : JournalRecord F)
      → render headers records h (rs ++ r ∷ [])
        ≡ render headers records h rs ++ encode_line records r
  render-append h rs r =
      ap (λ l. encode_line headers h ++ l) (render_records-append rs r)
      ∙ sym
          (append_assoc (encode_line headers h) (render_records records rs) (encode_line records r))
