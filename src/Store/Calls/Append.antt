-- ===== src/Store/Calls/Append.antt =====
-- The append of a record in src/search/store.rs: what the disk replays to when all of its line is written,
-- and when a part of it is.
use puzzle71_solver.Prelude.{
  ℕ, ◌≡◌, ◌⊎◌, inl, inr, ◌∙◌, refl, ap, sym, subst, true, false, Option, none, some, [], ◌∷◌, ◌++◌,
  take,
}
use mathlib.Core.List.{append-nil}
use puzzle71_solver.Prelude.Results.{ok, ◌>>=◌, ◌>>◌}
use puzzle71_solver.Search.IntervalSet.{covers}
use puzzle71_solver.Search.DuplicateFilter.{DuplicateFilter}
use puzzle71_solver.Store.{
  Runtime, IsOrdered, JournalRecord, Progress, duplicate_filter, exact_filter, apply_record,
  advance_recheck, apply_runtime, replay_record, replay, decreases, check_ordinal, check_record,
  in_range, prior_ordinal,
}
use puzzle71_solver.Store.Order.{IsAccepted, check_record-accepts}
use puzzle71_solver.Store.Refine.{forget, IsGood, apply_record-forget}
use puzzle71_solver.Store.Line.{
  Codec, IsExactCodec, IsRecordCodec, read_record, is_timed, encode_line,
}
use puzzle71_solver.Store.Journal.{JournalHeader, for_scope}
use puzzle71_solver.Store.Journal.Render.{render, reads, AreTimed}
use puzzle71_solver.Store.Absorb.{IsFit, Applied, apply_record-Applied, replay-Includes}
use puzzle71_solver.Store.Scope.{HasScope}
use puzzle71_solver.Store.Calls.{Store, resume, resume_scope}
use puzzle71_solver.Store.Calls.Durable.{
  with_runtime, IsWritten, IsDurable, IsAnchored, IsReached, IsBehind, Recovers, base, head,
  prev_after, render-Recovers, replay-append, render-append,
}
use puzzle71_solver.Store.Calls.Readable.{IsAbove}
use puzzle71_solver.Store.Calls.Readback.{
  mark_block-runtime, apply_record-runtime, reads-append, append-AreTimed,
}
use puzzle71_solver.Store.Calls.Cursor.{
  IsNextOrdinal, take-encode_line, take-encode_line, resume_scope-advance, advance-IsAnchored,
  advance-HasScope, advance-IsBehind, prev_after-append,
}

module _ {F : Type 0} (rt : Runtime F) (ord : IsOrdered rt) (headers : Codec JournalHeader)
    (records : Codec (JournalRecord F)) where
  -- A record that the progress is ready for.
  pub record IsNew (p : Progress DuplicateFilter F) (r : JournalRecord F) : Type 0 where
    pub duration : rt.is_duration r.total_runtime_secs ≡ true
    pub monotone : rt.less r.total_runtime_secs p.total_runtime_secs ≡ false
    pub next : IsNextOrdinal p.recheck r.recheck_ordinal
    pub ordinal :
        (prior : Option ℕ)
        → IsBehind prior p.recheck
        → check_ordinal p.recheck prior r.recheck_ordinal r.completed_block ≡ ok tt
    pub inside : in_range p.block_size r.completed_block ≡ true

  reached-monotone :
      (prior : Option F) (old new : F)
      → IsReached rt ord headers records prior old
      → rt.is_duration old ≡ true
      → rt.is_duration new ≡ true
      → rt.less new old ≡ false
      → decreases rt prior new ≡ false
  reached-monotone none old new reached od nd h = refl
  reached-monotone (some q) old new reached od nd h =
      ord.less_trans q old new reached.0 od nd reached.1 h

  module _ (s : Store F) (r : JournalRecord F) (d : IsDurable rt ord headers records s)
      (timed : is_timed rt r ≡ true)
      (new : IsNew (with_runtime s.progress d.seen) (read_record rt r)) where
    -- The progress with the runtime of the files, and the record as it is read back.
    abbrev pub before : Progress DuplicateFilter F
    before = with_runtime s.progress d.seen

    abbrev pub back : JournalRecord F
    back = read_record rt r

    pub progress-IsFit : IsFit rt ord (forget before)
    progress-IsFit =
        (replay-Includes rt ord (base s) (forget before) (none, none) (reads rt d.written)
          d.leads.fit d.leads.replays).0

    new-IsAccepted :
        IsAccepted rt s.progress.recheck s.progress.block_size
          (prev_after (none, none) (reads rt d.written))
          back
    new-IsAccepted =
        let prev = prev_after (none, none) (reads rt d.written) in
        record {
          duration = new.duration;
          monotone =
              reached-monotone prev.0 d.seen back.total_runtime_secs d.leads.reached
                progress-IsFit.duration new.duration new.monotone;
          ordinal = new.ordinal prev.1 d.leads.behind;
          inside = new.inside;
        }

    append-replay :
        replay rt exact_filter (base s) (none, none) (reads rt d.written ++ back ∷ [])
        ≡ ok (apply_record rt exact_filter (forget before) back)
    unfolding replay_record
    append-replay =
        let prev = prev_after (none, none) (reads rt d.written) in
        let fine : check_record rt s.progress.recheck s.progress.block_size prev back ≡ ok tt =
          check_record-accepts rt s.progress.recheck s.progress.block_size prev back
            new-IsAccepted in
        replay-append rt ord headers records (base s) (none, none) (reads rt d.written) back
        ∙ ap (λ m. m >>= λ q. replay_record rt exact_filter q prev back) d.leads.replays
        ∙ ap (λ m. m >> ok (apply_record rt exact_filter (forget before) back)) fine

    append-journal :
        s.journal ++ encode_line records r
        ≡ render headers records (head rt ord headers records s) (d.written ++ r ∷ [])
    append-journal =
        ap (λ j. j ++ encode_line records r) d.journal
        ∙ sym (render-append rt ord headers records (head rt ord headers records s) d.written r)

    before-IsGood : IsGood before
    before-IsGood = record { synced = d.good.synced; indexed = d.good.indexed }

    -- The store with the record on disk and applied.
    abbrev pub appended : Store F
    appended = record s {
      journal = s.journal ++ encode_line records r;
      progress = apply_record rt duplicate_filter s.progress r;
    }

    -- The runtime of the files after it.
    abbrev pub seen_after : F
    seen_after = rt.larger d.seen (rt.stored r.total_runtime_secs)

    same_progress :
        IsGood appended.progress
        × (with_runtime (forget appended.progress) seen_after
            ≡ apply_record rt exact_filter (forget before) back)
    same_progress =
        let moved = apply_record-runtime rt s.progress r d.seen in
        let (g, e) = apply_record-forget rt before back before-IsGood new.inside in
        let g' = subst IsGood moved g in
        (record { synced = g'.synced; indexed = g'.indexed }, ap forget (sym moved) ∙ e)

    applied :
        Applied rt ord (forget before) back (apply_record rt exact_filter (forget before) back)
    applied = apply_record-Applied rt ord (forget before) back progress-IsFit new.inside

    appended-recheck :
        appended.progress.recheck ≡ advance_recheck s.progress.recheck r.recheck_ordinal
    appended-recheck = ap (λ q. q.recheck) same_progress.1 ∙ applied.scope

    appended-base : base appended ≡ base s
    appended-base =
        ap (λ b. resume exact_filter s.snapshot_file b appended.progress.recheck)
          (ap (λ q. q.block_size) same_progress.1 ∙ applied.size)
        ∙ ap (λ o. record (base s) { recheck = o })
            (ap (λ o. resume_scope o s.snapshot_file.completed) appended-recheck
              ∙ resume_scope-advance s.progress.recheck r.recheck_ordinal s.snapshot_file.completed
                  d.leads.anchored)

    applied-IsReached :
        IsReached rt ord headers records
          (some back.total_runtime_secs)
          (apply_record rt exact_filter (forget before) back).total_runtime_secs
    applied-IsReached = (
      new.duration,
      ap (λ x. rt.less x back.total_runtime_secs) applied.runtime
          ∙ ord.larger_right d.seen back.total_runtime_secs progress-IsFit.duration new.duration,
    )

    -- The records with the new one.
    append-IsWritten :
        (c : Store F)
        → base c ≡ base s
        → c.snapshot_file ≡ s.snapshot_file
        → c.progress.block_size ≡ s.progress.block_size
        → IsWritten rt ord headers records c
            (reads rt d.written ++ back ∷ [])
            (apply_record rt exact_filter (forget before) back)
    append-IsWritten c based file size =
        let q = apply_record rt exact_filter (forget before) back in
        let prev = prev_after (none, none) (reads rt d.written) in
        let scope = applied.scope in
        record {
          replays =
              ap (λ p. replay rt exact_filter p (none, none) (reads rt d.written ++ back ∷ []))
                based
              ∙ append-replay;
          reached =
              subst (λ o. IsReached rt ord headers records o.0 q.total_runtime_secs)
                (sym (prev_after-append (none, none) (reads rt d.written) back)) applied-IsReached;
          behind =
              subst (λ o. IsBehind o.1 q.recheck)
                (sym (prev_after-append (none, none) (reads rt d.written) back))
                (subst (IsBehind (prior_ordinal prev.1 r.recheck_ordinal)) (sym scope) (
                  advance-IsBehind s.progress.recheck prev.1 r.recheck_ordinal new.next
                    d.leads.behind));
          scoped =
              subst HasScope (sym scope)
                (advance-HasScope s.progress.recheck r.recheck_ordinal d.leads.scoped);
          anchored =
              subst (λ f. IsAnchored q.recheck f.completed) (sym file)
                (subst (λ o. IsAnchored o s.snapshot_file.completed) (sym scope)
                  (advance-IsAnchored s.progress.recheck r.recheck_ordinal s.snapshot_file.completed
                    d.leads.anchored));
          same_size = applied.size ∙ sym size;
          same_scope =
              ap (λ f. resume_scope q.recheck f.completed) file
              ∙ ap (λ o. resume_scope o s.snapshot_file.completed) scope
              ∙ resume_scope-advance s.progress.recheck r.recheck_ordinal s.snapshot_file.completed
                  d.leads.anchored
              ∙ ap (λ b. b.recheck) (sym based);
          fit = subst (IsFit rt ord) (sym based) d.leads.fit;
        }

    written_after : reads rt d.written ++ back ∷ [] ≡ reads rt (d.written ++ r ∷ [])
    written_after = sym (reads-append rt d.written r)

    timed_after : AreTimed rt (d.written ++ r ∷ [])
    timed_after = append-AreTimed rt d.written r d.timed timed

    pub append-IsDurable : (e : IsDurable rt ord headers records appended) × (e.seen ≡ seen_after)
    append-IsDurable = (
      record {
        written = d.written ++ r ∷ [];
        timed = timed_after;
        seen = seen_after;
        journal =
            append-journal
            ∙ ap
                (λ p.
                  render headers records (for_scope p.block_size p.recheck) (d.written ++ r ∷ []))
                (sym appended-base);
        leads =
            subst
              (λ q. IsWritten rt ord headers records appended (reads rt (d.written ++ r ∷ [])) q)
              (sym same_progress.1)
              (subst
                (λ rs.
                  IsWritten rt ord headers records appended rs
                    (apply_record rt exact_filter (forget before) back))
                written_after
                (append-IsWritten appended appended-base refl
                  (ap (λ q. q.block_size) same_progress.1 ∙ applied.size)));
        good = same_progress.0;
      },
      refl,
    )

    appended-runtime :
        rt.less r.total_runtime_secs s.progress.total_runtime_secs ≡ false
        → appended.progress.total_runtime_secs ≡ r.total_runtime_secs
    unfolding apply_record apply_runtime
    appended-runtime grows =
        let p = s.progress in
        let advanced = record p { recheck = advance_recheck p.recheck r.recheck_ordinal } in
        ap (λ q. rt.larger q.total_runtime_secs r.total_runtime_secs)
          (mark_block-runtime rt advanced r.completed_block p.total_runtime_secs)
        ∙ ord.larger_other p.total_runtime_secs r.total_runtime_secs timed grows

    -- What the runtime reads back as is then the runtime of the files.
    pub append-IsAbove :
        rt.less r.total_runtime_secs s.progress.total_runtime_secs ≡ false
        → IsAbove rt headers records append-IsDurable.0.seen appended.progress.total_runtime_secs
    append-IsAbove grows =
        let x = rt.stored r.total_runtime_secs in
        let same : append-IsDurable.0.seen ≡ x =
          append-IsDurable.1 ∙ ord.larger_other d.seen x new.duration new.monotone in
        let fits : IsAbove rt headers records x r.total_runtime_secs =
          (new.duration, ord.less_irrefl x) in
        subst (λ low. IsAbove rt headers records low appended.progress.total_runtime_secs)
          (sym same)
          (subst (λ y. IsAbove rt headers records x y) (sym (appended-runtime grows)) fits)

    -- The blocks of before stay, and the one of the record is marked.
    pub append-covers :
        ((b : ℕ)
          → covers s.progress.filter.intervals b ≡ true
          → covers appended.progress.filter.intervals b ≡ true)
        × ((b : ℕ)
            → r.completed_block ≡ some b
            → covers appended.progress.filter.intervals b ≡ true)
    append-covers =
        let same = sym same_progress.1 in
        (
          λ b m. subst (λ q. covers q.filter b ≡ true) same (applied.kept b m),
          λ b e. subst (λ q. covers q.filter b ≡ true) same (applied.marked b e),
        )

    pub append-Recovers :
        (n : ℕ)
        → IsExactCodec headers
        → IsRecordCodec rt records
        → let cut = record s {
          journal = s.journal ++ take n (encode_line records r);
          poisoned = true;
        } in
          Recovers rt ord headers records cut (forget before)
          ⊎ Recovers rt ord headers records cut (apply_record rt exact_filter (forget before) back)
    append-Recovers n good_headers good_records =
        let cut = record s {
          journal = s.journal ++ take n (encode_line records r);
          poisoned = true;
        } in
        elim (take-encode_line records r n good_records) [
          | inl torn ↦ inl (
              render-Recovers rt ord headers records good_headers good_records cut d.written
                (take n (encode_line records r)) (forget before)
                (record {
                  replays = d.leads.replays;
                  reached = d.leads.reached;
                  behind = d.leads.behind;
                  scoped = d.leads.scoped;
                  anchored = d.leads.anchored;
                  same_size = d.leads.same_size;
                  same_scope = d.leads.same_scope;
                  fit = d.leads.fit;
                })
                d.timed (ap (λ j. j ++ take n (encode_line records r)) d.journal) torn)
          | inr whole ↦ inr (
              render-Recovers rt ord headers records good_headers good_records cut
                (d.written ++ r ∷ []) [] (apply_record rt exact_filter (forget before) back)
                (subst
                  (λ rs.
                    IsWritten rt ord headers records cut rs
                      (apply_record rt exact_filter (forget before) back))
                  written_after (append-IsWritten cut refl refl refl))
                timed_after (ap (λ l. s.journal ++ l) whole ∙ append-journal ∙ sym (append-nil _))
                refl)
        ]
