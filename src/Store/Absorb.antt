-- ===== src/Store/Absorb.antt =====
-- A journal of src/search/store.rs that is replayed over what it led to changes nothing.
use puzzle71_solver.Prelude.{
  Option-cases, ℕ, ◌/◌, ◌^◌, ◌≤◌, ◌<◌, ◌≡◌, ◌∙◌, refl, ap, sym, subst, true, false, Bool-cases, inl,
  inr, arith, max, Option, none, some, List, [], ◌∷◌,
}
use puzzle71_solver.Prelude.Results.{ok, then-ok, ok_inj, bind-split}
use puzzle71_solver.PuzzleConfig.{range_size}
use puzzle71_solver.Search.IntervalSet.{Interval, covers, IsSeparated}
use puzzle71_solver.Search.IntervalSet.Growth.{insert-lem}
use puzzle71_solver.Store.{
  Runtime, IsOrdered, Progress, JournalRecord, exact_filter, mark_block, check_record,
  check_ordinal, apply_record, apply_runtime, advance_recheck, replay_record, replay, previous_of,
  in_range,
}
use puzzle71_solver.Store.Order.{IsAccepted, check_record-ok, check_record-accepts}
use puzzle71_solver.Store.Scope.{
  HasScope, IsLater, IsLater-refl, scope-absorbs, advance_recheck-IsLater, IsLater-trans,
}

module _ {F : Type 0} (rt : Runtime F) (ord : IsOrdered rt) where
  -- The runtime is a duration, the intervals are sorted, and blocks have u64 indices.
  pub record IsFit (p : Progress (List Interval) F) : Type 0 where
    pub duration : rt.is_duration p.total_runtime_secs ≡ true
    pub separated : IsSeparated 1 0 p.filter
    pub indexed : range_size / p.block_size < 2 ^ 64

  pub record Includes (big small : Progress (List Interval) F) : Type 0 where
    pub size : big.block_size ≡ small.block_size
    pub runtime : rt.less big.total_runtime_secs small.total_runtime_secs ≡ false
    pub saved : small.last_saved_timestamp ≤ big.last_saved_timestamp
    pub blocks : (b : ℕ) → covers small.filter b ≡ true → covers big.filter b ≡ true
    pub scope : IsLater small.recheck big.recheck

  pub Includes-refl : (p : Progress (List Interval) F) → Includes p p
  Includes-refl p = record {
    size = refl;
    runtime = ord.less_irrefl p.total_runtime_secs;
    saved = omega arith;
    blocks = λ b h. h;
    scope = IsLater-refl p.recheck;
  }

  Includes-trans :
      (a b c : Progress (List Interval) F)
      → IsFit a
      → IsFit b
      → IsFit c
      → Includes a b
      → Includes b c
      → Includes a c
  Includes-trans a b c fa fb fc h k = record {
    size = h.size ∙ k.size;
    runtime =
        ord.less_trans c.total_runtime_secs b.total_runtime_secs a.total_runtime_secs fc.duration
          fb.duration fa.duration k.runtime h.runtime;
    saved = omega (arith, h.saved, k.saved);
    blocks = λ x m. h.blocks x (k.blocks x m);
    scope = IsLater-trans c.recheck b.recheck a.recheck k.scope h.scope;
  }

  -- What marking a block of the range does to the exact filter.
  mark_block-exact :
      (p : Progress (List Interval) F) (block : Option ℕ)
      → IsSeparated 1 0 p.filter
      → range_size / p.block_size < 2 ^ 64
      → in_range p.block_size block ≡ true
      → let q = mark_block rt exact_filter p block in
        IsSeparated 1 0 q.filter
        × ((b : ℕ) → covers p.filter b ≡ true → covers q.filter b ≡ true)
        × ((b : ℕ) → block ≡ some b → covers q.filter b ≡ true)
        × (q ≡ record p { filter = q.filter; total_blocks = q.total_blocks })
  unfolding mark_block
  mark_block-exact p none sep small inside = (sep, λ b h. h, λ b e. absurd (ground arith), refl)
  mark_block-exact p (some index) sep small inside =
      let grown = insert-lem 1 (omega arith) (omega arith) p.filter index sep (ground arith) in
      elim (Bool-cases (covers p.filter index)) [
        | inl h ↦ rw h (sep, λ b m. m, λ b e. ground arith, refl)
        | inr h ↦
            rw h (grown.0, λ b m. ground (arith, grown.1 b), λ b e. ground (arith, grown.1 b), refl)
      ]

  -- What an accepted record leads to.
  pub record Applied (p : Progress (List Interval) F) (r : JournalRecord F)
      (q : Progress (List Interval) F) : Type 0 where
    pub size : q.block_size ≡ p.block_size
    pub separated : IsSeparated 1 0 q.filter
    pub kept : (b : ℕ) → covers p.filter b ≡ true → covers q.filter b ≡ true
    pub marked : (b : ℕ) → r.completed_block ≡ some b → covers q.filter b ≡ true
    pub runtime : q.total_runtime_secs ≡ rt.larger p.total_runtime_secs r.total_runtime_secs
    pub saved : q.last_saved_timestamp ≡ max p.last_saved_timestamp r.saved_timestamp
    pub scope : q.recheck ≡ advance_recheck p.recheck r.recheck_ordinal

  pub apply_record-Applied :
      (p : Progress (List Interval) F) (r : JournalRecord F)
      → IsFit p
      → in_range p.block_size r.completed_block ≡ true
      → Applied p r (apply_record rt exact_filter p r)
  unfolding apply_record apply_runtime
  apply_record-Applied p r fit inside =
      let advanced = record p { recheck = advance_recheck p.recheck r.recheck_ordinal } in
      let m = mark_block-exact advanced r.completed_block fit.separated fit.indexed inside in
      record {
        size = ap (λ q. q.block_size) m.3;
        separated = m.0;
        kept = m.1;
        marked = m.2;
        runtime = ap (λ q. rt.larger q.total_runtime_secs r.total_runtime_secs) m.3;
        saved = ap (λ q. max q.last_saved_timestamp r.saved_timestamp) m.3;
        scope = ap (λ q. q.recheck) m.3;
      }

  module _ (p q : Progress (List Interval) F) (r : JournalRecord F) (fit : IsFit p)
      (dur : rt.is_duration r.total_runtime_secs ≡ true) (a : Applied p r q) where
    Applied-IsFit : IsFit q
    Applied-IsFit = record {
      duration =
          rw (a.runtime)
            (ord.larger-is_duration p.total_runtime_secs r.total_runtime_secs fit.duration dur);
      separated = a.separated;
      indexed = rw (a.size) (fit.indexed);
    }

    Applied-Includes : Includes q p
    Applied-Includes = record {
      size = a.size;
      runtime =
          rw (a.runtime)
            (ord.larger_left p.total_runtime_secs r.total_runtime_secs fit.duration dur);
      saved = omega (arith, a.saved);
      blocks = a.kept;
      scope =
          subst (IsLater p.recheck) (sym a.scope)
            (advance_recheck-IsLater p.recheck r.recheck_ordinal);
    }

  replay_record-ok :
      (p q : Progress (List Interval) F) (prev : Option F × Option ℕ) (r : JournalRecord F)
      → replay_record rt exact_filter p prev r ≡ ok q
      → IsAccepted rt p.recheck p.block_size prev r × (apply_record rt exact_filter p r ≡ q)
  unfolding replay_record
  replay_record-ok p q prev r h =
      let parts =
        then-ok (check_record rt p.recheck p.block_size prev r)
          (ok (apply_record rt exact_filter p r)) h in
      (check_record-ok rt p.recheck p.block_size prev r parts.0, ground (arith, parts.1))

  replay_record-Applied :
      (p q : Progress (List Interval) F) (prev : Option F × Option ℕ) (r : JournalRecord F)
      → IsFit p
      → replay_record rt exact_filter p prev r ≡ ok q
      → IsAccepted rt p.recheck p.block_size prev r × Applied p r q
  replay_record-Applied p q prev r fit h =
      let (accepted, same) = replay_record-ok p q prev r h in
      (accepted, subst (Applied p r) same (apply_record-Applied p r fit accepted.inside))

  -- A record that the final progress already includes is accepted again, and changes nothing.
  module _ (p q fin : Progress (List Interval) F) (prev : Option F × Option ℕ) (r : JournalRecord F)
      (fit : IsFit p) (fit_q : IsFit q) (fit_fin : IsFit fin) (scoped : HasScope fin.recheck)
      (accepted : IsAccepted rt p.recheck p.block_size prev r) (a : Applied p r q)
      (inc : Includes fin q) where
    absorbed-filter : mark_block rt exact_filter fin r.completed_block ≡ fin
    unfolding mark_block
    absorbed-filter = elim (Option-cases r.completed_block) [
      | inl e ↦ rw e refl
      | inr (b, e) ↦ rw (e, inc.blocks b (a.marked b e)) refl
    ]

    -- The checks on the ordinal, and the cursor.
    absorbed-scope :
        (check_ordinal fin.recheck prev.1 r.recheck_ordinal r.completed_block ≡ ok tt)
        × (advance_recheck fin.recheck r.recheck_ordinal ≡ fin.recheck)
    absorbed-scope =
        scope-absorbs p.recheck fin.recheck prev.1 r.recheck_ordinal r.completed_block scoped
          accepted.ordinal (subst (λ o. IsLater o fin.recheck) a.scope inc.scope)

    absorbed-runtime :
        rt.larger fin.total_runtime_secs r.total_runtime_secs ≡ fin.total_runtime_secs
    absorbed-runtime =
        let reached : rt.less q.total_runtime_secs r.total_runtime_secs ≡ false = rw (a.runtime) (
          ord.larger_right p.total_runtime_secs r.total_runtime_secs fit.duration
            accepted.duration) in
        ord.larger_absorbs fin.total_runtime_secs r.total_runtime_secs fit_fin.duration
          accepted.duration
          (ord.less_trans r.total_runtime_secs q.total_runtime_secs fin.total_runtime_secs
            accepted.duration fit_q.duration fit_fin.duration reached inc.runtime)

    absorbed-saved : max fin.last_saved_timestamp r.saved_timestamp ≡ fin.last_saved_timestamp
    absorbed-saved = omega (arith, a.saved, inc.saved)

    absorbed : replay_record rt exact_filter fin prev r ≡ ok fin
    unfolding replay_record apply_record apply_runtime
    absorbed =
        let again : check_record rt fin.recheck fin.block_size prev r ≡ ok tt =
          check_record-accepts rt fin.recheck fin.block_size prev r (record {
            duration = accepted.duration;
            monotone = accepted.monotone;
            ordinal = absorbed-scope.0;
            inside =
                subst (λ n. in_range n r.completed_block ≡ true) (sym (inc.size ∙ a.size))
                  accepted.inside;
          }) in
        rw (again, absorbed-scope.1, absorbed-filter, absorbed-runtime, absorbed-saved) refl

  pub replay-Includes :
      (p q : Progress (List Interval) F) (prev : Option F × Option ℕ) (rs : List (JournalRecord F))
      → IsFit p
      → replay rt exact_filter p prev rs ≡ ok q
      → IsFit q × Includes q p
  unfolding replay
  replay-Includes p q prev [] fit h =
      subst (λ x. IsFit x × Includes x p) (ok_inj h) (fit, Includes-refl p)
  replay-Includes p q prev (r ∷ rs) fit h =
      let (p', one, rest) =
        bind-split (replay_record rt exact_filter p prev r)
          (λ x. replay rt exact_filter x (previous_of prev r) rs) h in
      let (accepted, applied) = replay_record-Applied p p' prev r fit one in
      let fit' = Applied-IsFit p p' r fit accepted.duration applied in
      let (fit_q, later) = replay-Includes p' q (previous_of prev r) rs fit' rest in
      (
        fit_q,
        Includes-trans q p' p fit_q fit' fit later
            (Applied-Includes p p' r fit accepted.duration applied),
      )

  pub replay-absorbs_from :
      (p q fin : Progress (List Interval) F) (prev : Option F × Option ℕ)
      (rs : List (JournalRecord F))
      → IsFit p
      → IsFit fin
      → HasScope fin.recheck
      → replay rt exact_filter p prev rs ≡ ok q
      → Includes fin q
      → replay rt exact_filter fin prev rs ≡ ok fin
  unfolding replay
  replay-absorbs_from p q fin prev [] fit fit_fin scoped h inc = refl
  replay-absorbs_from p q fin prev (r ∷ rs) fit fit_fin scoped h inc =
      let (p', one, rest) =
        bind-split (replay_record rt exact_filter p prev r)
          (λ x. replay rt exact_filter x (previous_of prev r) rs) h in
      let (accepted, applied) = replay_record-Applied p p' prev r fit one in
      let fit' = Applied-IsFit p p' r fit accepted.duration applied in
      let (fit_q, later) = replay-Includes p' q (previous_of prev r) rs fit' rest in
      let inc' = Includes-trans fin q p' fit_fin fit_q fit' inc later in
      rw (absorbed p p' fin prev r fit fit' fit_fin scoped accepted applied inc')
        (replay-absorbs_from p' q fin (previous_of prev r) rs fit' fit_fin scoped rest inc)

-- Replaying a journal over the progress that it led to changes nothing: the journal that a crash between
-- the replacement of the snapshot and the truncation leaves behind is harmless.
pub replay-absorbs :
    {F : Type 0} (rt : Runtime F) (ord : IsOrdered rt) (p q : Progress (List Interval) F)
    (prev : Option F × Option ℕ) (rs : List (JournalRecord F))
    → IsFit rt ord p
    → HasScope q.recheck
    → replay rt exact_filter p prev rs ≡ ok q
    → replay rt exact_filter q prev rs ≡ ok q
replay-absorbs rt ord p q prev rs fit scoped h =
    replay-absorbs_from rt ord p q q prev rs fit (replay-Includes rt ord p q prev rs fit h).0 scoped
      h (Includes-refl rt ord q)
