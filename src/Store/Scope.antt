-- ===== src/Store/Scope.antt =====
-- The cursor of a recheck in src/search/store.rs: when it is later than another, and the ordinals of the
-- records that it includes.
use puzzle71_solver.Prelude.{
  ℕ, ◌+◌, ◌^◌, ◌≤◌, ◌<◌, ◌≡◌, ◌∙◌, refl, ap, sym, subst, true, false, not, ltb, ◌==◌, if◌then◌else◌,
  Bool-cases, inl, inr, arith, Option, none, some,
}
use puzzle71_solver.Prelude.Results.{ok, err_if-ok}
use puzzle71_solver.Search.Recheck.{block_at}
use puzzle71_solver.Store.{
  RecheckState, precedes_recheck, ordinal_mismatch, check_ordinal, advance_recheck, is_some,
  same_option, ordinal_ok,
}

-- A scope whose plan has a block exactly at the ordinals below its total.
pub record IsScope (r : RecheckState) : Type 0 where
  pub bounded : (k : ℕ) → is_some (block_at r.plan k) ≡ ltb k r.identity.total_blocks
  pub fits : r.identity.total_blocks < 2 ^ 64

abbrev pub HasScope : Option RecheckState → Type 0
HasScope none = Unit
HasScope (some r) = IsScope r

-- The second scope is the first, later or at the same ordinal.
abbrev pub IsLater : Option RecheckState → Option RecheckState → Type 0
IsLater none none = Unit
IsLater (some r) (some r') =
    (r'.identity ≡ r.identity) × (r'.plan ≡ r.plan) × (r.completed ≤ r'.completed)
IsLater _ _ = ⊥

pub IsLater-refl : (o : Option RecheckState) → IsLater o o
IsLater-refl none = tt
IsLater-refl (some r) = (refl, refl, omega arith)

pub IsLater-trans : (a b c : Option RecheckState) → IsLater a b → IsLater b c → IsLater a c
IsLater-trans none none none h k = tt
IsLater-trans (some a) (some b) (some c) h k = (k.0 ∙ h.0, k.1 ∙ h.1, omega (arith, h.2, k.2))
IsLater-trans none (some b) c h k = elim h [ ]
IsLater-trans (some a) none c h k = elim h [ ]
IsLater-trans none none (some c) h k = elim k [ ]
IsLater-trans (some a) (some b) none h k = elim k [ ]

pub advance_recheck-IsLater :
    (scope : Option RecheckState) (ordinal : Option ℕ)
    → IsLater scope (advance_recheck scope ordinal)
unfolding advance_recheck
advance_recheck-IsLater scope none = IsLater-refl scope
advance_recheck-IsLater none (some o) = tt
advance_recheck-IsLater (some r) (some o) = elim (Bool-cases (o == r.completed)) [
  | inl h ↦ rw h (refl, refl, omega arith)
  | inr h ↦ rw h (refl, refl, omega arith)
]

-- A cursor that is later than the one after an ordinal.
later_cursor :
    (r r' : RecheckState) (o : ℕ)
    → IsLater
        (some (if o == r.completed then record r { completed = r.completed + 1 } else r))
        (some r')
    → (r'.identity ≡ r.identity) × (r'.plan ≡ r.plan) × (o ≤ r.completed → o < r'.completed)
later_cursor r r' o later = elim (Bool-cases (o == r.completed)) [
  | inl h ↦
      let l : IsLater (some (record r { completed = r.completed + 1 })) (some r') =
        subst
          (λ b.
            IsLater (some (if b then record r { completed = r.completed + 1 } else r)) (some r'))
          h later in
      (l.0, l.1, λ le. omega (arith, l.2))
  | inr h ↦
      let l : IsLater (some r) (some r') =
        subst
          (λ b.
            IsLater (some (if b then record r { completed = r.completed + 1 } else r)) (some r'))
          h later in
      (l.0, l.1, λ le. ground (arith, l.2))
]

cursor_reaches :
    (r : RecheckState) (prior : Option ℕ) (o : ℕ) (block : Option ℕ)
    → not (ordinal_ok r prior o block) ≡ false
    → o ≤ r.completed
cursor_reaches r prior o block h = ground arith

-- The checks on an ordinal that a later cursor already includes, and the cursor.
pub scope-absorbs :
    (small fin : Option RecheckState) (prior ordinal block : Option ℕ)
    → HasScope fin
    → check_ordinal small prior ordinal block ≡ ok tt
    → IsLater (advance_recheck small ordinal) fin
    → (check_ordinal fin prior ordinal block ≡ ok tt) × (advance_recheck fin ordinal ≡ fin)
unfolding check_ordinal advance_recheck
scope-absorbs small fin prior none none scoped fine later = (refl, refl)
scope-absorbs none none prior none (some b) scoped fine later = (refl, refl)
scope-absorbs (some r) (some r') prior none (some b) scoped fine later =
    let idle : is_some (block_at r.plan r.completed) ≡ false =
      err_if-ok (is_some (block_at r.plan r.completed)) precedes_recheck fine in
    let start : is_some (block_at r.plan r.completed) ≡ ltb r.completed r'.identity.total_blocks =
      ap (λ pl. is_some (block_at pl r.completed)) (sym later.1) ∙ scoped.bounded r.completed in
    let still : is_some (block_at r'.plan r'.completed) ≡ false =
      ground (arith, scoped.bounded r'.completed, later.2) in
    (rw still refl, refl)
scope-absorbs none (some r') prior none (some b) scoped fine later = elim later [ ]
scope-absorbs (some r) none prior none (some b) scoped fine later = elim later [ ]
scope-absorbs none fin prior (some o) block scoped fine later = absurd (ground arith)
scope-absorbs (some r) none prior (some o) block scoped fine later = elim later [ ]
scope-absorbs (some r) (some r') prior (some o) block scoped fine later =
    let refused = err_if-ok (not (ordinal_ok r prior o block)) ordinal_mismatch fine in
    let (same_id, same_plan, passed) = later_cursor r r' o later in
    let blocks : same_option (block_at r'.plan o) block ≡ same_option (block_at r.plan o) block =
      ap (λ pl. same_option (block_at pl o) block) same_plan in
    let totals : r'.identity.total_blocks ≡ r.identity.total_blocks =
      ap (λ i. i.total_blocks) same_id in
    let taken : ordinal_ok r' prior o block ≡ true =
      ground (arith, refused, blocks, totals, passed, cursor_reaches r prior o block refused) in
    let behind : (o == r'.completed) ≡ false = ground (arith, passed) in
    (rw taken refl, rw behind refl)
