-- ===== src/Search/Recheck/Coverage.antt =====
-- `is_covered_by` and `required_coverage_is_present` of src/search/recheck.rs. For a legacy plan it is one walk over the plan's intervals and the
-- global ones. The index into the global intervals is the list of those from it on.
use puzzle71_solver.Prelude.{
  ℕ, ◌+◌, ◌≤◌, ◌<◌, ◌≡◌, ◌↔◌, ◌∙◌, refl, Bool, true, false, ◌&&◌, ltb, leb, if◌then◌else◌,
  Bool-cases, inl, inr, arith, Option, none, some, List, [], ◌∷◌, take,
}
use puzzle71_solver.Search.IntervalSet.{Interval, contains, covers, IsSeparated}
use puzzle71_solver.Search.Recheck.{PlanBlocks, legacy, unverified_targets, RecheckPlan}

-- The while loop: past the intervals that end before `start`.
pub skip_before : ℕ → List Interval → List Interval
skip_before start [] = []
skip_before start ((g0, g1) ∷ gs) =
    let rest = skip_before start gs in if ltb g1 start then rest else (g0, g1) ∷ gs

-- The inner loop: nothing where a key is missing, and the intervals from the last used one on otherwise.
pub extend : ℕ → ℕ → List Interval → Option (List Interval)
extend covered_through end [] = none
extend covered_through end ((g0, g1) ∷ gs) =
    let rest = extend (g1 + 1) end gs in
    if ltb covered_through g0 then none else if leb end g1 then some ((g0, g1) ∷ gs) else rest

pub is_covered_by : List Interval → List Interval → Bool
is_covered_by [] global = true
is_covered_by ((start, end) ∷ xs) global = elim (extend start end (skip_before start global)) [
  | none ↦ false
  | some rest ↦ is_covered_by xs rest
]

abbrev all_contained : List ℕ → List Interval → Bool
all_contained [] global = true
all_contained (id ∷ ids) global = contains global id && all_contained ids global

-- `is_covered_by` of either kind of plan.
pub plan_is_covered_by : PlanBlocks → List Interval → Bool
plan_is_covered_by (legacy intervals ends) global = is_covered_by intervals global
plan_is_covered_by (unverified_targets indices) global = all_contained indices global

pub required_coverage_is_present : RecheckPlan → List Interval → ℕ → Bool
required_coverage_is_present plan global completed =
    if ltb plan.total_blocks completed then false else elim plan.blocks [
      | legacy intervals ends ↦ is_covered_by intervals global
      | unverified_targets indices ↦ all_contained (take completed indices) global
    ]

weaken : (lo lo' : ℕ) (gs : List Interval) → lo' ≤ lo → IsSeparated 1 lo gs → IsSeparated 1 lo' gs
weaken lo lo' [] h s = tt
weaken lo lo' ((g0, g1) ∷ gs) h s = (omega (arith, s.0), s.1, s.2, s.3)

below-covers : (lo b : ℕ) (gs : List Interval) → IsSeparated 1 lo gs → b < lo → covers gs b ≡ false
below-covers lo b [] s h = refl
below-covers lo b ((g0, g1) ∷ gs) s h =
    ground (arith, s.0, s.1, below-covers (g1 + 1) b gs s.3 (omega (arith, s.0, s.1)))

skip_before-covers :
    (start b : ℕ) (gs : List Interval) → start ≤ b → covers (skip_before start gs) b ≡ covers gs b
unfolding skip_before
skip_before-covers start b [] h = refl
skip_before-covers start b ((g0, g1) ∷ gs) h = ground (arith, skip_before-covers start b gs h)

skip_before-IsSeparated :
    (start lo : ℕ) (gs : List Interval)
    → IsSeparated 1 lo gs
    → IsSeparated 1 lo (skip_before start gs)
unfolding skip_before
skip_before-IsSeparated start lo [] s = tt
skip_before-IsSeparated start lo ((g0, g1) ∷ gs) s = elim (Bool-cases (ltb g1 start)) [
  | inl h ↦
      rw h
        (skip_before-IsSeparated start lo gs (weaken (g1 + 1) lo gs (omega (arith, s.0, s.1)) s.3))
  | inr h ↦ rw h s
]

-- The first interval does not end before `c`.
abbrev Reaches : ℕ → List Interval → Type 0
Reaches c [] = Unit
Reaches c ((g0, g1) ∷ gs) = c ≤ g1

skip_before-Reaches : (start : ℕ) (gs : List Interval) → Reaches start (skip_before start gs)
unfolding skip_before
skip_before-Reaches start [] = tt
skip_before-Reaches start ((g0, g1) ∷ gs) = elim (Bool-cases (ltb g1 start)) [
  | inl h ↦ rw h (skip_before-Reaches start gs)
  | inr h ↦ rw h (ground arith)
]

IsSeparated-Reaches : (lo : ℕ) (gs : List Interval) → IsSeparated 1 lo gs → Reaches lo gs
IsSeparated-Reaches lo [] s = tt
IsSeparated-Reaches lo ((g0, g1) ∷ gs) s = omega (arith, s.0, s.1)

-- What `extend` may return on intervals `gs`.
abbrev Extends : ℕ → ℕ → ℕ → List Interval → Option (List Interval) → Type 0
Extends lo c e gs none = ((b : ℕ) → c ≤ b → b ≤ e → covers gs b ≡ true) → ⊥
Extends lo c e gs (some rest) =
    IsSeparated 1 lo rest
    × ((b : ℕ) → c ≤ b → b ≤ e → covers gs b ≡ true)
    × ((b : ℕ) → e < b → covers rest b ≡ covers gs b)

Extends-step :
    (lo c e g0 g1 : ℕ) (gs : List Interval) (r : Option (List Interval))
    → IsSeparated 1 lo ((g0, g1) ∷ gs)
    → g0 ≤ c
    → c ≤ g1
    → g1 < e
    → Extends (g1 + 1) (g1 + 1) e gs r
    → Extends lo c e ((g0, g1) ∷ gs) r
Extends-step lo c e g0 g1 gs none s low high short refuted =
    λ all. refuted (λ b from to. ground (arith, all b (omega arith) to))
Extends-step lo c e g0 g1 gs (some rest) s low high short (sep, all, later) = (
  weaken (g1 + 1) lo rest (omega (arith, s.0, s.1)) sep,
  λ b from to. ground (arith, all b),
  λ b past. ground (arith, later b past),
)

extend-Extends :
    (lo c e : ℕ) (gs : List Interval)
    → IsSeparated 1 lo gs
    → Reaches c gs
    → c ≤ e
    → Extends lo c e gs (extend c e gs)
unfolding extend
extend-Extends lo c e [] s reach le = λ all. ground (arith, all c (omega arith) le)
extend-Extends lo c e ((g0, g1) ∷ gs) s reach le = elim (Bool-cases (ltb c g0)) [
  | inl h ↦
      let missing = below-covers (g1 + 1) c gs s.3 (ground (arith, s.1)) in
      rw h (λ all. ground (arith, missing, all c (omega arith) le))
  | inr h ↦ elim (Bool-cases (leb e g1)) [
    | inl h' ↦ rw (h, h') (s, λ b from to. ground arith, λ b past. refl)
    | inr h' ↦
        rw (h, h')
          (Extends-step lo c e g0 g1 gs (extend (g1 + 1) e gs) s (ground arith) reach (ground arith)
            (extend-Extends (g1 + 1) (g1 + 1) e gs s.3 (IsSeparated-Reaches (g1 + 1) gs s.3)
              (ground arith)))
  ]
]

-- The global intervals cover every block of the plan's.
abbrev pub IsCovered : List Interval → List Interval → Type 0
IsCovered xs global = (b : ℕ) → covers xs b ≡ true → covers global b ≡ true

covered_after : Option (List Interval) → List Interval → Bool
covered_after none xs = false
covered_after (some rest) xs = is_covered_by xs rest

covered_after_elim :
    (r : Option (List Interval)) (xs : List Interval)
    → elim r [ none ↦ false | some rest ↦ is_covered_by xs rest ] ≡ covered_after r xs
unfolding covered_after
covered_after_elim none xs = refl
covered_after_elim (some rest) xs = refl

inside_first : (s e b : ℕ) (xs : List Interval) → s ≤ b → b ≤ e → covers ((s, e) ∷ xs) b ≡ true
inside_first s e b xs from to = ground arith

covered_after_iff :
    (lo s e : ℕ) (xs global : List Interval) (r : Option (List Interval))
    → s ≤ e
    → IsSeparated 1 (e + 1) xs
    → Extends lo s e (skip_before s global) r
    → ((rest : List Interval)
        → IsSeparated 1 lo rest
        → (is_covered_by xs rest ≡ true) ↔ IsCovered xs rest)
    → (covered_after r xs ≡ true) ↔ IsCovered ((s, e) ∷ xs) global
unfolding covered_after
covered_after_iff lo s e xs global none up sep refuted later = (
  λ h. ground arith,
  λ all. absurd (
      refuted
        (λ b from to. skip_before-covers s b global from ∙ all b (inside_first s e b xs from to))),
)
covered_after_iff lo s e xs global (some rest) up sep (kept, here, after) later = (
  λ h b found. ground (
    arith,
    here b,
    after b,
    skip_before-covers s b global,
    (later rest kept).0 h b,
    below-covers (e + 1) b xs sep,
  ),
  λ all. (later rest kept).1 (λ b found.
      ground (arith, all b, after b, skip_before-covers s b global, below-covers (e + 1) b xs sep)),
)

-- On separated intervals, `is_covered_by` answers true exactly when every block of the plan's intervals is
-- covered by the global ones, though it never goes back to a global interval that it has passed.
pub is_covered_by_iff :
    (lo lo' : ℕ) (xs global : List Interval)
    → IsSeparated 1 lo xs
    → IsSeparated 1 lo' global
    → (is_covered_by xs global ≡ true) ↔ IsCovered xs global
unfolding is_covered_by
is_covered_by_iff lo lo' [] global s g = (λ h b found. ground arith, λ all. refl)
is_covered_by_iff lo lo' ((start, end) ∷ xs) global s g =
    let kept = skip_before-IsSeparated start lo' global g in
    let whole =
      covered_after_iff lo' start end xs global (extend start end (skip_before start global)) s.1
        s.3
        (extend-Extends lo' start end (skip_before start global) kept
          (skip_before-Reaches start global) s.1)
        (λ rest separated. is_covered_by_iff (end + 1) lo' xs rest s.3 separated) in
    rw (covered_after_elim (extend start end (skip_before start global)) xs) whole
