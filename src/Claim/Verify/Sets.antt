-- ===== src/Claim/Verify/Sets.antt =====
-- Outpoint sets of src/claim/verify.rs: two lists without repetition that have the same members have the
-- same sums.
use puzzle71_solver.Prelude.{
  ℕ, ◌+◌, ◌≡◌, ◌∙◌, refl, ap, sym, subst, Bool, true, false, ◌&&◌, ◌||◌, not, if◌then◌else◌,
  Bool-cases, inl, inr, arith, List, [], ◌∷◌,
}
use puzzle71_solver.Claim.Verify.{Outpoint, same_outpoint, contains, has_duplicate}
use puzzle71_solver.Claim.Verify.Sound.{same_outpoint-≡, same_outpoint_refl}

abbrev pub sum_by : (Outpoint → ℕ) → List Outpoint → ℕ
sum_by f [] = 0
sum_by f (o ∷ os) = f o + sum_by f os

remove : Outpoint → List Outpoint → List Outpoint
remove x [] = []
remove x (y ∷ ys) = let rest = remove x ys in if same_outpoint y x then ys else y ∷ rest

pub same_outpoint_comm : (a b : Outpoint) → same_outpoint a b ≡ false → same_outpoint b a ≡ false
same_outpoint_comm a b h = elim (Bool-cases (same_outpoint b a)) [
  | inl e ↦ absurd (
      ground (
        arith,
        h,
        subst (λ x. same_outpoint x b ≡ true) (same_outpoint-≡ b a e) (same_outpoint_refl b),
      ))
  | inr e ↦ e
]

-- Equal outpoints are in the same lists.
contains-≡ :
    (xs : List Outpoint) (a b : Outpoint) → same_outpoint a b ≡ true → contains xs a ≡ contains xs b
contains-≡ xs a b h = ap (contains xs) (same_outpoint-≡ a b h)

sum_by-remove :
    (f : Outpoint → ℕ) (x : Outpoint) (ys : List Outpoint)
    → contains ys x ≡ true
    → sum_by f ys ≡ f x + sum_by f (remove x ys)
unfolding remove
sum_by-remove f x [] h = absurd (ground arith)
sum_by-remove f x (y ∷ ys) h = elim (Bool-cases (same_outpoint y x)) [
  | inl e ↦ rw e (ap (λ n. n + sum_by f ys) (ap f (same_outpoint-≡ y x e)))
  | inr e ↦ rw e (omega (arith, sum_by-remove f x ys (ground (arith, h, e))))
]

removed :
    (y o : Outpoint) (ys : List Outpoint)
    → contains ys y ≡ false
    → contains ys o ≡ ((same_outpoint y o || contains ys o) && not (same_outpoint y o))
removed y o ys h = elim (Bool-cases (same_outpoint y o)) [
  | inl e ↦ ground (arith, e, h, contains-≡ ys y o e)
  | inr e ↦ ground (arith, e)
]

kept :
    (y x o : Outpoint) (c r : Bool)
    → same_outpoint y x ≡ false
    → r ≡ (c && not (same_outpoint x o))
    → (same_outpoint y o || r) ≡ ((same_outpoint y o || c) && not (same_outpoint x o))
kept y x o c r other h = elim (Bool-cases (same_outpoint y o)) [
  | inl e ↦
      let apart : same_outpoint x o ≡ false =
        subst (λ z. same_outpoint x z ≡ false) (same_outpoint-≡ y o e)
          (same_outpoint_comm y x other) in
      ground (arith, e, apart)
  | inr e ↦ ground (arith, e, h)
]

contains-remove :
    (x o : Outpoint) (ys : List Outpoint)
    → has_duplicate ys ≡ false
    → contains (remove x ys) o ≡ (contains ys o && not (same_outpoint x o))
unfolding remove
contains-remove x o [] h = refl
contains-remove x o (y ∷ ys) h = elim (Bool-cases (same_outpoint y x)) [
  | inl e ↦ rw e (
      subst (λ z. contains ys o ≡ ((same_outpoint y o || contains ys o) && not (same_outpoint z o)))
        (same_outpoint-≡ y x e) (removed y o ys (ground arith)))
  | inr e ↦ rw e (
      kept y x o (contains ys o) (contains (remove x ys) o) e
        (contains-remove x o ys (ground arith)))
]

remove-has_duplicate :
    (x : Outpoint) (ys : List Outpoint)
    → has_duplicate ys ≡ false
    → has_duplicate (remove x ys) ≡ false
unfolding remove
remove-has_duplicate x [] h = refl
remove-has_duplicate x (y ∷ ys) h = elim (Bool-cases (same_outpoint y x)) [
  | inl e ↦ rw e (ground arith)
  | inr e ↦ rw e (
      ground
        (arith, h, contains-remove x y ys (ground arith), remove-has_duplicate x ys (ground arith)))
]

without_first :
    (x o : Outpoint) (xs ys : List Outpoint)
    → contains xs x ≡ false
    → contains (x ∷ xs) o ≡ contains ys o
    → contains xs o ≡ (contains ys o && not (same_outpoint x o))
without_first x o xs ys h same = elim (Bool-cases (same_outpoint x o)) [
  | inl e ↦ ground (arith, e, h, contains-≡ xs x o e)
  | inr e ↦ ground (arith, e, same)
]

pub sum_by-same :
    (f : Outpoint → ℕ) (xs ys : List Outpoint)
    → has_duplicate xs ≡ false
    → has_duplicate ys ≡ false
    → ((o : Outpoint) → contains xs o ≡ contains ys o)
    → sum_by f xs ≡ sum_by f ys
sum_by-same f [] [] h k same = refl
sum_by-same f [] (y ∷ ys) h k same = absurd (ground (arith, same y, same_outpoint_refl y))
sum_by-same f (x ∷ xs) ys h k same =
    let there : contains ys x ≡ true =
      sym (same x) ∙ ap (λ b. b || contains xs x) (same_outpoint_refl x) in
    let rest =
      sum_by-same f xs (remove x ys) (ground (arith, h)) (remove-has_duplicate x ys k) (λ o.
        without_first x o xs ys (ground (arith, h)) (same o) ∙ sym (contains-remove x o ys k)) in
    omega (arith, rest, sum_by-remove f x ys there)
