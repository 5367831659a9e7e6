-- ===== src/Search/Rng.antt =====
-- src/search/rng.rs: uniform numbers by rejection sampling, and the random choice of a block. The kernel's
-- entropy is a list of what the 16-byte reads return, each as a u128, or nothing where a read fails.
use puzzle71_solver.Prelude.{
  ℕ, ◌+◌, ◌-◌, ◌*◌, ◌/◌, ◌%◌, ◌^◌, ◌≤◌, ◌<◌, ◌≡◌, ◌↔◌, ◌⊎◌, inl, inr, ◌∙◌, true, false, ◌||◌, arith,
  ltb, ◌==◌, if◌then◌else◌, Bool-cases, Option, none, some, List, [], ◌∷◌, refl, ap, subst,
}
use native.Mathlib.Nat.{
  mod-lt, div-add-mod', mul-add-mod_self_right, mod-eq_of_lt, mul-le-mul_right, div-mul-le_self,
  div-le_self, le-div_iff_mul-le,
}
use puzzle71_solver.PuzzleConfig.{range_min, range_max, range_size}

-- `failed` is the error of a read, `assertion_failed` a panic of one of the asserts. The list of reads is a
-- finite beginning of what the kernel returns: `waiting` is no outcome of the code, but says that the code
-- has not returned yet and asks for one more read.
pub data Draw : Type 0 where
  drawn : ℕ → Draw
  failed invalid_block_size assertion_failed waiting : Draw

abbrev pub u128_max : ℕ
u128_max = 2 ^ 128 - 1

-- The largest multiple of `range` that is at most u128::MAX.
pub sample_limit : ℕ → ℕ
sample_limit range = u128_max - u128_max % range

-- The loop: numbers at the limit or above are rejected.
sample_loop : ℕ → List (Option ℕ) → Draw
sample_loop range [] = waiting
sample_loop range (none ∷ reads) = failed
sample_loop range (some val ∷ reads) =
    if ltb val (sample_limit range) then drawn (val % range) else sample_loop range reads

pub get_secure_uniform_u128 : ℕ → List (Option ℕ) → Draw
get_secure_uniform_u128 max_val reads =
    if max_val == 0
    then drawn 0
    else if max_val == u128_max
    then elim reads [ [] ↦ waiting | none ∷ _ ↦ failed | some val ∷ _ ↦ drawn val ]
    else sample_loop (max_val + 1) reads

-- The start key of a drawn index, behind the two asserts.
start_of_block : ℕ → ℕ → Draw
start_of_block block_size index =
    let start_key = range_min + index * block_size in
    if ltb start_key range_min || ltb range_max (start_key + block_size - 1)
    then assertion_failed
    else drawn start_key

choice : ℕ → Draw → Draw
choice block_size (drawn index) = start_of_block block_size index
choice block_size failed = failed
choice block_size invalid_block_size = invalid_block_size
choice block_size assertion_failed = assertion_failed
choice block_size waiting = waiting

pub select_random_block_start : ℕ → List (Option ℕ) → Draw
select_random_block_start block_size reads =
    if block_size == 0 || ltb range_size block_size
    then invalid_block_size
    else choice block_size (get_secure_uniform_u128 (range_size / block_size - 1) reads)

-- The numbers that are not rejected fall into whole rounds of `range`.
sample_limit-rounds : (range : ℕ) → sample_limit range ≡ u128_max / range * range
unfolding sample_limit
sample_limit-rounds range = omega (arith, div-add-mod' u128_max range)

-- Rejection sampling has no bias: among the accepted reads each outcome below `range` comes from exactly
-- one read in each of the same number of rounds, the whole number of times that `range` goes into
-- u128::MAX.
pub sample_uniform :
    (range round outcome : ℕ)
    → 0 < range
    → outcome < range
    → ((round * range + outcome < sample_limit range) ↔ (round < u128_max / range))
      × ((round * range + outcome) % range ≡ outcome)
sample_uniform range round outcome pos inside = (
  (λ h. grind (arith, sample_limit-rounds range), λ h. grind (arith, sample_limit-rounds range)),
  mul-add-mod_self_right round range outcome ∙ mod-eq_of_lt inside,
)

-- These numbers are read, and then the rest.
abbrev pub after : List ℕ → List (Option ℕ) → List (Option ℕ)
after [] rest = rest
after (v ∷ vs) rest = some v ∷ after vs rest

abbrev pub AreRejected : ℕ → List ℕ → Type 0
AreRejected limit [] = Unit
AreRejected limit (v ∷ vs) = (limit ≤ v) × AreRejected limit vs

-- What the reads say of a draw below `range`, with the largest multiple of `range` up to u128::MAX for the
-- limit: the first number below the limit decides, modulo `range`; a read that fails before it is the error;
-- and there is no result as long as every read is a number at the limit or above.
abbrev pub IsSampled : ℕ → List (Option ℕ) → Draw → Type 0
IsSampled range reads (drawn n) =
    (vs : List ℕ) × (v : ℕ) × (rest : List (Option ℕ)) × (reads ≡ after vs (some v ∷ rest))
    × AreRejected (u128_max / range * range) vs
    × (v < u128_max / range * range)
    × (n ≡ v % range)
IsSampled range reads failed =
    (vs : List ℕ) × (rest : List (Option ℕ)) × (reads ≡ after vs (none ∷ rest))
    × AreRejected (u128_max / range * range) vs
IsSampled range reads waiting =
    (vs : List ℕ) × (reads ≡ after vs []) × AreRejected (u128_max / range * range) vs
IsSampled range reads invalid_block_size = ⊥
IsSampled range reads assertion_failed = ⊥

rejected-IsSampled :
    (range v : ℕ) (reads : List (Option ℕ)) (d : Draw)
    → u128_max / range * range ≤ v
    → IsSampled range reads d
    → IsSampled range (some v ∷ reads) d
rejected-IsSampled range v reads (drawn n) h (vs, w, rest, e, all, low, out) =
    (v ∷ vs, w, rest, ap (λ l. some v ∷ l) e, (h, all), low, out)
rejected-IsSampled range v reads failed h (vs, rest, e, all) =
    (v ∷ vs, rest, ap (λ l. some v ∷ l) e, (h, all))
rejected-IsSampled range v reads waiting h (vs, e, all) = (v ∷ vs, ap (λ l. some v ∷ l) e, (h, all))
rejected-IsSampled range v reads invalid_block_size h x = elim x [ ]
rejected-IsSampled range v reads assertion_failed h x = elim x [ ]

sample_loop-IsSampled :
    (range : ℕ) (reads : List (Option ℕ)) → IsSampled range reads (sample_loop range reads)
unfolding sample_loop
sample_loop-IsSampled range [] = ([], refl, tt)
sample_loop-IsSampled range (none ∷ reads) = ([], reads, refl, tt)
sample_loop-IsSampled range (some val ∷ reads) =
    let limit = sample_limit-rounds range in
    elim (Bool-cases (ltb val (sample_limit range))) [
      | inl h ↦ rw h ([], val, reads, refl, tt, ground (arith, limit), refl)
      | inr h ↦ rw h (
          rejected-IsSampled range val reads (sample_loop range reads) (ground (arith, limit))
            (sample_loop-IsSampled range reads))
    ]

abbrev index_of : Draw → ℕ
index_of (drawn n) = n
index_of _ = 0

-- A draw below `range`: without a read when there is one outcome.
abbrev pub IsUniform : ℕ → List (Option ℕ) → Draw → Type 0
IsUniform range reads d = ((range ≡ 1) × (d ≡ drawn 0)) ⊎ ((1 < range) × IsSampled range reads d)

below_max : (n : ℕ) → n < u128_max → (n == u128_max) ≡ false
below_max n small = ground arith

get_secure_uniform_u128-IsUniform :
    (max_val : ℕ) (reads : List (Option ℕ))
    → max_val < u128_max
    → IsUniform (max_val + 1) reads (get_secure_uniform_u128 max_val reads)
unfolding get_secure_uniform_u128
get_secure_uniform_u128-IsUniform max_val reads small = elim (Bool-cases (max_val == 0)) [
  | inl h ↦ rw h (inl (ground arith, refl))
  | inr h ↦
      rw (h, below_max max_val small)
        (inr (ground arith, sample_loop-IsSampled (max_val + 1) reads))
]

-- What the choice of a block may be: the start key `range_min + index * block_size` of a block that lies in
-- the range, for an index that is a draw below the number of blocks; the error of a read in that draw; the
-- error for a bad size, which only a bad size gives. An assert that fails is none of these.
abbrev pub IsChoice : ℕ → List (Option ℕ) → Draw → Type 0
IsChoice block_size reads (drawn start) =
    (index : ℕ) × (start ≡ range_min + index * block_size)
    × (index < range_size / block_size)
    × IsUniform (range_size / block_size) reads (drawn index)
    × (range_min ≤ start)
    × (start + block_size ≤ range_max + 1)
IsChoice block_size reads failed = IsUniform (range_size / block_size) reads failed
IsChoice block_size reads invalid_block_size = (block_size ≡ 0) ⊎ (range_size < block_size)
IsChoice block_size reads assertion_failed = ⊥
IsChoice block_size reads waiting = IsUniform (range_size / block_size) reads waiting

drawn-below :
    (range index : ℕ) (reads : List (Option ℕ))
    → IsUniform range reads (drawn index)
    → index < range
drawn-below range index reads (inl (one, e)) =
    let same : index ≡ 0 = ap index_of e in omega (arith, one, same)
drawn-below range index reads (inr (more, x)) =
    let (vs, v, rest, e, all, low, out) = x in
    let small : v % range < range = mod-lt v (omega (arith, more)) in omega (arith, small, out)

start_of_block-IsChoice :
    (block_size index : ℕ) (reads : List (Option ℕ))
    → 0 < block_size
    → IsUniform (range_size / block_size) reads (drawn index)
    → IsChoice block_size reads (start_of_block block_size index)
unfolding start_of_block
start_of_block-IsChoice block_size index reads pos uniform =
    let inside = drawn-below (range_size / block_size) index reads uniform in
    let rounds : range_size / block_size * block_size ≤ range_size =
      div-mul-le_self range_size block_size in
    let room : (index + 1) * block_size ≤ range_size / block_size * block_size =
      mul-le-mul_right block_size (omega arith) in
    let low : ltb (range_min + index * block_size) range_min ≡ false = grind arith in
    let high : ltb range_max (range_min + index * block_size + block_size - 1) ≡ false =
      grind arith in
    rw (low, high) (index, refl, inside, uniform, omega arith, omega arith)

bad_size : (b : ℕ) → (b == 0 || ltb range_size b) ≡ true → (b ≡ 0) ⊎ (range_size < b)
bad_size b h = ground arith

-- The match of `select_random_block_start` on a draw below the number of blocks.
choice-IsChoice :
    (block_size : ℕ) (reads : List (Option ℕ)) (d : Draw)
    → 0 < block_size
    → IsUniform (range_size / block_size) reads d
    → IsChoice block_size reads (choice block_size d)
unfolding choice
choice-IsChoice block_size reads (drawn index) pos u =
    start_of_block-IsChoice block_size index reads pos u
choice-IsChoice block_size reads failed pos u = u
choice-IsChoice block_size reads waiting pos u = u
choice-IsChoice block_size reads invalid_block_size pos (inl (one, e)) = absurd (ground arith)
choice-IsChoice block_size reads invalid_block_size pos (inr (more, x)) = elim x [ ]
choice-IsChoice block_size reads assertion_failed pos (inl (one, e)) = absurd (ground arith)
choice-IsChoice block_size reads assertion_failed pos (inr (more, x)) = elim x [ ]

-- For a block size that is 0 or exceeds the range the choice of a block gives the error for it. For another
-- it is decided by the first 16-byte read that is a failure or a number below the largest multiple of the
-- number of blocks up to u128::MAX: a number gives the start of the block with the index that it is modulo
-- the number of blocks, a whole block in the range, and a failure the error of the read; only while every
-- read is a number at that limit or above there is no result. A single block is chosen without a read, and
-- the asserts never fail.
pub select_random_block_start-IsChoice :
    (block_size : ℕ) (reads : List (Option ℕ))
    → IsChoice block_size reads (select_random_block_start block_size reads)
unfolding select_random_block_start
select_random_block_start-IsChoice block_size reads =
    elim (Bool-cases (block_size == 0 || ltb range_size block_size)) [
      | inl h ↦ rw h (bad_size block_size h)
      | inr h ↦
          let pos : 0 < block_size = ground arith in
          let some_block : 1 ≤ range_size / block_size =
            (le-div_iff_mul-le {x = 1} {y = range_size} pos).1 (ground arith) in
          let count : range_size / block_size - 1 + 1 ≡ range_size / block_size = omega arith in
          let draw = get_secure_uniform_u128 (range_size / block_size - 1) reads in
          rw h (
            choice-IsChoice block_size reads draw pos (
              subst (λ n. IsUniform n reads draw) count
                (get_secure_uniform_u128-IsUniform (range_size / block_size - 1) reads
                  (omega (arith, div-le_self range_size block_size)))))
    ]
