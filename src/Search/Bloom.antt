-- ===== src/Search/Bloom.antt =====
-- `CompactBloomFilter` of src/search/duplicate_filter.rs. It never denies a block that was inserted.
use puzzle71_solver.Prelude.{
  ℕ, zero, suc, ◌+◌, ◌-◌, ◌*◌, ◌/◌, ◌%◌, ◌^◌, ◌≤◌, ◌<◌, ◌≡◌, ◌↔◌, inl, inr, Bool, true, false, not,
  arith, ◌==◌, if◌then◌else◌, Bool-cases, refl, max, ◌∙◌, bit_and, bit_or, bit_xor, u64, ◌>>>◌,
  List, [], ◌∷◌, length, get_or, set, replicate,
}
use native.Mathlib.Nat.{mod-lt, pow-suc, one-le-pow}
use puzzle71_solver.Prelude.Bits.{bit, bit-bit_or, bit-two_pow, bit_and-two_pow_iff}

pub record CompactBloomFilter : Type 0 where
  pub bits : List ℕ
  pub num_bits : ℕ

unfoldable pub new : ℕ → CompactBloomFilter
new num_bits = record { bits = replicate ((num_bits + 63) / 64) 0; num_bits = num_bits }

-- The four positions of an item, by wrapping products.
unfoldable pub hashes : ℕ → ℕ → List ℕ
hashes num_bits item =
    let h1 = u64 (item * 0x517cc1b727220a95) in
    let h2 = bit_xor (u64 (item * 0x9e3779b97f4a7c15)) (item >>> 32) in
    let h3 = u64 (item * 0xbf58476d1ce4e5b9) in
    let h4 = u64 (item * 0x94d049bb133111eb) in
    (h1 % num_bits) ∷ (h2 % num_bits) ∷ (h3 % num_bits) ∷ (h4 % num_bits) ∷ []

-- One round of `insert`: the bit at position `h` is set.
unfoldable pub set_bit : List ℕ → ℕ → List ℕ
set_bit bits h = set bits (h / 64) (bit_or (get_or bits (h / 64) 0) (2 ^ (h % 64)))

-- One round of `may_contain`: whether the bit at position `h` is set.
unfoldable pub has_bit : List ℕ → ℕ → Bool
has_bit bits h = not (bit_and (get_or bits (h / 64) 0) (2 ^ (h % 64)) == 0)

unfoldable pub set_all : List ℕ → List ℕ → List ℕ
set_all bits [] = bits
set_all bits (h ∷ hs) = set_all (set_bit bits h) hs

unfoldable pub has_all : List ℕ → List ℕ → Bool
has_all bits [] = true
has_all bits (h ∷ hs) = if has_bit bits h then has_all bits hs else false

pub insert : CompactBloomFilter → ℕ → CompactBloomFilter
insert f item = record f { bits = set_all f.bits (hashes f.num_bits item) }

pub may_contain : CompactBloomFilter → ℕ → Bool
may_contain f item = has_all f.bits (hashes f.num_bits item)

-- `bloom.bits.fill(u64::MAX)`.
pub saturate : CompactBloomFilter → CompactBloomFilter
saturate f = record f { bits = replicate (length f.bits) (2 ^ 64 - 1) }

-- There is a bit, and the words hold all of them, so no position is out of range.
pub record IsSized (f : CompactBloomFilter) : Type 0 where
  pub some_bit : 0 < f.num_bits
  pub room : f.num_bits ≤ 64 * length f.bits

length-set : (xs : List ℕ) (i v : ℕ) → length (set xs i v) ≡ length xs
length-set [] i v = refl
length-set (x ∷ xs) zero v = refl
length-set (x ∷ xs) (suc i) v = omega (arith, length-set xs i v)

get_or-set :
    (xs : List ℕ) (i j v : ℕ)
    → i < length xs
    → get_or (set xs i v) j 0 ≡ (if i == j then v else get_or xs j 0)
get_or-set [] i j v h = absurd (omega arith)
get_or-set (x ∷ xs) zero zero v h = ground arith
get_or-set (x ∷ xs) zero (suc j) v h = ground arith
get_or-set (x ∷ xs) (suc i) zero v h = ground arith
get_or-set (x ∷ xs) (suc i) (suc j) v h = ground (arith, get_or-set xs i j v)

-- A bit is set when its position in the word is 1.
has_bit_iff :
    (bits : List ℕ) (h : ℕ) → (has_bit bits h ≡ false) ↔ (bit (get_or bits (h / 64) 0) (h % 64) ≡ 0)
unfolding has_bit
has_bit_iff bits h = ground (arith, bit_and-two_pow_iff (get_or bits (h / 64) 0) (h % 64))

-- The bit at a position after the round for `h`.
set_bit-word :
    (bits : List ℕ) (h k : ℕ)
    → h / 64 < length bits
    → bit (get_or (set_bit bits h) (k / 64) 0) (k % 64) ≡ (
        if h / 64 == k / 64
        then max (bit (get_or bits (k / 64) 0) (k % 64)) (bit (2 ^ (h % 64)) (k % 64))
        else bit (get_or bits (k / 64) 0) (k % 64))
unfolding set_bit
set_bit-word bits h k room =
    let w = bit_or (get_or bits (h / 64) 0) (2 ^ (h % 64)) in
    rw (get_or-set bits (h / 64) (k / 64) w room) (elim (Bool-cases (h / 64 == k / 64)) [
      | inl same ↦
          let e : h / 64 ≡ k / 64 = ground arith in
          rw same (bit-bit_or (get_or bits (h / 64) 0) (2 ^ (h % 64)) (k % 64) ∙ rw e)
      | inr other ↦ rw other
    ])

set_bit-keeps :
    (bits : List ℕ) (h k : ℕ)
    → h / 64 < length bits
    → has_bit bits k ≡ true
    → has_bit (set_bit bits h) k ≡ true
set_bit-keeps bits h k room old =
    ground (arith, set_bit-word bits h k room, has_bit_iff bits k, has_bit_iff (set_bit bits h) k)

set_bit-sets : (bits : List ℕ) (h : ℕ) → h / 64 < length bits → has_bit (set_bit bits h) h ≡ true
set_bit-sets bits h room =
    ground (arith, set_bit-word bits h h room, bit-two_pow (h % 64), has_bit_iff (set_bit bits h) h)

length-set_bit : (bits : List ℕ) (h : ℕ) → length (set_bit bits h) ≡ length bits
unfolding set_bit
length-set_bit bits h = length-set bits (h / 64) (bit_or (get_or bits (h / 64) 0) (2 ^ (h % 64)))

-- All positions lie in the words.
abbrev AllInside : ℕ → List ℕ → Type 0
AllInside n [] = Unit
AllInside n (h ∷ hs) = (h / 64 < n) × AllInside n hs

hashes-AllInside :
    (f : CompactBloomFilter) (item : ℕ)
    → IsSized f
    → AllInside (length f.bits) (hashes f.num_bits item)
unfolding hashes
hashes-AllInside f item z = (inside _, (inside _, (inside _, (inside _, tt))))
  where
    inside : (n : ℕ) → n % f.num_bits / 64 < length f.bits
    inside n = omega (arith, z.room, mod-lt n z.some_bit)

set_all-keeps :
    (bits hs : List ℕ) (k : ℕ)
    → AllInside (length bits) hs
    → has_bit bits k ≡ true
    → has_bit (set_all bits hs) k ≡ true
unfolding set_all
set_all-keeps bits [] k inside old = old
set_all-keeps bits (h ∷ hs) k inside old =
    set_all-keeps (set_bit bits h) hs k (rw (length-set_bit bits h) inside.1)
      (set_bit-keeps bits h k inside.0 old)

length-set_all : (bits hs : List ℕ) → length (set_all bits hs) ≡ length bits
unfolding set_all
length-set_all bits [] = refl
length-set_all bits (h ∷ hs) = length-set_all (set_bit bits h) hs ∙ length-set_bit bits h

has_all-keeps :
    (bits hs ks : List ℕ)
    → AllInside (length bits) hs
    → has_all bits ks ≡ true
    → has_all (set_all bits hs) ks ≡ true
unfolding has_all
has_all-keeps bits hs [] inside old = refl
has_all-keeps bits hs (k ∷ ks) inside old =
    ground (arith, set_all-keeps bits hs k inside, has_all-keeps bits hs ks inside)

set_all-sets : (bits hs : List ℕ) → AllInside (length bits) hs → has_all (set_all bits hs) hs ≡ true
unfolding set_all has_all
set_all-sets bits [] inside = refl
set_all-sets bits (h ∷ hs) inside =
    let inside' : AllInside (length (set_bit bits h)) hs = rw (length-set_bit bits h) inside.1 in
    ground (
      arith,
      set_all-keeps (set_bit bits h) hs h inside' (set_bit-sets bits h inside.0),
      set_all-sets (set_bit bits h) hs inside',
    )

-- A filter that is sized never denies what was inserted: the inserted item may be contained, every item
-- that could be contained before still may be, and the filter stays sized.
pub insert-may_contain :
    (f : CompactBloomFilter) (item : ℕ)
    → IsSized f
    → IsSized (insert f item)
      × (may_contain (insert f item) item ≡ true)
      × ((other : ℕ) → may_contain f other ≡ true → may_contain (insert f item) other ≡ true)
unfolding insert may_contain
insert-may_contain f item z =
    let inside = hashes-AllInside f item z in
    (
      record {
        some_bit = z.some_bit;
        room = rw (length-set_all f.bits (hashes f.num_bits item)) z.room;
      },
      set_all-sets f.bits (hashes f.num_bits item) inside,
      λ other old.
          has_all-keeps f.bits (hashes f.num_bits item) (hashes f.num_bits other) inside old,
    )

bit-ones : (n k : ℕ) → k < n → bit (2 ^ n - 1) k ≡ 1
bit-ones zero k h = absurd (omega arith)
bit-ones (suc n) zero h = omega (arith, pow-suc 2 n, one-le-pow n 2 (omega arith))
bit-ones (suc n) (suc k) h =
    let half : (2 ^ suc n - 1) / 2 ≡ 2 ^ n - 1 =
      omega (arith, pow-suc 2 n, one-le-pow n 2 (omega arith)) in
    rw half (bit-ones n k (omega arith))

get_or-replicate : (n i v : ℕ) → i < n → get_or (replicate n v) i 0 ≡ v
get_or-replicate zero i v h = absurd (omega arith)
get_or-replicate (suc n) zero v h = refl
get_or-replicate (suc n) (suc i) v h = get_or-replicate n i v (omega arith)

length-replicate : (n v : ℕ) → length (replicate n v) ≡ n
length-replicate zero v = refl
length-replicate (suc n) v = omega (arith, length-replicate n v)

has_all-saturated :
    (n : ℕ) (hs : List ℕ) → AllInside n hs → has_all (replicate n (2 ^ 64 - 1)) hs ≡ true
unfolding has_all
has_all-saturated n [] inside = refl
has_all-saturated n (h ∷ hs) inside =
    let word = get_or-replicate n (h / 64) (2 ^ 64 - 1) inside.0 in
    let one = bit-ones 64 (h % 64) (omega arith) in
    let word_bit : bit (get_or (replicate n (2 ^ 64 - 1)) (h / 64) 0) (h % 64) ≡ 1 = rw word one in
    ground
      (arith, has_bit_iff (replicate n (2 ^ 64 - 1)) h, word_bit, has_all-saturated n hs inside.1)

-- A filter that is sized stays so when it is saturated, and then denies nothing.
pub saturate-may_contain :
    (f : CompactBloomFilter) (item : ℕ)
    → IsSized f
    → IsSized (saturate f) × (may_contain (saturate f) item ≡ true)
unfolding saturate may_contain
saturate-may_contain f item z = (
  record {
    some_bit = z.some_bit;
    room = rw (length-replicate (length f.bits) (2 ^ 64 - 1)) z.room;
  },
  has_all-saturated (length f.bits) (hashes f.num_bits item) (hashes-AllInside f item z),
)

pub new-IsSized : (n : ℕ) → 0 < n → IsSized (new n)
unfolding new
new-IsSized n h = omega (arith, length-replicate ((n + 63) / 64) 0)
