-- ===== src/Crypto/Sha256.antt =====
-- src/crypto/sha256.rs: the compression of a block, the padded hash, and the one-block hash of a
-- compressed public key, which is the padded hash at 33 bytes.
mod Tests
use puzzle71_solver.Prelude.{
  ℕ, zero, suc, ◌+◌, ◌-◌, ◌*◌, ◌/◌, ◌%◌, ◌^◌, ◌≡◌, refl, arith, List, [], ◌∷◌, ◌++◌, length, take,
  get_or, set, replicate, bit_and, bit_xor, u64, ◌>>>◌, leb, if◌then◌else◌,
}
use puzzle71_solver.Crypto.Bytes.{drop, copy_at, ◌+%◌, not32, rotate_right, be32, be64, be32_at}

abbrev k_table : List ℕ
k_table =
    0x428a2f98 ∷ 0x71374491 ∷ 0xb5c0fbcf ∷ 0xe9b5dba5 ∷ 0x3956c25b ∷ 0x59f111f1 ∷ 0x923f82a4
    ∷ 0xab1c5ed5 ∷ 0xd807aa98 ∷ 0x12835b01 ∷ 0x243185be ∷ 0x550c7dc3 ∷ 0x72be5d74 ∷ 0x80deb1fe
    ∷ 0x9bdc06a7 ∷ 0xc19bf174 ∷ 0xe49b69c1 ∷ 0xefbe4786 ∷ 0x0fc19dc6 ∷ 0x240ca1cc ∷ 0x2de92c6f
    ∷ 0x4a7484aa ∷ 0x5cb0a9dc ∷ 0x76f988da ∷ 0x983e5152 ∷ 0xa831c66d ∷ 0xb00327c8 ∷ 0xbf597fc7
    ∷ 0xc6e00bf3 ∷ 0xd5a79147 ∷ 0x06ca6351 ∷ 0x14292967 ∷ 0x27b70a85 ∷ 0x2e1b2138 ∷ 0x4d2c6dfc
    ∷ 0x53380d13 ∷ 0x650a7354 ∷ 0x766a0abb ∷ 0x81c2c92e ∷ 0x92722c85 ∷ 0xa2bfe8a1 ∷ 0xa81a664b
    ∷ 0xc24b8b70 ∷ 0xc76c51a3 ∷ 0xd192e819 ∷ 0xd6990624 ∷ 0xf40e3585 ∷ 0x106aa070 ∷ 0x19a4c116
    ∷ 0x1e376c08 ∷ 0x2748774c ∷ 0x34b0bcb5 ∷ 0x391c0cb3 ∷ 0x4ed8aa4a ∷ 0x5b9cca4f ∷ 0x682e6ff3
    ∷ 0x748f82ee ∷ 0x78a5636f ∷ 0x84c87814 ∷ 0x8cc70208 ∷ 0x90befffa ∷ 0xa4506ceb ∷ 0xbef9a3f7
    ∷ 0xc67178f2 ∷ []

-- The eight words of the state.
pub record State : Type 0 where
  pub a : ℕ
  pub b : ℕ
  pub c : ℕ
  pub d : ℕ
  pub e : ℕ
  pub f : ℕ
  pub g : ℕ
  pub h : ℕ

abbrev pub h0 : State
h0 = record {
  a = 0x6a09e667;
  b = 0xbb67ae85;
  c = 0x3c6ef372;
  d = 0xa54ff53a;
  e = 0x510e527f;
  f = 0x9b05688c;
  g = 0x1f83d9ab;
  h = 0x5be0cd19;
}

ch : ℕ → ℕ → ℕ → ℕ
ch x y z = bit_xor (bit_and x y) (bit_and (not32 x) z)

maj : ℕ → ℕ → ℕ → ℕ
maj x y z = bit_xor (bit_xor (bit_and x y) (bit_and x z)) (bit_and y z)

sigma0 : ℕ → ℕ
sigma0 x = bit_xor (bit_xor (rotate_right x 2) (rotate_right x 13)) (rotate_right x 22)

sigma1 : ℕ → ℕ
sigma1 x = bit_xor (bit_xor (rotate_right x 6) (rotate_right x 11)) (rotate_right x 25)

gamma0 : ℕ → ℕ
gamma0 x = bit_xor (bit_xor (rotate_right x 7) (rotate_right x 18)) (x >>> 3)

gamma1 : ℕ → ℕ
gamma1 x = bit_xor (bit_xor (rotate_right x 17) (rotate_right x 19)) (x >>> 10)

-- The first sixteen words of the schedule, then the loop `for i in 16..64`, as rounds from `i` on.
first_words : ℕ → ℕ → List ℕ → List ℕ
first_words zero i block = []
first_words (suc rounds) i block = be32_at block (i * 4) ∷ first_words rounds (i + 1) block

more_words : ℕ → ℕ → List ℕ → List ℕ
more_words zero i w = w
more_words (suc rounds) i w =
    let word =
      gamma1 (get_or w (i - 2) 0)
      +% get_or w (i - 7) 0
      +% gamma0 (get_or w (i - 15) 0)
      +% get_or w (i - 16) 0 in
    more_words rounds (i + 1) (w ++ word ∷ [])

-- One round of the main loop.
round : ℕ → ℕ → State → State
round k w s =
    let t1 = s.h +% sigma1 s.e +% ch s.e s.f s.g +% k +% w in
    let t2 = sigma0 s.a +% maj s.a s.b s.c in
    record { a = t1 +% t2; b = s.a; c = s.b; d = s.c; e = s.d +% t1; f = s.e; g = s.f; h = s.g }

rounds : List ℕ → List ℕ → State → State
rounds [] ws s = s
rounds (k ∷ ks) [] s = s
rounds (k ∷ ks) (w ∷ ws) s = rounds ks ws (round k w s)

pub compress_block : State → List ℕ → State
compress_block s block =
    let w = more_words 48 16 (first_words 16 0 block) in
    let t = rounds k_table w s in
    record {
      a = s.a +% t.a;
      b = s.b +% t.b;
      c = s.c +% t.c;
      d = s.d +% t.d;
      e = s.e +% t.e;
      f = s.f +% t.f;
      g = s.g +% t.g;
      h = s.h +% t.h;
    }

-- The loop over whole blocks, with the rest of the data; each round takes 64 bytes, so the number of
-- bytes is fuel enough.
whole_blocks : ℕ → State → List ℕ → State × List ℕ
whole_blocks zero s rest = (s, rest)
whole_blocks (suc fuel) s rest =
    let next = whole_blocks fuel (compress_block s (take 64 rest)) (drop 64 rest) in
    if leb 64 (length rest) then next else (s, rest)

abbrev output : State → List ℕ
output s =
    be32 s.a
    ++ (be32 s.b ++ (be32 s.c ++ (be32 s.d ++ (be32 s.e ++ (be32 s.f ++ (be32 s.g ++ be32 s.h))))))

abbrev zero_block : List ℕ
zero_block = replicate 64 0

-- The padding of the rest: one block, or two where the length does not fit.
pad : ℕ → State × List ℕ → List ℕ
pad bit_len (s, rem) =
    let pad_block = set (copy_at zero_block 0 rem) (length rem) 0x80 in
    if leb 56 (length rem)
    then output (compress_block (compress_block s pad_block) (copy_at zero_block 56 (be64 bit_len)))
    else output (compress_block s (copy_at pad_block 56 (be64 bit_len)))

pub sha256 : List ℕ → List ℕ
sha256 bytes = pad (u64 (length bytes * 8)) (whole_blocks (length bytes) h0 bytes)

pub sha256_33 : List ℕ → List ℕ
sha256_33 pubkey =
    let block = set (copy_at zero_block 0 pubkey) 33 0x80 in
    output (compress_block h0 (set (set block 62 0x01) 63 0x08))

pub double_sha256 : List ℕ → List ℕ
double_sha256 bytes = sha256 (sha256 bytes)

-- The one-block hash of a compressed public key is the padded SHA-256, at every 33 bytes.
pub sha256_33-sha256 : (pubkey : List ℕ) → length pubkey ≡ 33 → sha256_33 pubkey ≡ sha256 pubkey
unfolding sha256_33 sha256 pad whole_blocks
sha256_33-sha256
      (b0 ∷ b1 ∷ b2 ∷ b3 ∷ b4 ∷ b5 ∷ b6 ∷ b7 ∷ b8 ∷ b9 ∷ b10 ∷ b11 ∷ b12 ∷ b13 ∷ b14 ∷ b15 ∷ b16
        ∷ b17 ∷ b18 ∷ b19 ∷ b20 ∷ b21 ∷ b22 ∷ b23 ∷ b24 ∷ b25 ∷ b26 ∷ b27 ∷ b28 ∷ b29 ∷ b30 ∷ b31
        ∷ b32 ∷ [])
      e =
    refl
sha256_33-sha256 _ e = absurd (omega arith)

-- A hash has 32 bytes.
pub length-sha256_33 : (pubkey : List ℕ) → length (sha256_33 pubkey) ≡ 32
unfolding sha256_33
length-sha256_33 pubkey = refl
