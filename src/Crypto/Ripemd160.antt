-- ===== src/Crypto/Ripemd160.antt =====
-- src/crypto/ripemd160.rs: the compression of a block, the padded hash, and the one-block hash of a
-- SHA-256 hash, which is the padded hash at 32 bytes.
mod Tests
use puzzle71_solver.Prelude.{
  ℕ, zero, suc, ◌+◌, ◌-◌, ◌*◌, ◌/◌, ◌%◌, ◌^◌, ◌≡◌, refl, arith, List, [], ◌∷◌, ◌++◌, length, take,
  get_or, set, replicate, bit_and, bit_or, bit_xor, u64, leb, if◌then◌else◌,
}
use puzzle71_solver.Crypto.Bytes.{drop, copy_at, ◌+%◌, not32, rotate_left, le32, le64, le32_at}

f1 : ℕ → ℕ → ℕ → ℕ
f1 x y z = bit_xor (bit_xor x y) z

f2 : ℕ → ℕ → ℕ → ℕ
f2 x y z = bit_or (bit_and x y) (bit_and (not32 x) z)

f3 : ℕ → ℕ → ℕ → ℕ
f3 x y z = bit_xor (bit_or x (not32 y)) z

f4 : ℕ → ℕ → ℕ → ℕ
f4 x y z = bit_or (bit_and x z) (bit_and y (not32 z))

f5 : ℕ → ℕ → ℕ → ℕ
f5 x y z = bit_xor x (bit_or y (not32 z))

abbrev rl_table : List ℕ
rl_table =
    0 ∷ 1 ∷ 2 ∷ 3 ∷ 4 ∷ 5 ∷ 6 ∷ 7 ∷ 8 ∷ 9 ∷ 10 ∷ 11 ∷ 12 ∷ 13 ∷ 14 ∷ 15 ∷ 7 ∷ 4 ∷ 13 ∷ 1 ∷ 10 ∷ 6
    ∷ 15 ∷ 3 ∷ 12 ∷ 0 ∷ 9 ∷ 5 ∷ 2 ∷ 14 ∷ 11 ∷ 8 ∷ 3 ∷ 10 ∷ 14 ∷ 4 ∷ 9 ∷ 15 ∷ 8 ∷ 1 ∷ 2 ∷ 7 ∷ 0 ∷ 6
    ∷ 13 ∷ 11 ∷ 5 ∷ 12 ∷ 1 ∷ 9 ∷ 11 ∷ 10 ∷ 0 ∷ 8 ∷ 12 ∷ 4 ∷ 13 ∷ 3 ∷ 7 ∷ 15 ∷ 14 ∷ 5 ∷ 6 ∷ 2 ∷ 4 ∷ 0
    ∷ 5 ∷ 9 ∷ 7 ∷ 12 ∷ 2 ∷ 10 ∷ 14 ∷ 1 ∷ 3 ∷ 8 ∷ 11 ∷ 6 ∷ 15 ∷ 13 ∷ []

abbrev rr_table : List ℕ
rr_table =
    5 ∷ 14 ∷ 7 ∷ 0 ∷ 9 ∷ 2 ∷ 11 ∷ 4 ∷ 13 ∷ 6 ∷ 15 ∷ 8 ∷ 1 ∷ 10 ∷ 3 ∷ 12 ∷ 6 ∷ 11 ∷ 3 ∷ 7 ∷ 0 ∷ 13
    ∷ 5 ∷ 10 ∷ 14 ∷ 15 ∷ 8 ∷ 12 ∷ 4 ∷ 9 ∷ 1 ∷ 2 ∷ 15 ∷ 5 ∷ 1 ∷ 3 ∷ 7 ∷ 14 ∷ 6 ∷ 9 ∷ 11 ∷ 8 ∷ 12 ∷ 2
    ∷ 10 ∷ 0 ∷ 4 ∷ 13 ∷ 8 ∷ 6 ∷ 4 ∷ 1 ∷ 3 ∷ 11 ∷ 15 ∷ 0 ∷ 5 ∷ 12 ∷ 2 ∷ 13 ∷ 9 ∷ 7 ∷ 10 ∷ 14 ∷ 12
    ∷ 15 ∷ 10 ∷ 4 ∷ 1 ∷ 5 ∷ 8 ∷ 7 ∷ 6 ∷ 2 ∷ 13 ∷ 14 ∷ 0 ∷ 3 ∷ 9 ∷ 11 ∷ []

abbrev sl_table : List ℕ
sl_table =
    11 ∷ 14 ∷ 15 ∷ 12 ∷ 5 ∷ 8 ∷ 7 ∷ 9 ∷ 11 ∷ 13 ∷ 14 ∷ 15 ∷ 6 ∷ 7 ∷ 9 ∷ 8 ∷ 7 ∷ 6 ∷ 8 ∷ 13 ∷ 11 ∷ 9
    ∷ 7 ∷ 15 ∷ 7 ∷ 12 ∷ 15 ∷ 9 ∷ 11 ∷ 7 ∷ 13 ∷ 12 ∷ 11 ∷ 13 ∷ 6 ∷ 7 ∷ 14 ∷ 9 ∷ 13 ∷ 15 ∷ 14 ∷ 8 ∷ 13
    ∷ 6 ∷ 5 ∷ 12 ∷ 7 ∷ 5 ∷ 11 ∷ 12 ∷ 14 ∷ 15 ∷ 14 ∷ 15 ∷ 9 ∷ 8 ∷ 9 ∷ 14 ∷ 5 ∷ 6 ∷ 8 ∷ 6 ∷ 5 ∷ 12 ∷ 9
    ∷ 15 ∷ 5 ∷ 11 ∷ 6 ∷ 8 ∷ 13 ∷ 12 ∷ 5 ∷ 12 ∷ 13 ∷ 14 ∷ 11 ∷ 8 ∷ 5 ∷ 6 ∷ []

abbrev sr_table : List ℕ
sr_table =
    8 ∷ 9 ∷ 9 ∷ 11 ∷ 13 ∷ 15 ∷ 15 ∷ 5 ∷ 7 ∷ 7 ∷ 8 ∷ 11 ∷ 14 ∷ 14 ∷ 12 ∷ 6 ∷ 9 ∷ 13 ∷ 15 ∷ 7 ∷ 12 ∷ 8
    ∷ 9 ∷ 11 ∷ 7 ∷ 7 ∷ 12 ∷ 7 ∷ 6 ∷ 15 ∷ 13 ∷ 11 ∷ 9 ∷ 7 ∷ 15 ∷ 11 ∷ 8 ∷ 6 ∷ 6 ∷ 14 ∷ 12 ∷ 13 ∷ 5
    ∷ 14 ∷ 13 ∷ 13 ∷ 7 ∷ 5 ∷ 15 ∷ 5 ∷ 8 ∷ 11 ∷ 14 ∷ 14 ∷ 6 ∷ 14 ∷ 6 ∷ 9 ∷ 12 ∷ 9 ∷ 12 ∷ 5 ∷ 15 ∷ 8
    ∷ 8 ∷ 5 ∷ 12 ∷ 9 ∷ 12 ∷ 5 ∷ 14 ∷ 6 ∷ 8 ∷ 13 ∷ 6 ∷ 5 ∷ 15 ∷ 13 ∷ 11 ∷ 11 ∷ []

abbrev kl_table : List ℕ
kl_table = 0x00000000 ∷ 0x5a827999 ∷ 0x6ed9eba1 ∷ 0x8f1bbcdc ∷ 0xa953fd4e ∷ []

abbrev kr_table : List ℕ
kr_table = 0x50a28be6 ∷ 0x5c4dd124 ∷ 0x6d703ef3 ∷ 0x7a6d76e9 ∷ 0x00000000 ∷ []

-- The five words of a state or of a line.
pub record State : Type 0 where
  pub a : ℕ
  pub b : ℕ
  pub c : ℕ
  pub d : ℕ
  pub e : ℕ

abbrev pub start : State
start = record { a = 0x67452301; b = 0xefcdab89; c = 0x98badcfe; d = 0x10325476; e = 0xc3d2e1f0 }

-- The two `match round` tables.
left_function : ℕ → ℕ → ℕ → ℕ → ℕ
left_function zero = f1
left_function (suc zero) = f2
left_function (suc (suc zero)) = f3
left_function (suc (suc (suc zero))) = f4
left_function _ = f5

right_function : ℕ → ℕ → ℕ → ℕ → ℕ
right_function zero = f5
right_function (suc zero) = f4
right_function (suc (suc zero)) = f3
right_function (suc (suc (suc zero))) = f2
right_function _ = f1

-- One step of a line, with the function's value, the message word, the constant and the rotation.
line_step : ℕ → ℕ → ℕ → ℕ → State → State
line_step f x k s l =
    let t = rotate_left (l.a +% f +% x +% k) s +% l.e in
    record { a = l.e; b = t; c = l.b; d = rotate_left l.c 10; e = l.d }

-- The loop `for i in 0..80` over both lines, as rounds from `i` on.
line_rounds : ℕ → ℕ → List ℕ → State × State → State × State
line_rounds zero i x lines = lines
line_rounds (suc left) i x (l, r) =
    let round = i / 16 in
    let l' =
      line_step (left_function round l.b l.c l.d) (get_or x (get_or rl_table i 0) 0)
        (get_or kl_table round 0) (get_or sl_table i 0) l in
    let r' =
      line_step (right_function round r.b r.c r.d) (get_or x (get_or rr_table i 0) 0)
        (get_or kr_table round 0) (get_or sr_table i 0) r in
    line_rounds left (i + 1) x (l', r')

words : ℕ → ℕ → List ℕ → List ℕ
words zero i block = []
words (suc count) i block = le32_at block (i * 4) ∷ words count (i + 1) block

pub compress_block : State → List ℕ → State
compress_block s block =
    let (l, r) = line_rounds 80 0 (words 16 0 block) (s, s) in
    record {
      a = s.b +% l.c +% r.d;
      b = s.c +% l.d +% r.e;
      c = s.d +% l.e +% r.a;
      d = s.e +% l.a +% r.b;
      e = s.a +% l.b +% r.c;
    }

-- The loop over whole blocks, with the rest of the data; the number of bytes is fuel enough.
whole_blocks : ℕ → State → List ℕ → State × List ℕ
whole_blocks zero s rest = (s, rest)
whole_blocks (suc fuel) s rest =
    let next = whole_blocks fuel (compress_block s (take 64 rest)) (drop 64 rest) in
    if leb 64 (length rest) then next else (s, rest)

abbrev output : State → List ℕ
output s = le32 s.a ++ (le32 s.b ++ (le32 s.c ++ (le32 s.d ++ le32 s.e)))

abbrev zero_block : List ℕ
zero_block = replicate 64 0

-- The padding of the rest: one block, or two where the length does not fit.
pad : ℕ → State × List ℕ → List ℕ
pad bit_len (s, rem) =
    let pad_block = set (copy_at zero_block 0 rem) (length rem) 0x80 in
    if leb 56 (length rem)
    then output (compress_block (compress_block s pad_block) (copy_at zero_block 56 (le64 bit_len)))
    else output (compress_block s (copy_at pad_block 56 (le64 bit_len)))

pub ripemd160 : List ℕ → List ℕ
ripemd160 bytes = pad (u64 (length bytes * 8)) (whole_blocks (length bytes) start bytes)

pub ripemd160_32 : List ℕ → List ℕ
ripemd160_32 sha_output =
    let block = set (copy_at zero_block 0 sha_output) 32 0x80 in
    output (compress_block start (set (set block 56 0x00) 57 0x01))

-- The one-block hash of a SHA-256 hash is the padded RIPEMD-160, at every 32 bytes.
pub ripemd160_32-ripemd160 : (hash : List ℕ) → length hash ≡ 32 → ripemd160_32 hash ≡ ripemd160 hash
unfolding ripemd160_32 ripemd160 pad whole_blocks
ripemd160_32-ripemd160
      (b0 ∷ b1 ∷ b2 ∷ b3 ∷ b4 ∷ b5 ∷ b6 ∷ b7 ∷ b8 ∷ b9 ∷ b10 ∷ b11 ∷ b12 ∷ b13 ∷ b14 ∷ b15 ∷ b16
        ∷ b17 ∷ b18 ∷ b19 ∷ b20 ∷ b21 ∷ b22 ∷ b23 ∷ b24 ∷ b25 ∷ b26 ∷ b27 ∷ b28 ∷ b29 ∷ b30 ∷ b31
        ∷ [])
      e =
    refl
ripemd160_32-ripemd160 _ e = absurd (omega arith)
