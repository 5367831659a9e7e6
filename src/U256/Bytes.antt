-- ===== src/U256/Bytes.antt =====
-- The big-endian byte form of src/crypto/u256.rs: `from_be_bytes` and `to_be_bytes`. A byte array is
-- a list; reads of the source's `bytes[offset..offset + 8]` are by position.
use puzzle71_solver.Prelude.{
  ℕ, zero, suc, ◌+◌, ◌*◌, ◌≡◌, List, [], ◌∷◌, ◌++◌, arith, take, u8, ◌>>>◌,
}
use puzzle71_solver.U256.{U256, value, IsWords}

-- `u64::to_be_bytes`.
unfoldable pub word_bytes : ℕ → List ℕ
word_bytes n =
    u8 (n >>> 56)
    ∷ u8 (n >>> 48)
    ∷ u8 (n >>> 40)
    ∷ u8 (n >>> 32)
    ∷ u8 (n >>> 24)
    ∷ u8 (n >>> 16)
    ∷ u8 (n >>> 8)
    ∷ u8 n
    ∷ []

-- `u64::from_be_bytes`, most significant byte first.
unfoldable pub be_number : List ℕ → ℕ → ℕ
be_number [] acc = acc
be_number (b ∷ bs) acc = be_number bs (acc * 256 + b)

abbrev pub drop_bytes : ℕ → List ℕ → List ℕ
drop_bytes zero bs = bs
drop_bytes (suc n) [] = []
drop_bytes (suc n) (b ∷ bs) = drop_bytes n bs

abbrev pub word_at : List ℕ → ℕ → ℕ
word_at bs offset = be_number (take 8 (drop_bytes offset bs)) 0

unfoldable pub from_be_bytes : List ℕ → U256
from_be_bytes bytes = record {
  l0 = word_at bytes 24;
  l1 = word_at bytes 16;
  l2 = word_at bytes 8;
  l3 = word_at bytes 0;
}

unfoldable pub to_be_bytes : U256 → List ℕ
to_be_bytes a = word_bytes a.l3 ++ (word_bytes a.l2 ++ (word_bytes a.l1 ++ word_bytes a.l0))

-- Reading back what `to_be_bytes` wrote gives the number, for limbs that are words.
pub from_be_bytes-to_be_bytes : (a : U256) → IsWords a → from_be_bytes (to_be_bytes a) ≡ a
unfolding from_be_bytes to_be_bytes word_bytes be_number
from_be_bytes-to_be_bytes a w = ground arith

-- For limbs that are words, the 32 bytes are the digits of the number in base 256, most significant first.
pub to_be_bytes-number : (a : U256) → IsWords a → be_number (to_be_bytes a) 0 ≡ value a
unfolding to_be_bytes word_bytes be_number
to_be_bytes-number a w = omega arith
