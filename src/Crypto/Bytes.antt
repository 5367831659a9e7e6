-- ===== src/Crypto/Bytes.antt =====
-- Byte arrays as lists, and the operations on slices and 32-bit words that src/crypto/sha256.rs and
-- src/crypto/ripemd160.rs use.
use puzzle71_solver.Prelude.{
  ℕ, zero, suc, ◌+◌, ◌-◌, ◌*◌, ◌^◌, List, [], ◌∷◌, ◌++◌, length, get_or, bit_or, bit_xor, u8, u32,
  ◌>>>◌,
}

abbrev pub drop : ℕ → List ℕ → List ℕ
drop zero xs = xs
drop (suc n) [] = []
drop (suc n) (x ∷ xs) = drop n xs

-- `block[offset..offset + bytes.len()].copy_from_slice(bytes)`.
abbrev pub copy_at : List ℕ → ℕ → List ℕ → List ℕ
copy_at block zero bytes = bytes ++ drop (length bytes) block
copy_at [] (suc offset) bytes = bytes
copy_at (b ∷ block) (suc offset) bytes = b ∷ copy_at block offset bytes

-- `wrapping_add`.
infixl 65 ◌+%◌
abbrev pub ◌+%◌ : ℕ → ℕ → ℕ
x +% y = u32 (x + y)

-- `!x`.
abbrev pub not32 : ℕ → ℕ
not32 x = bit_xor x 0xffffffff

unfoldable pub rotate_right : ℕ → ℕ → ℕ
rotate_right x n = bit_or (x >>> n) (u32 (x * 2 ^ (32 - n)))

unfoldable pub rotate_left : ℕ → ℕ → ℕ
rotate_left x n = bit_or (u32 (x * 2 ^ n)) (x >>> (32 - n))

abbrev pub be32 : ℕ → List ℕ
be32 x = u8 (x >>> 24) ∷ u8 (x >>> 16) ∷ u8 (x >>> 8) ∷ u8 x ∷ []

abbrev pub le32 : ℕ → List ℕ
le32 x = u8 x ∷ u8 (x >>> 8) ∷ u8 (x >>> 16) ∷ u8 (x >>> 24) ∷ []

abbrev pub be64 : ℕ → List ℕ
be64 x = be32 (x >>> 32) ++ be32 (u32 x)

abbrev pub le64 : ℕ → List ℕ
le64 x = le32 (u32 x) ++ le32 (x >>> 32)

-- `u32::from_be_bytes` and `u32::from_le_bytes` of the four bytes at an offset.
abbrev pub be32_at : List ℕ → ℕ → ℕ
be32_at bs i =
    get_or bs i 0 * 2 ^ 24
    + get_or bs (i + 1) 0 * 2 ^ 16
    + get_or bs (i + 2) 0 * 2 ^ 8
    + get_or bs (i + 3) 0

abbrev pub le32_at : List ℕ → ℕ → ℕ
le32_at bs i =
    get_or bs i 0
    + get_or bs (i + 1) 0 * 2 ^ 8
    + get_or bs (i + 2) 0 * 2 ^ 16
    + get_or bs (i + 3) 0 * 2 ^ 24
