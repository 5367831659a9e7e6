-- ===== src/Crypto/Ripemd160/Tests.antt =====
-- Test vectors for the hash.
use puzzle71_solver.Prelude.{◌≡◌, refl, [], ◌∷◌}
use puzzle71_solver.Crypto.Bytes.{rotate_left}
use puzzle71_solver.Crypto.Ripemd160.{
  f1, f2, f3, f4, f5, left_function, right_function, line_step, line_rounds, words, compress_block,
  whole_blocks, pad, ripemd160,
}

ripemd160_abc :
    ripemd160 (97 ∷ 98 ∷ 99 ∷ [])
    ≡ 0x8e ∷ 0xb2 ∷ 0x08 ∷ 0xf7 ∷ 0xe0 ∷ 0x5d ∷ 0x98 ∷ 0x7a ∷ 0x9b ∷ 0x04 ∷ 0x4a ∷ 0x8e ∷ 0x98
      ∷ 0xc6 ∷ 0xb0 ∷ 0x87 ∷ 0xf1 ∷ 0x5a ∷ 0x0b ∷ 0xfc ∷ []
unfolding f1 f2 f3 f4 f5 left_function right_function line_step line_rounds words compress_block
    whole_blocks pad ripemd160 rotate_left
ripemd160_abc = refl
