-- ===== src/Crypto/Sha256/Tests.antt =====
-- Test vectors for the hash.
use puzzle71_solver.Prelude.{◌≡◌, refl, [], ◌∷◌}
use puzzle71_solver.Crypto.Bytes.{rotate_right}
use puzzle71_solver.Crypto.Sha256.{
  ch, maj, sigma0, sigma1, gamma0, gamma1, first_words, more_words, round, rounds, compress_block,
  whole_blocks, pad, sha256,
}

sha256_abc :
    sha256 (97 ∷ 98 ∷ 99 ∷ [])
    ≡ 0xba ∷ 0x78 ∷ 0x16 ∷ 0xbf ∷ 0x8f ∷ 0x01 ∷ 0xcf ∷ 0xea ∷ 0x41 ∷ 0x41 ∷ 0x40 ∷ 0xde ∷ 0x5d
      ∷ 0xae ∷ 0x22 ∷ 0x23 ∷ 0xb0 ∷ 0x03 ∷ 0x61 ∷ 0xa3 ∷ 0x96 ∷ 0x17 ∷ 0x7a ∷ 0x9c ∷ 0xb4 ∷ 0x10
      ∷ 0xff ∷ 0x61 ∷ 0xf2 ∷ 0x00 ∷ 0x15 ∷ 0xad ∷ []
unfolding ch maj sigma0 sigma1 gamma0 gamma1 first_words more_words round rounds compress_block
    whole_blocks pad sha256 rotate_right
sha256_abc = refl
