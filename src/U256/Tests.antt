-- ===== src/U256/Tests.antt =====
-- The arithmetic of src/crypto/u256.rs at concrete numbers.
use puzzle71_solver.Prelude.{◌-◌, ◌*◌, ◌^◌, ◌≡◌, ◌≢◌, false, arith}
use puzzle71_solver.U256.{U256, Wide512, IsWords, value, secp256k1_p, zero_u256, gte, mul_wide}
use puzzle71_solver.U256.Field.{IsReduced, Represents, prime}
use puzzle71_solver.U256.Wide.{IsWide, wide_value, mul_wide-value}
use puzzle71_solver.U256.Product.{reduce_512, field_mul, field_pow, field_inv}
use puzzle71_solver.U256.Reduce.{reduce_512_ends, field_mul-Represents}
use puzzle71_solver.U256.Pow.{field_pow-Represents, field_inv-Represents}
use puzzle71_solver.U256.Bytes.{from_be_bytes, to_be_bytes, from_be_bytes-to_be_bytes}

-- The prime less one.
abbrev largest : U256
largest = record {
  l0 = 0xFFFFFFFEFFFFFC2E;
  l1 = 0xFFFFFFFFFFFFFFFF;
  l2 = 0xFFFFFFFFFFFFFFFF;
  l3 = 0xFFFFFFFFFFFFFFFF;
}

largest-IsWords : IsWords largest
largest-IsWords = record { w0 = omega arith; w1 = omega arith; w2 = omega arith; w3 = omega arith }

largest-IsReduced : IsReduced largest
largest-IsReduced = record { words = largest-IsWords; below = omega arith }

-- All eight words at their largest.
abbrev full_wide : Wide512
full_wide = record {
  r0 = 0xFFFFFFFFFFFFFFFF;
  r1 = 0xFFFFFFFFFFFFFFFF;
  r2 = 0xFFFFFFFFFFFFFFFF;
  r3 = 0xFFFFFFFFFFFFFFFF;
  r4 = 0xFFFFFFFFFFFFFFFF;
  r5 = 0xFFFFFFFFFFFFFFFF;
  r6 = 0xFFFFFFFFFFFFFFFF;
  r7 = 0xFFFFFFFFFFFFFFFF;
}

full_wide-IsWide : IsWide full_wide
full_wide-IsWide = record {
  w0 = omega arith;
  w1 = omega arith;
  w2 = omega arith;
  w3 = omega arith;
  w4 = omega arith;
  w5 = omega arith;
  w6 = omega arith;
  w7 = omega arith;
}

mul_wide-value_example :
    IsWide (mul_wide largest largest)
    × (wide_value (mul_wide largest largest) ≡ value largest * value largest)
mul_wide-value_example = mul_wide-value largest largest largest-IsWords largest-IsWords

reduce_512_ends_example : gte (reduce_512 full_wide) secp256k1_p ≡ false
reduce_512_ends_example = reduce_512_ends full_wide full_wide-IsWide

field_mul-Represents_example :
    Represents (field_mul largest largest) (value largest * value largest)
field_mul-Represents_example = field_mul-Represents largest largest largest-IsWords largest-IsWords

field_pow-Represents_example :
    Represents (field_pow largest largest) (value largest ^ value largest)
field_pow-Represents_example =
    field_pow-Represents largest largest largest-IsReduced largest-IsWords

field_inv-Represents_example :
    (value largest ≡ 0 → field_inv largest ≡ zero_u256)
    × (value largest ≢ 0 → Represents (field_inv largest) (value largest ^ (prime - 2)))
field_inv-Represents_example = field_inv-Represents largest largest-IsReduced

from_be_bytes-to_be_bytes_example : from_be_bytes (to_be_bytes largest) ≡ largest
from_be_bytes-to_be_bytes_example = from_be_bytes-to_be_bytes largest largest-IsWords
