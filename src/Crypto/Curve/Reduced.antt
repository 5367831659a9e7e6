-- ===== src/Crypto/Curve/Reduced.antt =====
-- Points of src/crypto/secp256k1.rs whose coordinates are reduced field elements.
use puzzle71_solver.Prelude.{arith}
use puzzle71_solver.U256.{one_u256}
use puzzle71_solver.U256.Field.{IsReduced}
use puzzle71_solver.Crypto.Curve.{AffinePoint}

pub one-IsReduced : IsReduced one_u256
one-IsReduced = omega arith

pub record IsReducedAffine (p : AffinePoint) : Type 0 where
  pub rx : IsReduced p.x
  pub ry : IsReduced p.y
