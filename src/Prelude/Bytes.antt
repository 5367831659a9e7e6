-- ===== src/Prelude/Bytes.antt =====
-- Byte strings: equality, and which bytes occur.
use Prim.Native.Nat.{ℕ}
use mathlib.Core.Path.{◌≡◌, refl, ap₂}
use mathlib.Core.Bool.{Bool, true, false, ◌&&◌, ◌||◌}
use mathlib.Core.List.{List, [], ◌∷◌, ◌++◌}
use native.Mathlib.Omega.{arith}
use puzzle71_solver.Prelude.Tests.{◌==◌}

abbrev pub same_bytes : List ℕ → List ℕ → Bool
same_bytes [] [] = true
same_bytes (x ∷ xs) (y ∷ ys) = (x == y) && same_bytes xs ys
same_bytes _ _ = false

pub same_bytes_refl : (xs : List ℕ) → same_bytes xs xs ≡ true
same_bytes_refl [] = refl
same_bytes_refl (x ∷ xs) = ground (arith, same_bytes_refl xs)

pub same_bytes-≡ : (xs ys : List ℕ) → same_bytes xs ys ≡ true → xs ≡ ys
same_bytes-≡ [] [] h = refl
same_bytes-≡ (x ∷ xs) (y ∷ ys) h = ap₂ ◌∷◌ (ground arith) (same_bytes-≡ xs ys (ground arith))
same_bytes-≡ [] (y ∷ ys) h = absurd (ground arith)
same_bytes-≡ (x ∷ xs) [] h = absurd (ground arith)

-- Whether a byte occurs.
abbrev pub has : ℕ → List ℕ → Bool
has b [] = false
has b (x ∷ xs) = (x == b) || has b xs

pub has-append : (b : ℕ) (xs ys : List ℕ) → has b (xs ++ ys) ≡ has b xs || has b ys
has-append b [] ys = refl
has-append b (x ∷ xs) ys = ground (arith, has-append b xs ys)
