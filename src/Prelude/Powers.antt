-- ===== src/Prelude/Powers.antt =====
-- Powers of two, by which delays grow.
use Prim.Native.Nat.{ℕ, zero, suc, ◌^◌, ◌≤◌}
use native.Mathlib.Omega.{arith}

pub two_pow_pos : (n : ℕ) → 1 ≤ 2 ^ n
two_pow_pos zero = omega arith
two_pow_pos (suc n) = omega (arith, two_pow_pos n)
