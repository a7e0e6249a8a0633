-- ===== src/Operation/Backoff.antt =====
-- The delay between two reconciliations, in internal/operation/manager.go.
use Prim.Native.Nat.{min}
use geoflow_updater.Prelude.{two_pow_pos, ℕ, zero, suc, ◌+◌, ◌-◌, ◌*◌, ◌^◌, ◌≤◌, ◌≡◌, arith}
use geoflow_updater.Operation.Recovery.{backoff_loop, reconciliation_backoff}

double_mul : (d x : ℕ) → d * (x + x) ≡ d * 2 * x
double_mul zero x = omega arith
double_mul (suc d) x = grind (arith, double_mul d x)

shift : (d n : ℕ) → d * 2 ^ suc n ≡ d * 2 * 2 ^ n
shift d n = grind (arith, double_mul d (2 ^ n))

le_mul : (a b : ℕ) → 1 ≤ b → a ≤ a * b
le_mul a zero h = absurd (omega arith)
le_mul a (suc b) h = omega arith

-- Doubled once for each attempt that is left, up to the bound.
backoff_loop-min :
    (attempts delay : ℕ)
    → 1 ≤ delay
    → delay ≤ 900
    → backoff_loop attempts delay ≡ min 900 (delay * 2 ^ attempts)
unfolding backoff_loop
backoff_loop-min zero delay h k = omega arith
backoff_loop-min (suc attempts) delay h k = ground (
  arith,
  shift delay attempts,
  le_mul (delay * 2) (2 ^ attempts) (two_pow_pos attempts),
  backoff_loop-min attempts (delay * 2),
  le_mul delay (2 ^ suc attempts) (two_pow_pos (suc attempts)),
)

-- The delay after a number of attempts is thirty seconds, doubled for each attempt after the first,
-- and at most a quarter of an hour.
pub reconciliation_backoff-min :
    (attempts : ℕ) → reconciliation_backoff attempts ≡ min 900 (30 * 2 ^ (attempts - 1))
unfolding reconciliation_backoff
reconciliation_backoff-min attempts = backoff_loop-min (attempts - 1) 30 (omega arith) (omega arith)

-- Never less than half a minute, never more than a quarter of an hour.
pub reconciliation_backoff-bounds :
    (attempts : ℕ)
    → (30 ≤ reconciliation_backoff attempts) × (reconciliation_backoff attempts ≤ 900)
reconciliation_backoff-bounds attempts =
    rw (reconciliation_backoff-min attempts)
      (omega (arith, le_mul 30 (2 ^ (attempts - 1)) (two_pow_pos (attempts - 1))), omega arith)
