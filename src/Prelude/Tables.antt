-- ===== src/Prelude/Tables.antt =====
-- Tables: a test of all numbers below a bound, decided by running it.
use Prim.Native.Nat.{ℕ, zero, suc, ◌<◌}
use mathlib.Core.Path.{◌≡◌}
use mathlib.Core.Bool.{Bool, true, ◌&&◌}
use native.Mathlib.Omega.{arith}

-- The test passes for each number below the bound, the greatest first.
unfoldable pub every_below : (ℕ → Bool) → ℕ → Bool
every_below test zero = true
every_below test (suc bound) = test bound && every_below test bound

pub every_below-lt :
    (test : ℕ → Bool) (bound : ℕ) {n : ℕ}
    → n < bound
    → every_below test bound ≡ true
    → test n ≡ true
unfolding every_below
every_below-lt test zero {n} lt h = absurd (omega (arith, lt))
every_below-lt test (suc bound) {n} lt h =
    let rest = every_below-lt test bound {n = n} in ground (arith, rest)
