-- ===== src/Prelude/Bytes.antt =====
-- Facts about every number of a small range, by evaluation.
use Prim.Native.Nat.{ℕ, zero, suc, ◌<◌}
use mathlib.Core.Path.{◌≡◌}
use mathlib.Core.Bool.{Bool, true, false}
use native.Mathlib.Omega.{arith}
use chess_games.Prelude.Tests.{if◌then◌else◌}
use chess_games.Prelude.{Bool, arith, false, suc, true, zero, ℕ, ◌<◌, ◌≡◌}

-- Does the test hold of every number below the bound?
unfoldable pub holds_below : (ℕ → Bool) → ℕ → Bool
holds_below test zero = true
holds_below test (suc bound) = if test bound then holds_below test bound else false

pub holds_below-test :
    (test : ℕ → Bool) (bound k : ℕ) → k < bound → holds_below test bound ≡ true → test k ≡ true
unfolding holds_below
holds_below-test test zero k lt h = elim lt [ ]
holds_below-test test (suc bound) k lt h = ground (arith, holds_below-test test bound k)
