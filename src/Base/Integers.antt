-- ===== src/Base/Integers.antt =====
-- Arithmetic of ℤ.
use Prim.Native.Nat.{ℕ, suc, ◌+◌, ◌-◌}
use mathlib.Core.Path.{◌≡◌}
use mathlib.Core.Bool.{Bool, true, false}
use native.Mathlib.Omega.{arith}
use ss_prep.Base.Tests.{if◌then◌else◌, leb}
use ss_prep.Base.Values.{ℤ, pos, negsuc}

-- m - n
unfoldable pub diff : ℕ → ℕ → ℤ
diff m n = if leb n m then pos (m - n) else negsuc (n - m - 1)

infixl 30 ◌+ℤ◌ ◌-ℤ◌
unfoldable pub ◌+ℤ◌ : ℤ → ℤ → ℤ
unfolding diff
◌+ℤ◌ (pos m) (pos n) = pos (m + n)
◌+ℤ◌ (pos m) (negsuc n) = diff m (suc n)
◌+ℤ◌ (negsuc m) (pos n) = diff n (suc m)
◌+ℤ◌ (negsuc m) (negsuc n) = negsuc (m + n + 1)

unfoldable pub ◌-ℤ◌ : ℤ → ℤ → ℤ
unfolding diff
◌-ℤ◌ (pos m) (pos n) = diff m n
◌-ℤ◌ (pos m) (negsuc n) = pos (m + n + 1)
◌-ℤ◌ (negsuc m) (pos n) = negsuc (m + n)
◌-ℤ◌ (negsuc m) (negsuc n) = diff n m

unfoldable pub abs : ℤ → ℕ
abs (pos n) = n
abs (negsuc n) = suc n

unfoldable pub is_negative : ℤ → Bool
is_negative (pos n) = false
is_negative (negsuc n) = true

-- A step of at most `step` towards `target`.
unfoldable pub approach : ℕ → ℤ → ℤ → ℤ
unfolding ◌+ℤ◌ ◌-ℤ◌ abs is_negative
approach step target position =
    let delta = target -ℤ position in
    if leb (abs delta) step
    then target
    else if is_negative delta
    then position -ℤ pos step
    else position +ℤ pos step

-- A step takes its length off the distance, and ends at the target at the latest.
pub distance-approach :
    (step : ℕ) (target position : ℤ)
    → abs (target -ℤ approach step target position) ≡ abs (target -ℤ position) - step
unfolding approach ◌+ℤ◌ ◌-ℤ◌ abs is_negative diff
distance-approach step (pos t) (pos p) = ground arith
distance-approach step (pos t) (negsuc p) = ground arith
distance-approach step (negsuc t) (pos p) = ground arith
distance-approach step (negsuc t) (negsuc p) = ground arith
