-- ===== src/Prelude/Int.antt =====
-- Go's signed integers (`int`, `time.Duration`) where a configuration can make them negative.
use Prim.Native.Nat.{ℕ, ◌<◌}
use mathlib.Core.Path.{◌≡◌}
use mathlib.Core.Bool.{Bool, true, false}
use native.Mathlib.Omega.{arith}
use stile.Prelude.Tests.{ltb, if◌then◌else◌}

-- `negsuc n` is -(n + 1).
pub data ℤ : Type 0 where
  pos : ℕ → ℤ
  negsuc : ℕ → ℤ

-- 0 < a
abbrev pub is_positive : ℤ → Bool
is_positive (pos n) = ltb 0 n
is_positive (negsuc n) = false

abbrev pub IsPositive : ℤ → Type 0
IsPositive (pos n) = 0 < n
IsPositive (negsuc n) = ⊥

-- a, where it is positive, and `default` where it is not
unfoldable pub positive_or : ℤ → ℤ → ℤ
positive_or default a = if is_positive a then a else default

pub is_positive-IsPositive : (a : ℤ) → is_positive a ≡ true → IsPositive a
is_positive-IsPositive (pos n) h = ground arith
is_positive-IsPositive (negsuc n) h = cc

pub positive_or-IsPositive :
    (default a : ℤ) → IsPositive default → IsPositive (positive_or default a)
unfolding positive_or
positive_or-IsPositive default (pos n) h = ground arith
positive_or-IsPositive default (negsuc n) h = h
