-- ===== src/Common/Integers.antt =====
-- Go's signed integers, without a bound: the numbers of the sources are far from the limits of
-- int64. The remainder takes the sign of the dividend, as in Go.
use Prim.Native.Nat.{ℕ, zero, suc, ◌+◌, ◌-◌, ◌%◌}
use mathlib.Core.Path.{◌≡◌, ap}
use mathlib.Core.Bool.{Bool, true, false}
use native.Mathlib.Omega.{arith}
use air_gap.Common.Tests.{ltb, ◌==◌, if◌then◌else◌}

pub data ℤ : Type 0 where
  pos : ℕ → ℤ
  negsuc : ℕ → ℤ

-- a - b of two numbers.
unfoldable pub difference : ℕ → ℕ → ℤ
difference a b = if ltb a b then negsuc (b - a - 1) else pos (a - b)

infixl 6 ◌+ℤ◌ ◌-ℤ◌
unfoldable pub ◌+ℤ◌ : ℤ → ℤ → ℤ
pos a +ℤ pos b = pos (a + b)
pos a +ℤ negsuc b = difference a (b + 1)
negsuc a +ℤ pos b = difference b (a + 1)
negsuc a +ℤ negsuc b = negsuc (a + b + 1)

unfoldable pub negℤ : ℤ → ℤ
negℤ (pos zero) = pos 0
negℤ (pos (suc n)) = negsuc n
negℤ (negsuc n) = pos (n + 1)

unfoldable pub ◌-ℤ◌ : ℤ → ℤ → ℤ
a -ℤ b = a +ℤ negℤ b

-- |a|
unfoldable pub abs : ℤ → ℕ
abs (pos n) = n
abs (negsuc n) = n + 1

-- a % b for b ≠ 0
unfoldable pub remℤ : ℤ → ℤ → ℤ
remℤ (pos a) b = pos (a % abs b)
remℤ (negsuc a) b = negℤ (pos ((a + 1) % abs b))

unfoldable pub eqℤ : ℤ → ℤ → Bool
eqℤ (pos a) (pos b) = a == b
eqℤ (negsuc a) (negsuc b) = a == b
eqℤ _ _ = false

unfoldable pub ltℤ : ℤ → ℤ → Bool
ltℤ (pos a) (pos b) = ltb a b
ltℤ (pos a) (negsuc b) = false
ltℤ (negsuc a) (pos b) = true
ltℤ (negsuc a) (negsuc b) = ltb b a

pub eqℤ-refl : (a : ℤ) → eqℤ a a ≡ true
unfolding eqℤ
eqℤ-refl (pos n) = ground arith
eqℤ-refl (negsuc n) = ground arith

pub eqℤ-true : (a b : ℤ) → eqℤ a b ≡ true → a ≡ b
unfolding eqℤ
eqℤ-true (pos a) (pos b) h = ap pos (ground arith)
eqℤ-true (negsuc a) (negsuc b) h = ap negsuc (ground arith)
eqℤ-true (pos a) (negsuc b) h = cc
eqℤ-true (negsuc a) (pos b) h = cc

pub sub-pos : (a b : ℕ) → pos (a + b) -ℤ pos a ≡ pos b
unfolding ◌-ℤ◌ ◌+ℤ◌ negℤ difference
sub-pos zero b = ap pos (omega arith)
sub-pos (suc a) b =
    let above : ltb (suc a + b) (a + 1) ≡ false = ground arith in rw above (ap pos (omega arith))
