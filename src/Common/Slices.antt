-- ===== src/Common/Slices.antt =====
-- Go's byte slices and fixed-width integers. A slice expression or an index out of range panics:
-- that is `none`.
use Prim.Native.Nat.{ℕ, ◌+◌, ◌-◌, ◌*◌, ◌/◌, ◌%◌, ◌≤◌, ◌<◌}
use mathlib.Core.Path.{◌≡◌, refl, ap}
use mathlib.Core.Bool.{◌&&◌}
use mathlib.Core.List.{List, [], ◌∷◌, ◌++◌}
use mathlib.Core.Option.{Option, none, some}
use native.Mathlib.Omega.{arith}
use air_gap.Common.Tests.{leb, if◌then◌else◌}
use air_gap.Common.Lists.{
  length, take, drop, length-take, length-drop, length-append, take-append, drop-append,
}

abbrev pub Bytes : Type 0
Bytes = List ℕ

-- Conversion to uint16, and the sum and difference of two uint16 values.
abbrev pub u16 : ℕ → ℕ
u16 n = n % 65536

abbrev pub add16 : ℕ → ℕ → ℕ
add16 a b = (a + b) % 65536

abbrev pub sub16 : ℕ → ℕ → ℕ
sub16 a b = (a + 65536 - b) % 65536

-- m[lo:hi]
unfoldable pub slice : Bytes → ℕ → ℕ → Option Bytes
slice m lo hi = if leb lo hi && leb hi (length m) then some (take (hi - lo) (drop lo m)) else none

pub slice_in_range :
    (m : Bytes) (lo hi : ℕ)
    → lo ≤ hi
    → hi ≤ length m
    → slice m lo hi ≡ some (take (hi - lo) (drop lo m))
unfolding slice
slice_in_range m lo hi h k = ground arith

pub length-slice :
    (m : Bytes) (lo hi : ℕ)
    → lo ≤ hi
    → hi ≤ length m
    → length (take (hi - lo) (drop lo m)) ≡ hi - lo
length-slice m lo hi h k = omega (arith, length-take (hi - lo) (drop lo m), length-drop lo m)

-- binary.BigEndian.Uint16: reads b[0] and b[1].
unfoldable pub be16 : Bytes → Option ℕ
be16 (hi ∷ lo ∷ rest) = some (hi * 256 + lo)
be16 _ = none

-- binary.BigEndian.PutUint16 into a buffer of two bytes.
unfoldable pub put16 : ℕ → Bytes
put16 n = (n / 256 % 256) ∷ (n % 256) ∷ []

pub length-put16 : (n : ℕ) → length (put16 n) ≡ 2
unfolding put16
length-put16 n = refl

pub be16-put16 : (n : ℕ) → n < 65536 → be16 (put16 n) ≡ some n
unfolding be16 put16
be16-put16 n h = ap some (omega arith)

pub be16_total : (b : Bytes) → 2 ≤ length b → (n : ℕ) × (be16 b ≡ some n)
unfolding be16
be16_total [] h = absurd (omega arith)
be16_total (x ∷ []) h = absurd (omega arith)
be16_total (x ∷ y ∷ rest) h = (x * 256 + y, refl)

-- The slice of a concatenation that is its middle part.
pub slice_at :
    (m a b c : Bytes) (lo hi : ℕ)
    → m ≡ a ++ (b ++ c)
    → lo ≡ length a
    → hi ≡ length a + length b
    → slice m lo hi ≡ some b
slice_at m a b c lo hi e l h =
    let width : hi - lo ≡ length b = omega arith in
    rw e (
      rw
        (slice_in_range (a ++ (b ++ c)) lo hi (omega arith)
          (omega (arith, length-append a (b ++ c), length-append b c)))
        (ap some (rw (width, l, drop-append, take-append))))
