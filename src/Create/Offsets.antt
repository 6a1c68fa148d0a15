-- ===== src/Create/Offsets.antt =====
-- writeResults of src/create/create.go: the absolute offsets of the windows against the positions
-- that their bitmaps hold.
use air_gap.Common.{
  ℕ, ◌+◌, ◌<◌, All, lt→ltb, ◌≡◌, refl, ap, ap₂, ◌∙◌, List, [], ◌∷◌, ◌++◌, true, false, ◌||◌, some,
  map, arith, ◌==◌, Bool-cases, inl, inr,
}
use air_gap.Common.Members.{any, contains}
use air_gap.Common.Integers.{ℤ, pos, ◌+ℤ◌}
use air_gap.Gaps.{range, ranges_from, bitmap_to_ranges}
use air_gap.Resend.{in_gaps}
use air_gap.Resend.Selecting.{in_gaps-bitmap_to_ranges}
use air_gap.Create.{WindowEntry, exact_limit, json_float, absolute_gap, absolute_of, absolute_gaps}

json_float-exact : (n : ℕ) → n < exact_limit → json_float n ≡ n
json_float-exact n small = rw (lt→ltb n exact_limit small) refl

abbrev pub IsExact : ℕ → ℕ → Type 0
IsExact m v = v + m < exact_limit

absolute_gap-range :
    (m start prev : ℕ)
    → IsExact m start
    → IsExact m prev
    → absolute_gap (pos m) (range start prev) ≡ range (start + m) (prev + m) ∷ []
unfolding absolute_gap ◌+ℤ◌
absolute_gap-range m start prev from to = elim (Bool-cases (start == prev)) [
  | inl same ↦
      let moved : (start + m == prev + m) ≡ true = ground arith in
      rw (same, moved, json_float-exact (start + m) from) refl
  | inr apart ↦
      let moved : (start + m == prev + m) ≡ false = ground arith in
      rw (apart, moved, json_float-exact (start + m) from, json_float-exact (prev + m) to) refl
]

in_gaps-append :
    (offset : ℤ) (gs hs : List (List ℤ))
    → in_gaps offset (gs ++ hs) ≡ in_gaps offset gs || in_gaps offset hs
unfolding in_gaps
in_gaps-append offset [] hs = refl
in_gaps-append offset (g ∷ gs) hs = ground (arith, in_gaps-append offset gs hs)

-- The ranges of a bitmap in absolute offsets are the ranges of its positions in absolute offsets.
absolute_of-ranges_from :
    (m : ℕ) (vs : List ℕ) (start prev : ℕ)
    → IsExact m start
    → IsExact m prev
    → All (IsExact m) vs
    → absolute_of (pos m) (ranges_from (some (start, prev)) vs)
      ≡ ranges_from (some (start + m, prev + m)) (map (λ v. v + m) vs)
unfolding absolute_of ranges_from
absolute_of-ranges_from m [] start prev from to exact =
    ap (λ g. g ++ []) (absolute_gap-range m start prev from to)
absolute_of-ranges_from m (v ∷ vs) start prev from to exact = elim (Bool-cases (v == prev + 1)) [
  | inl next ↦
      let moved : (v + m == prev + m + 1) ≡ true = ground arith in
      rw (next, moved) (absolute_of-ranges_from m vs start v from exact.0 exact.1)
  | inr apart ↦
      let moved : (v + m == prev + m + 1) ≡ false = ground arith in
      rw (apart, moved)
        (ap₂ (λ g gs. g ++ gs) (absolute_gap-range m start prev from to)
          (absolute_of-ranges_from m vs v v exact.0 exact.0 exact.1))
]

-- An offset is in the absolute ranges of a window when its bitmap holds it behind the window's start,
-- where the offsets of the window are below 2^53.
pub in_gaps-absolute_of :
    (m : ℕ) (positions : List ℕ) (n : ℕ)
    → All (IsExact m) positions
    → in_gaps (pos n) (absolute_of (pos m) (bitmap_to_ranges positions))
      ≡ contains n (map (λ v. v + m) positions)
unfolding absolute_of ranges_from
in_gaps-absolute_of m [] n exact = in_gaps-bitmap_to_ranges [] n
in_gaps-absolute_of m (v ∷ vs) n exact =
    ap (in_gaps (pos n)) (absolute_of-ranges_from m vs v v exact.0 exact.0 exact.1)
    ∙ in_gaps-bitmap_to_ranges ((v + m) ∷ map (λ u. u + m) vs) n

pub in_gaps-absolute_gaps :
    (offset : ℤ) (ws : List WindowEntry)
    → in_gaps offset (absolute_gaps ws)
      ≡ any (λ w. in_gaps offset (absolute_of w.window_min w.rel_gaps)) ws
unfolding absolute_gaps any in_gaps
in_gaps-absolute_gaps offset [] = refl
in_gaps-absolute_gaps offset (w ∷ ws) =
    in_gaps-append offset (absolute_of w.window_min w.rel_gaps) (absolute_gaps ws)
    ∙ ap (λ b. in_gaps offset (absolute_of w.window_min w.rel_gaps) || b)
        (in_gaps-absolute_gaps offset ws)
