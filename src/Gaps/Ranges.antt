-- ===== src/Gaps/Ranges.antt =====
-- bitmapToRanges and countMissing of src/gaps/gaps.go: the ranges are the positions.
use air_gap.Common.{
  ℕ, zero, suc, ◌+◌, ◌-◌, ◌≡◌, refl, sym, ap, ap₂, ◌∙◌, List, [], ◌∷◌, ◌++◌, Bool-cases, inl, inr,
  arith, ◌==◌, some, length,
}
use air_gap.Common.Integers.{ℤ, pos, ◌+ℤ◌, ◌-ℤ◌, negℤ, difference, sub-pos}
use air_gap.Gaps.{range, ranges_from, bitmap_to_ranges, range_size, count_missing}

-- n numbers from a on.
unfoldable pub numbers : ℕ → ℕ → List ℕ
numbers a zero = []
numbers a (suc n) = a ∷ numbers (a + 1) n

-- The positions that a range stands for.
unfoldable pub positions_of : List ℤ → List ℕ
unfolding numbers
positions_of (pos from ∷ []) = from ∷ []
positions_of (pos from ∷ (pos to ∷ [])) = numbers from (to + 1 - from)
positions_of _ = []

unfoldable pub expand : List (List ℤ) → List ℕ
unfolding positions_of
expand [] = []
expand (g ∷ gs) = positions_of g ++ expand gs

numbers-add : (a n : ℕ) (vs : List ℕ) → numbers a (suc n) ++ vs ≡ a ∷ (numbers (a + 1) n ++ vs)
unfolding numbers
numbers-add a n vs = refl

numbers_snoc : (a n : ℕ) (vs : List ℕ) → numbers a (suc n) ++ vs ≡ numbers a n ++ ((a + n) ∷ vs)
unfolding numbers
numbers_snoc a zero vs = let e : a ≡ a + 0 = omega arith in ap (λ x. x ∷ vs) e
numbers_snoc a (suc n) vs =
    let e : a + 1 + n ≡ a + suc n = omega arith in
    ap (λ xs. a ∷ xs) (numbers_snoc (a + 1) n vs ∙ ap (λ x. numbers (a + 1) n ++ (x ∷ vs)) e)

positions_of-range : (start n : ℕ) → positions_of (range start (start + n)) ≡ numbers start (suc n)
unfolding positions_of numbers
positions_of-range start n = elim (Bool-cases (start == start + n)) [
  | inl alone ↦ let e : n ≡ 0 = ground arith in rw (alone, e) refl
  | inr wide ↦ let e : start + n + 1 - start ≡ suc n = omega arith in rw wide (ap (numbers start) e)
]

range_size-range : (start n : ℕ) → range_size (range start (start + n)) ≡ pos (n + 1)
unfolding ◌+ℤ◌ ◌-ℤ◌ negℤ difference
range_size-range start n = elim (Bool-cases (start == start + n)) [
  | inl alone ↦ rw alone (ap pos (ground arith))
  | inr wide ↦ rw wide (ap (λ z. z +ℤ pos 1) (sub-pos start n))
]

-- The open range and the positions behind it come out as they are.
expand-ranges_from :
    (vs : List ℕ) (start n : ℕ)
    → expand (ranges_from (some (start, start + n)) vs) ≡ numbers start (suc n) ++ vs
unfolding expand ranges_from
expand-ranges_from [] start n = ap (λ xs. xs ++ []) (positions_of-range start n)
expand-ranges_from (v ∷ vs) start n = elim (Bool-cases (v == start + n + 1)) [
  | inl next ↦
      let e : v ≡ start + suc n = ground arith in
      rw next (
        ap (λ x. expand (ranges_from (some (start, x)) vs)) e
        ∙ expand-ranges_from vs start (suc n)
        ∙ numbers_snoc start (suc n) vs
        ∙ ap (λ x. numbers start (suc n) ++ (x ∷ vs)) (sym e))
  | inr apart ↦
      let e : v ≡ v + 0 = omega arith in
      rw apart (
        ap₂ (λ xs ys. xs ++ ys) (positions_of-range start n)
          (ap (λ x. expand (ranges_from (some (v, x)) vs)) e ∙ expand-ranges_from vs v 0))
]

-- The ranges of bitmapToRanges stand for exactly the positions of the bitmap, in order.
pub expand-bitmap_to_ranges : (positions : List ℕ) → expand (bitmap_to_ranges positions) ≡ positions
unfolding expand ranges_from numbers
expand-bitmap_to_ranges [] = refl
expand-bitmap_to_ranges (v ∷ vs) =
    let e : v ≡ v + 0 = omega arith in
    ap (λ x. expand (ranges_from (some (v, x)) vs)) e ∙ expand-ranges_from vs v 0

count_missing-ranges_from :
    (vs : List ℕ) (start n : ℕ)
    → count_missing (ranges_from (some (start, start + n)) vs) ≡ pos (n + 1 + length vs)
unfolding count_missing ranges_from ◌+ℤ◌
count_missing-ranges_from [] start n = ap (λ z. z +ℤ pos 0) (range_size-range start n)
count_missing-ranges_from (v ∷ vs) start n = elim (Bool-cases (v == start + n + 1)) [
  | inl next ↦
      let e : v ≡ start + suc n = ground arith in
      rw next (
        ap (λ x. count_missing (ranges_from (some (start, x)) vs)) e
        ∙ count_missing-ranges_from vs start (suc n)
        ∙ ap pos (omega arith))
  | inr apart ↦
      let e : v ≡ v + 0 = omega arith in
      rw apart (
        ap₂ (λ x y. x +ℤ y) (range_size-range start n)
          (ap (λ x. count_missing (ranges_from (some (v, x)) vs)) e
            ∙ count_missing-ranges_from vs v 0)
        ∙ ap pos (omega arith))
]

-- countMissing of the ranges is the number of positions of the bitmap.
pub count_missing-bitmap_to_ranges :
    (positions : List ℕ) → count_missing (bitmap_to_ranges positions) ≡ pos (length positions)
unfolding count_missing ranges_from
count_missing-bitmap_to_ranges [] = refl
count_missing-bitmap_to_ranges (v ∷ vs) =
    let e : v ≡ v + 0 = omega arith in
    ap (λ x. count_missing (ranges_from (some (v, x)) vs)) e
    ∙ count_missing-ranges_from vs v 0
    ∙ ap pos (omega arith)
