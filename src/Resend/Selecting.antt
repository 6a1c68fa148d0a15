-- ===== src/Resend/Selecting.antt =====
-- filter of src/resend/resend.go against the ranges that the gap tools write.
use air_gap.Common.{
  Bytes, ℕ, suc, ◌+◌, ◌≡◌, refl, ap, ap₂, ◌∙◌, List, [], ◌∷◌, false, ◌&&◌, ◌||◌, Bool-cases, inl,
  inr, arith, some, leb, ◌==◌, returned,
}
use air_gap.Common.Members.{contains}
use air_gap.Common.Integers.{ℤ, pos, eqℤ, ltℤ}
use air_gap.Gaps.{range, ranges_from, bitmap_to_ranges}
use air_gap.Resend.{
  GapResult, JsonFilter, all, filter_type, is_for, in_gap, in_gaps, filter_all, filter, filter_by,
}

in_gap-range :
    (n start m : ℕ) → in_gap (pos n) (range start (start + m)) ≡ leb start n && leb n (start + m)
unfolding in_gap eqℤ ltℤ
in_gap-range n start m = elim (Bool-cases (start == start + m)) [
  | inl alone ↦ rw alone (ground arith)
  | inr wide ↦ rw wide (ground arith)
]

in_gaps-ranges_from :
    (vs : List ℕ) (n start m : ℕ)
    → in_gaps (pos n) (ranges_from (some (start, start + m)) vs)
      ≡ (leb start n && leb n (start + m)) || contains n vs
unfolding in_gaps ranges_from contains
in_gaps-ranges_from [] n start m = ap (λ b. b || false) (in_gap-range n start m)
in_gaps-ranges_from (v ∷ vs) n start m = elim (Bool-cases (v == start + m + 1)) [
  | inl next ↦
      let e : v ≡ start + suc m = ground arith in
      rw next (
        ap (λ x. in_gaps (pos n) (ranges_from (some (start, x)) vs)) e
        ∙ in_gaps-ranges_from vs n start (suc m)
        ∙ ground arith)
  | inr apart ↦
      let e : v ≡ v + 0 = omega arith in
      rw apart (
        ap₂ (λ a b. a || b) (in_gap-range n start m)
          (ap (λ x. in_gaps (pos n) (ranges_from (some (v, x)) vs)) e
            ∙ in_gaps-ranges_from vs n v 0)
        ∙ ground arith)
]

pub in_gaps-bitmap_to_ranges :
    (positions : List ℕ) (n : ℕ)
    → in_gaps (pos n) (bitmap_to_ranges positions) ≡ contains n positions
unfolding in_gaps ranges_from contains
in_gaps-bitmap_to_ranges [] n = refl
in_gaps-bitmap_to_ranges (v ∷ vs) n =
    let e : v ≡ v + 0 = omega arith in
    ap (λ x. in_gaps (pos n) (ranges_from (some (v, x)) vs)) e
    ∙ in_gaps-ranges_from vs n v 0
    ∙ ground arith

-- With the type all and one result whose gaps are the ranges of bitmapToRanges, filter sends of its
-- partition exactly the offsets that the bitmap holds, and nothing of another partition or topic.
pub filter-bitmap_to_ranges :
    (f : JsonFilter) (g : GapResult) (positions : List ℕ) (topic : Bytes) (partition : ℤ) (n : ℕ)
    → filter_type f.type_text ≡ all
    → f.results ≡ g ∷ []
    → g.gaps ≡ bitmap_to_ranges positions
    → filter f topic partition (pos n) ≡ returned (is_for topic partition g && contains n positions)
unfolding filter filter_all
filter-bitmap_to_ranges f g positions topic partition n kind results gaps =
    ap₂ (λ t gs. filter_by t gs topic partition (pos n)) kind results
    ∙ ap (λ b. returned ((is_for topic partition g && b) || false))
        (ap (in_gaps (pos n)) gaps ∙ in_gaps-bitmap_to_ranges positions n)
    ∙ ap returned (ground arith)
