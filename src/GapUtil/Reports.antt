-- ===== src/GapUtil/Reports.antt =====
-- GetFirstGaps of src/gap_util/gap_util.go: what it reports of the gaps of a partition.
use air_gap.Common.{
  Bytes, ℕ, zero, suc, ◌+◌, ◌-◌, ◌≤◌, ◌≡◌, refl, ap, ◌∙◌, Option, none, some, List, [], ◌∷◌, ◌++◌,
  true, false, ◌&&◌, ltb, ◌==◌, if◌then◌else◌, inl, inr, Bool-cases, All, length, arith,
}
use air_gap.GapUtil.{
  Gap, Gaps, AllGaps, inside, set_gap, remove_gap, close_gap, check_late, check_number, first_gap,
  sum_gaps, get_first_gaps,
}
use air_gap.GapUtil.Tracking.{Searched, get_gap_for_number-Searched}

-- A gap holds a number at least.
abbrev pub AreRanges : List Gap → Type 0
AreRanges = All (λ g. g.from ≤ g.to)

-- How many numbers the gaps hold.
unfoldable pub missing_total : List Gap → ℕ
missing_total [] = 0
missing_total (g ∷ gs) = (g.to + 1 - g.from) + missing_total gs

missing_total-sum_gaps : (gs : List Gap) → AreRanges gs → missing_total gs ≡ sum_gaps gs + length gs
unfolding missing_total sum_gaps
missing_total-sum_gaps [] h = refl
missing_total-sum_gaps (g ∷ gs) h = omega (arith, missing_total-sum_gaps gs h.1)

unfoldable pub missing_all : AllGaps → ℕ
unfolding missing_total
missing_all [] = 0
missing_all ((key, s) ∷ all) = missing_total s.gaps + missing_all all

unfoldable pub gap_count : AllGaps → ℕ
gap_count [] = 0
gap_count ((key, s) ∷ all) = length s.gaps + gap_count all

abbrev pub AllAreRanges : AllGaps → Type 0
AllAreRanges = All (λ (e : Bytes × Gaps). AreRanges e.1.gaps)

-- The total of GetFirstGaps falls short of the number of missing offsets by the number of gaps:
-- it adds To - From for a gap, which holds one more.
pub total-get_first_gaps :
    (all : AllGaps) (now : ℕ)
    → AllAreRanges all
    → (get_first_gaps all now).0 + gap_count all ≡ missing_all all
unfolding get_first_gaps missing_all gap_count
total-get_first_gaps [] now h = refl
total-get_first_gaps ((key, s) ∷ all) now h =
    omega (arith, total-get_first_gaps all now h.1, missing_total-sum_gaps s.gaps h.0)

module _ (gap : Gap) where
  set_gap-AreRanges :
      (gs : List Gap) (i : ℕ) → AreRanges gs → gap.from ≤ gap.to → AreRanges (set_gap gs i gap)
  unfolding set_gap
  set_gap-AreRanges [] i h r = tt
  set_gap-AreRanges (x ∷ xs) zero h r = (r, h.1)
  set_gap-AreRanges (x ∷ xs) (suc i) h r = (h.0, set_gap-AreRanges xs i h.1 r)

remove_gap-AreRanges : (gs : List Gap) (i : ℕ) → AreRanges gs → AreRanges (remove_gap gs i)
unfolding remove_gap
remove_gap-AreRanges [] i h = tt
remove_gap-AreRanges (x ∷ xs) zero h = h.1
remove_gap-AreRanges (x ∷ xs) (suc i) h = (h.0, remove_gap-AreRanges xs i h.1)

append-AreRanges : (xs ys : List Gap) → AreRanges xs → AreRanges ys → AreRanges (xs ++ ys)
append-AreRanges [] ys hx hy = hy
append-AreRanges (x ∷ xs) ys hx hy = (hx.0, append-AreRanges xs ys hx.1 hy)

close_gap-AreRanges :
    (gs : List Gap) (number i : ℕ) (gap : Gap)
    → AreRanges gs
    → inside gap number ≡ true
    → AreRanges (close_gap gs number i gap)
unfolding close_gap
close_gap-AreRanges gs number i gap h found = elim (Bool-cases (number == gap.from)) [
  | inl start ↦ elim (Bool-cases (number == gap.to)) [
    | inl end ↦ rw (start, end) (remove_gap-AreRanges gs i h)
    | inr longer ↦ rw (start, longer) (set_gap-AreRanges _ gs i h (ground arith))
  ]
  | inr later ↦ elim (Bool-cases (number == gap.to)) [
    | inl end ↦ rw (later, end) (set_gap-AreRanges _ gs i h (ground arith))
    | inr amid ↦
        rw (later, amid)
          (append-AreRanges _ _ (set_gap-AreRanges _ gs i h (ground arith)) (ground arith, tt))
  ]
]

check_late-AreRanges :
    (s : Gaps) (number : ℕ) (r : Option (ℕ × Gap))
    → AreRanges s.gaps
    → Searched s.gaps number r
    → AreRanges (check_late s number r).0.gaps
unfolding check_late
check_late-AreRanges s number none h f = h
check_late-AreRanges s number (some (i, gap)) h f =
    close_gap-AreRanges s.gaps number i gap h f.holds

-- CheckNextNumber keeps every gap of a partition a range of a number at least.
pub check_number-AreRanges :
    (s : Gaps) (now number : ℕ) → AreRanges s.gaps → AreRanges (check_number s now number).0.gaps
unfolding check_number
check_number-AreRanges s now number h = elim (Bool-cases (s.expected_number == number)) [
  | inl next ↦ rw next h
  | inr other ↦ elim (Bool-cases (ltb s.expected_number number)) [
    | inl gap ↦ rw (other, gap) (append-AreRanges _ _ h (ground arith, tt))
    | inr late ↦
        rw (other, late)
          (check_late-AreRanges s number _ h (get_gap_for_number-Searched s.gaps number))
  ]
]

-- The starts of the gaps found before a time.
unfoldable pub old_starts : ℕ → List Gap → List ℕ
old_starts from_time [] = []
old_starts from_time (g ∷ gs) =
    let rest = old_starts from_time gs in if ltb g.timestamp from_time then g.from ∷ rest else rest

-- The smallest number of a list and a further one.
unfoldable pub least : List ℕ → Option ℕ → Option ℕ
least [] m = m
least (x ∷ xs) none = least xs (some x)
least (x ∷ xs) (some m) = least xs (some (if ltb x m then x else m))

-- The number that GetFirstGaps reports of a partition is the smallest start of a gap found before
-- the time, and it reports none exactly if there is no such gap.
pub first_gap-least :
    (from_time : ℕ) (gs : List Gap) (m : Option ℕ)
    → first_gap from_time gs m ≡ least (old_starts from_time gs) m
unfolding first_gap old_starts least
first_gap-least from_time [] m = refl
first_gap-least from_time (g ∷ gs) none = elim (Bool-cases (ltb g.timestamp from_time)) [
  | inl old ↦ rw old (first_gap-least from_time gs (some g.from))
  | inr young ↦ rw young (first_gap-least from_time gs none)
]
first_gap-least from_time (g ∷ gs) (some m) = elim (Bool-cases (ltb g.timestamp from_time)) [
  | inl old ↦
      let e : (if ltb g.from m && true then some g.from else some m)
          ≡ some (if ltb g.from m then g.from else m) =
        ground arith in
      rw old (ap (first_gap from_time gs) e ∙ first_gap-least from_time gs _)
  | inr young ↦
      let e : (if ltb g.from m && false then some g.from else some m) ≡ some m = ground arith in
      rw young (ap (first_gap from_time gs) e ∙ first_gap-least from_time gs _)
]
