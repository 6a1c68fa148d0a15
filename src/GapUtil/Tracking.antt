-- ===== src/GapUtil/Tracking.antt =====
-- CheckNextNumber of src/gap_util/gap_util.go against the numbers that have arrived.
use air_gap.Common.{
  ℕ, suc, ◌+◌, ◌-◌, ◌<◌, ◌≡◌, refl, Option, none, some, List, [], ◌∷◌, ◌++◌, Bool, true, false, not,
  ◌&&◌, ltb, ◌==◌, if◌then◌else◌, inl, inr, Bool-cases, arith,
}
use mathlib.Core.Option
use air_gap.Common.Members.{contains}
use air_gap.GapUtil.{
  Gap, Gaps, inside, get_gap_for_number, set_gap, remove_gap, close_gap, check_late, check_number,
  no_gaps,
}

-- 1 if the gap holds the number.
abbrev pub hit : Gap → ℕ → ℕ
hit gap k = if inside gap k then 1 else 0

-- How many gaps hold the number.
unfoldable pub times : List Gap → ℕ → ℕ
times [] k = 0
times (gap ∷ gaps) k = hit gap k + times gaps k

times-append : (xs ys : List Gap) (k : ℕ) → times (xs ++ ys) k ≡ times xs k + times ys k
unfolding times
times-append [] ys k = omega arith
times-append (x ∷ xs) ys k = omega (arith, times-append xs ys k)

-- What getGapForNumber finds, and what a write at its index does to the count.
pub record Found (gaps : List Gap) (number i : ℕ) (gap : Gap) : Type 0 where
  pub holds : inside gap number ≡ true
  pub set :
      (new : Gap) (k : ℕ) → times (set_gap gaps i new) k + hit gap k ≡ times gaps k + hit new k
  pub removed : (k : ℕ) → times (remove_gap gaps i) k + hit gap k ≡ times gaps k

abbrev pub Searched : List Gap → ℕ → Option (ℕ × Gap) → Type 0
Searched gaps number none = times gaps number ≡ 0
Searched gaps number (some (i, gap)) = Found gaps number i gap

Searched-cons :
    (g : Gap) (gs : List Gap) (number : ℕ) (b : Bool) (r : Option (ℕ × Gap))
    → inside g number ≡ b
    → Searched gs number r
    → Searched (g ∷ gs) number (if b then some (0, g) else Option.map (λ q. (suc q.0, q.1)) r)
unfolding times set_gap remove_gap
Searched-cons g gs number true r h s = record {
  holds = h;
  set = λ new k. omega arith;
  removed = λ k. omega arith;
}
Searched-cons g gs number false none h s = ground arith
Searched-cons g gs number false (some (i, gap)) h s = record {
  holds = s.holds;
  set = λ new k. omega (arith, s.set new k);
  removed = λ k. omega (arith, s.removed k);
}

pub get_gap_for_number-Searched :
    (gaps : List Gap) (number : ℕ) → Searched gaps number (get_gap_for_number gaps number)
unfolding get_gap_for_number times
get_gap_for_number-Searched [] number = refl
get_gap_for_number-Searched (g ∷ gs) number =
    Searched-cons g gs number (inside g number) (get_gap_for_number gs number) refl
      (get_gap_for_number-Searched gs number)

-- Closing a number takes it out of the gap that holds it, and changes no other.
times-close_gap :
    (gaps : List Gap) (number i : ℕ) (gap : Gap) (k : ℕ)
    → Found gaps number i gap
    → times (close_gap gaps number i gap) k
        + hit (record { from = number; to = number; timestamp = 0 }) k
      ≡ times gaps k
unfolding close_gap times
times-close_gap gaps number i gap k f = ground (
  arith,
  f.holds,
  f.removed k,
  f.set (record gap { from = gap.from + 1 }) k,
  f.set (record gap { to = gap.to - 1 }) k,
  f.set (record gap { to = number - 1 }) k,
  times-append (set_gap gaps i (record gap { to = number - 1 }))
      (record { from = number + 1; to = gap.to; timestamp = gap.timestamp } ∷ []) k,
)

-- One more than the largest number that has come, and 0 before any.
unfoldable pub bound : List ℕ → ℕ
bound [] = 0
bound (n ∷ h) = if ltb n (bound h) then bound h else n + 1

-- The tracker of a partition agrees with the numbers that have come: it expects the number after
-- the largest, and lists once each number below that has not come, and no other number.
pub record Tracks (h : List ℕ) (s : Gaps) : Type 0 where
  pub expected : s.expected_number ≡ bound h
  pub listed : (k : ℕ) → times s.gaps k ≡ (if ltb k (bound h) && not (contains k h) then 1 else 0)

contains-bound : (h : List ℕ) (k : ℕ) → contains k h ≡ true → k < bound h
unfolding contains bound
contains-bound [] k c = cc
contains-bound (n ∷ h) k c = ground (arith, contains-bound h k)

pub no_gaps-Tracks : Tracks [] no_gaps
unfolding bound contains times
no_gaps-Tracks = record { expected = refl; listed = λ k. ground arith }

late-Tracks :
    (h : List ℕ) (s : Gaps) (n : ℕ) (r : Option (ℕ × Gap))
    → Tracks h s
    → n < s.expected_number
    → Searched s.gaps n r
    → Tracks (n ∷ h) (check_late s n r).0 × ((check_late s n r).1 ≡ contains n h)
unfolding check_late bound contains
late-Tracks h s n none t low found = (
  record {
    expected = ground (arith, t.expected);
    listed = λ k. ground (arith, t.listed k, t.listed n, t.expected);
  },
  ground (arith, t.listed n, t.expected),
)
late-Tracks h s n (some (i, gap)) t low f = (
  record {
    expected = ground (arith, t.expected);
    listed = λ k. ground (
      arith,
      t.listed k,
      t.listed n,
      t.expected,
      times-close_gap s.gaps n i gap k f,
      times-close_gap s.gaps n i gap n f,
    );
  },
  ground (arith, t.listed n, t.expected, times-close_gap s.gaps n i gap n f),
)

-- CheckNextNumber keeps the tracker of a partition in step with what has come, and says of a
-- number that it is a duplicate exactly if the number has come before.
pub check_number-Tracks :
    (h : List ℕ) (s : Gaps) (now n : ℕ)
    → Tracks h s
    → Tracks (n ∷ h) (check_number s now n).0 × ((check_number s now n).1 ≡ contains n h)
unfolding check_number bound contains times
check_number-Tracks h s now n t = elim (Bool-cases (s.expected_number == n)) [
  | inl next ↦ rw next (
    record {
      expected = ground (arith, t.expected);
      listed = λ k. ground (arith, t.listed k, t.expected, contains-bound h n);
    },
    ground (arith, contains-bound h n, t.expected),
  )
  | inr other ↦ elim (Bool-cases (ltb s.expected_number n)) [
    | inl gap ↦
        rw (other, gap)
          (
            record {
              expected = ground (arith, t.expected);
              listed = λ k. ground (
                arith,
                t.listed k,
                t.expected,
                contains-bound h n,
                contains-bound h k,
                times-append s.gaps
                    (record { from = s.expected_number; to = n - 1; timestamp = now } ∷ []) k,
              );
            },
            ground (arith, contains-bound h n, t.expected),
          )
    | inr late ↦
        rw (other, late)
          (late-Tracks h s n (get_gap_for_number s.gaps n) t (ground arith)
            (get_gap_for_number-Searched s.gaps n))
  ]
]
