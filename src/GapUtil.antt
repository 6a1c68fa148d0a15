-- ===== src/GapUtil.antt =====
-- src/gap_util/gap_util.go: the offsets of each partition that have not arrived.
-- Numbers are Kafka offsets: never negative, and far below 2^63, so that int64 does not wrap.
-- `min == -1` in GetFirstGaps, for no gap yet, is `none`. The mutex makes each call one step.
pub mod Tracking
pub mod Reports
pub mod Runs
use air_gap.Common.{
  Bytes, ℕ, zero, suc, ◌+◌, ◌-◌, Option, none, some, List, [], ◌∷◌, ◌++◌, Bool, true, false, ◌&&◌,
  ◌||◌, ltb, leb, ◌==◌, if◌then◌else◌,
}
use mathlib.Core.Option
use air_gap.Common.Maps.{lookup, insert, bytes_eq}

pub record Gap : Type 0 where
  pub from : ℕ
  pub to : ℕ
  pub timestamp : ℕ

pub record Gaps : Type 0 where
  pub expected_number : ℕ
  pub gaps : List Gap

-- allGaps
abbrev pub AllGaps : Type 0
AllGaps = List (Bytes × Gaps)

-- The zero value of Gaps.
abbrev pub no_gaps : Gaps
no_gaps = record { expected_number = 0; gaps = [] }

abbrev pub or_none : Option Gaps → Gaps
or_none none = no_gaps
or_none (some g) = g

-- GetAllGaps
unfoldable pub get_all_gaps : AllGaps → Bytes → Gaps
get_all_gaps all key = or_none (lookup key all)

-- The test of getGapForNumber.
abbrev pub inside : Gap → ℕ → Bool
inside gap number = leb gap.from number && leb number gap.to

-- getGapForNumber: the index of the first gap that holds the number.
unfoldable pub get_gap_for_number : List Gap → ℕ → Option (ℕ × Gap)
get_gap_for_number [] number = none
get_gap_for_number (gap ∷ gaps) number =
    if inside gap number
    then some (0, gap)
    else Option.map (λ r. (suc r.0, r.1)) (get_gap_for_number gaps number)

-- gaps[i] = gap
unfoldable pub set_gap : List Gap → ℕ → Gap → List Gap
set_gap [] i gap = []
set_gap (x ∷ xs) zero gap = gap ∷ xs
set_gap (x ∷ xs) (suc i) gap = x ∷ set_gap xs i gap

-- append(gaps[:i], gaps[i+1:]...)
unfoldable pub remove_gap : List Gap → ℕ → List Gap
remove_gap [] i = []
remove_gap (x ∷ xs) zero = xs
remove_gap (x ∷ xs) (suc i) = x ∷ remove_gap xs i

-- A number inside gap `i`: the gap goes, shrinks at an end, or is split.
unfoldable pub close_gap : List Gap → ℕ → ℕ → Gap → List Gap
close_gap gaps number i gap =
    if number == gap.from && number == gap.to
    then remove_gap gaps i
    else if number == gap.from
    then set_gap gaps i (record gap { from = gap.from + 1 })
    else if number == gap.to
    then set_gap gaps i (record gap { to = gap.to - 1 })
    else set_gap gaps i (record gap { to = number - 1 })
      ++ (record { from = number + 1; to = gap.to; timestamp = gap.timestamp } ∷ [])

-- A number below the expected one: a missing one, or a duplicate.
unfoldable pub check_late : Gaps → ℕ → Option (ℕ × Gap) → Gaps × Bool
check_late s number (some (i, gap)) = (record s { gaps = close_gap s.gaps number i gap }, false)
check_late s number none = (s, true)

-- CheckNextNumber for one partition.
unfoldable pub check_number : Gaps → ℕ → ℕ → Gaps × Bool
check_number s now number =
    if s.expected_number == number
    then (record s { expected_number = s.expected_number + 1 }, false)
    else if ltb s.expected_number number
    then (
      record {
        expected_number = number + 1;
        gaps =
            s.gaps ++ (record { from = s.expected_number; to = number - 1; timestamp = now } ∷ []);
      },
      false,
    )
    else check_late s number (get_gap_for_number s.gaps number)

-- CheckNextNumber: true for a number that has come before.
unfoldable pub check_next_number : AllGaps → ℕ → Bytes → ℕ → AllGaps × Bool
check_next_number all now key number =
    let (s, duplicate) = check_number (get_all_gaps all key) now number in
    (insert key s all, duplicate)

-- reportEventsAsMissingAfterMs
abbrev pub report_events_as_missing_after_ms : ℕ
report_events_as_missing_after_ms = 30000

-- gap.From < min || min == -1
abbrev pub precedes : ℕ → Option ℕ → Bool
precedes from none = true
precedes from (some min) = ltb from min

-- The inner loop of GetFirstGaps: the smallest start of a gap found before `from_time`.
unfoldable pub first_gap : ℕ → List Gap → Option ℕ → Option ℕ
first_gap from_time [] min = min
first_gap from_time (gap ∷ gaps) min =
    first_gap from_time gaps
      (if precedes gap.from min && ltb gap.timestamp from_time then some gap.from else min)

-- The sum that the inner loop adds to the total.
unfoldable pub sum_gaps : List Gap → ℕ
sum_gaps [] = 0
sum_gaps (gap ∷ gaps) = (gap.to - gap.from) + sum_gaps gaps

abbrev report : Bytes → Option ℕ → List (Bytes × ℕ) → List (Bytes × ℕ)
report key none rest = rest
report key (some min) rest = (key, min) ∷ rest

-- The loop of GetFirstGaps over the partitions; a text "key_min" is the pair.
unfoldable pub first_gaps : ℕ → AllGaps → ℕ × List (Bytes × ℕ)
unfolding first_gap sum_gaps
first_gaps from_time [] = (0, [])
first_gaps from_time ((key, holder) ∷ rest) =
    let (total, result) = first_gaps from_time rest in
    (sum_gaps holder.gaps + total, report key (first_gap from_time holder.gaps none) result)

-- GetFirstGaps; time stops at 0 for a clock below 30 seconds.
unfoldable pub get_first_gaps : AllGaps → ℕ → ℕ × List (Bytes × ℕ)
unfolding first_gaps
get_first_gaps all now = first_gaps (now - report_events_as_missing_after_ms) all
