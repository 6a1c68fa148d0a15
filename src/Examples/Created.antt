-- ===== src/Examples/Created.antt =====
-- src/create and src/resend with three windows of a gap topic.
use air_gap.Common.{Bytes, ℕ, ◌≡◌, refl, List, [], ◌∷◌, ◌++◌, map, true, returned, arith}
use air_gap.Common.Members.{any, contains}
use air_gap.Common.Maps.{bytes_beq}
use air_gap.Common.Text.{codes}
use air_gap.Common.Integers.{pos}
use air_gap.Resend.{JsonFilter, filter}
use air_gap.Create.{
  float64, float_of, excess_bits, shortest, write_results, write_output, result_lines,
}
use air_gap.Create.Resending.{GapWindow, window_of, resent-iff-missing}

abbrev window_at : Bytes → ℕ → ℕ → List ℕ → GapWindow
window_at topic partition start positions = record {
  topic = topic;
  partition = partition;
  window_min = start;
  window_max = pos 99;
  positions = positions;
}

-- Two windows of one partition, the later first, and one of another topic with a dash.
abbrev three_windows : List GapWindow
three_windows =
    window_at (codes "a") 1 100 (0 ∷ 1 ∷ 2 ∷ [])
    ∷ window_at (codes "a-1") 1 0 (7 ∷ [])
    ∷ window_at (codes "a") 1 0 (4 ∷ [])
    ∷ []

resent-iff-missing_example :
    (f : JsonFilter) × (write_results (codes "all") (map window_of three_windows) ≡ returned f)
    × (filter f (codes "a") (pos 1) (pos 101) ≡ returned true)
unfolding any contains bytes_beq
resent-iff-missing_example =
    resent-iff-missing three_windows (codes "a") 1 101
      (omega arith, (omega arith, (omega arith, tt)))
      (
        (omega arith, (omega arith, (omega arith, tt))),
        ((omega arith, tt), ((omega arith, tt), tt)),
      )

two_results :
    write_output (codes "all") (codes "r" ∷ codes "s" ∷ [])
    ≡ 123 ∷ 10 ∷ 32 ∷ 32 ∷ 34 ∷ codes "type"
      ++ (34 ∷ codes ": "
          ++ (34 ∷ codes "all"
              ++ (34 ∷ 44 ∷ 10 ∷ 32 ∷ 32 ∷ 34 ∷ codes "results"
                  ++ (34 ∷ codes ": ["
                      ++ (10 ∷ codes "  r," ++ (10 ∷ codes "  s" ++ (10 ∷ 93 ∷ 10 ∷ 125 ∷ [])))))))
unfolding write_output result_lines
two_results = refl

-- 2^53 + 1 is no float64, and 2^60 is written with fewer digits.
rounds_to_even : float64 (pos 9007199254740993) ≡ pos 9007199254740992
unfolding float_of excess_bits shortest
rounds_to_even = refl

fewer_digits : float64 (pos 1152921504606846976) ≡ pos 1152921504606847000
unfolding float_of excess_bits shortest
fewer_digits = refl
