-- ===== src/Examples/Repeats.antt =====
-- src/logging/repetition.go with three records, of which two are the same.
use air_gap.Common.{Bytes, ℕ, ◌+◌, ◌≡◌, List, [], ◌∷◌, none, false, arith}
use air_gap.Common.Maps.{bytes_eq, lookup, bytes_beq}
use air_gap.Common.Text.{codes}
use air_gap.Logging.Repetition.{Repetitions, Operation, emitted, timer_fired, run}
use air_gap.Logging.Repetition.Counts.{shown, pending}
use air_gap.Logging.Repetition.Conserved.{occurrences, run_conserves}
use air_gap.Logging.Repetition.Bound.{IsBounded, run-IsBounded}

abbrev quiet : Repetitions Bytes ℕ
quiet = record { entries = []; interval = 10; timer = none }

abbrev morning : List (Operation Bytes ℕ)
morning =
    emitted 1 false (codes "lost") 4
    ∷ emitted 2 false (codes "lost") 5
    ∷ emitted 3 false (codes "full") 6
    ∷ timer_fired 11
    ∷ emitted 12 false (codes "lost") 7
    ∷ []

run_conserves_example :
    shown (codes "lost") (run morning quiet).0
      + pending (codes "lost") (run morning quiet).1.entries
    ≡ 3
unfolding occurrences lookup bytes_beq
run_conserves_example = run_conserves morning quiet (codes "lost") tt

run-IsBounded_example : IsBounded (run morning quiet).1
run-IsBounded_example = run-IsBounded morning quiet (omega arith)
