-- ===== src/Examples/Gaps.antt =====
-- src/gap_util at concrete offsets.
use air_gap.Common.{Bytes, List, [], ◌∷◌, ◌≡◌}
use air_gap.GapUtil.{Gap, AllGaps}
use air_gap.GapUtil.Runs.{
  Event, TracksAll, run, received_all, repeats, run-TracksAll, start-TracksAll,
}

abbrev orders : Bytes
orders = b'o' ∷ []

abbrev two_gaps : List Gap
two_gaps =
    record { from = 4; to = 6; timestamp = 10 } ∷ record { from = 2; to = 2; timestamp = 20 } ∷ []

abbrev tracked : AllGaps
tracked = (orders, record { expected_number = 9; gaps = two_gaps }) ∷ []

-- Offsets 0, 3, 2 and again 2.
abbrev arrivals : List Event
arrivals =
    record { now = 1; key = orders; number = 0 }
    ∷ record { now = 2; key = orders; number = 3 }
    ∷ record { now = 3; key = orders; number = 2 }
    ∷ record { now = 4; key = orders; number = 2 }
    ∷ []

run-TracksAll_example :
    TracksAll (received_all (λ k. []) arrivals) (run [] arrivals).0
    × ((run [] arrivals).1 ≡ repeats (λ k. []) arrivals)
run-TracksAll_example = run-TracksAll (λ k. []) [] arrivals start-TracksAll
