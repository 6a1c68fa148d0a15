-- ===== src/Examples/Watermarks.antt =====
-- src/upstream/memory.go with watermarks of 80 and 60 percent of 1000 bytes.
use air_gap.Common.{ℕ, List, [], ◌∷◌, ◌++◌, map, false, ◌≡◌, refl, true}
use air_gap.Upstream.Memory.{
  MemorySample, MemoryController, WaitEvent, own, other, sampled, timer, done, admitted, wait,
  below_percent, at_or_above_percent,
}
use air_gap.Upstream.Memory.Waiting.{Sensible, Relaxed, timed, wait-Sensible, wait_admits}

abbrev idle : MemoryController
idle = record { high_percent = 80; low_percent = 60; throttled = false }

abbrev bytes_used : ℕ → MemorySample
bytes_used n = record { current = n; limit = 1000 }

abbrev busy_then_free : List WaitEvent
busy_then_free =
    own (sampled (bytes_used 900)) timer
    ∷ other (bytes_used 500)
    ∷ other (bytes_used 850)
    ∷ own (sampled (bytes_used 700)) timer
    ∷ own (sampled (bytes_used 600)) timer
    ∷ []

wait-Sensible_example : Sensible idle (wait idle busy_then_free)
wait-Sensible_example = wait-Sensible busy_then_free idle

free_Relaxed : Relaxed idle (bytes_used 600)
unfolding below_percent at_or_above_percent
free_Relaxed = (refl, refl)

wait_admits_example :
    (wait idle (
      map timed ((true, bytes_used 900) ∷ (false, bytes_used 700) ∷ [])
      ++ (own (sampled (bytes_used 600)) done ∷ []))).0
    ≡ admitted
wait_admits_example =
    wait_admits ((true, bytes_used 900) ∷ (false, bytes_used 700) ∷ []) idle (bytes_used 600) done
      [] free_Relaxed
