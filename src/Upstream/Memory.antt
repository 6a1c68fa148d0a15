-- ===== src/Upstream/Memory.antt =====
-- The memory watermarks of src/upstream/memory.go: memoryController.Wait, which holds back records
-- while too much memory is in use. The sampler is the environment: it gives sizes in bytes, which
-- are numbers of int64 and not negative. All consumers share one controller: between the rounds of a
-- call of Wait stand the rounds of the others, in the order of the lock.
pub mod Waiting
use air_gap.Common.{
  Bytes, ℕ, zero, suc, ◌+◌, ◌*◌, ◌/◌, ◌^◌, ◌%◌, ◌-◌, List, [], ◌∷◌, ◌++◌, Bool, true, false, not,
  ◌&&◌, ◌||◌, ltb, leb, ◌==◌, if◌then◌else◌, Option, none, some,
}
use air_gap.Common.Integers.{ℤ, pos, negsuc}
use air_gap.Common.Text.{parse_int, NumError}
use air_gap.Common.Maps.{bytes_beq}

-- memorySample; the text that names its source only goes into records.
pub record MemorySample : Type 0 where
  pub current : ℕ
  pub limit : ℕ

-- limit*percent in 64 bits: from 2^63 on it stands for a negative number.
abbrev pub product : ℕ → ℕ → ℕ
product limit percent = limit * percent % 2 ^ 64

abbrev pub is_negative : ℕ → Bool
is_negative n = leb (2 ^ 63) n

-- atOrAbovePercent and belowPercent, which also counts the equal case; a negative product over 100
-- is 0 down to -99, and no size is below it otherwise.
unfoldable pub at_or_above_percent : ℕ → ℕ → ℕ → Bool
at_or_above_percent current limit percent =
    ltb 0 limit
    && (is_negative (product limit percent) || leb (product limit percent / 100) current)

unfoldable pub below_percent : ℕ → ℕ → ℕ → Bool
below_percent current limit percent =
    ltb 0 limit
    && (if is_negative (product limit percent)
        then current == 0 && ltb (2 ^ 64 - product limit percent) 100
        else leb current (product limit percent / 100))

-- memoryController: the two watermarks and the flag.
pub record MemoryController : Type 0 where
  pub high_percent : ℕ
  pub low_percent : ℕ
  pub throttled : Bool

-- The locked part of a round of Wait.
unfoldable pub next_throttled : MemoryController → MemorySample → Bool
next_throttled c sample =
    if c.throttled
    then not (below_percent sample.current sample.limit c.low_percent)
    else at_or_above_percent sample.current sample.limit c.high_percent

-- What happens while Wait runs: a sample or its error, and, in a round that stays throttled, the
-- timer or the end of the context.
pub data Sampled : Type 0 where
  sample_error : Sampled
  sampled : MemorySample → Sampled

pub data Wakeup : Type 0 where
  timer done : Wakeup

-- A round of this call of Wait, or of another one on the same controller, which has got its sample.
pub data WaitEvent : Type 0 where
  own : Sampled → Wakeup → WaitEvent
  other : MemorySample → WaitEvent

-- A change of the flag, in the order of the lock; one of this call is a call of its onTransition.
pub record Transition : Type 0 where
  pub is_own : Bool
  pub throttled : Bool
  pub sample : MemorySample

-- How Wait ends; `waiting` is after the rounds given.
pub data Waited : Type 0 where
  admitted sampling_failed cancelled waiting : Waited

abbrev same_flag : Bool → Bool → Bool
same_flag true b = b
same_flag false b = not b

abbrev pub transitions : Bool → Bool → Bool → MemorySample → List Transition → List Transition
transitions is_own was is sample rest =
    if same_flag was is
    then rest
    else record { is_own = is_own; throttled = is; sample = sample } ∷ rest

abbrev pub Trace : Type 0
Trace = Waited × (MemoryController × List Transition)

-- A round that stays throttled goes on, and an admission ends Wait.
abbrev pub after : Bool → Wakeup → MemoryController → Trace → Trace
after false wakeup c rest = (admitted, (c, []))
after true done c rest = (cancelled, (c, []))
after true timer c rest = rest

abbrev pub with_transition : Bool → Bool → Bool → MemorySample → Trace → Trace
with_transition is_own was is sample (w, (c, ts)) = (w, (c, transitions is_own was is sample ts))

-- Wait over the events of its rounds, and of those of other calls between them.
unfoldable pub wait : MemoryController → List WaitEvent → Trace
wait c [] = (waiting, (c, []))
wait c (own sample_error wakeup ∷ events) = (sampling_failed, (c, []))
wait c (own (sampled sample) wakeup ∷ events) =
    let is = next_throttled c sample in
    let c' = record c { throttled = is } in
    with_transition true c.throttled is sample (after is wakeup c' (wait c' events))
wait c (other sample ∷ events) =
    let is = next_throttled c sample in
    let c' = record c { throttled = is } in
    with_transition false c.throttled is sample (wait c' events)
