-- ===== src/Upstream/Memory/Waiting.antt =====
-- memoryController.Wait of src/upstream/memory.go: hysteresis between the watermarks.
use air_gap.Common.{
  ℕ, ◌≡◌, refl, List, [], ◌∷◌, ◌++◌, map, Bool, true, false, not, Bool-cases, inl, inr,
  if◌then◌else◌,
}
use air_gap.Upstream.Memory.{
  MemorySample, MemoryController, at_or_above_percent, below_percent, next_throttled, sample_error,
  sampled, Wakeup, timer, done, Transition, admitted, wait, Trace, after, with_transition,
  WaitEvent, own, other,
}

-- The flags of the transitions alternate, the first away from the flag given.
abbrev pub Alternates : Bool → List Transition → Type 0
Alternates b [] = Unit
Alternates b (t ∷ ts) = (t.throttled ≡ not b) × Alternates t.throttled ts

-- The flag after the transitions.
abbrev pub last_flag : Bool → List Transition → Bool
last_flag b [] = b
last_flag b (t ∷ ts) = last_flag t.throttled ts

-- A transition is true to its sample: into throttling at the high watermark, out at the low one.
abbrev pub Justified : ℕ → ℕ → List Transition → Type 0
Justified high low [] = Unit
Justified high low (t ∷ ts) =
    ((if t.throttled
        then at_or_above_percent t.sample.current t.sample.limit high
        else below_percent t.sample.current t.sample.limit low)
      ≡ true)
    × Justified high low ts

-- What is known of a run of Wait.
pub record Sensible (c : MemoryController) (r : Trace) : Type 0 where
  pub high : r.1.0.high_percent ≡ c.high_percent
  pub low : r.1.0.low_percent ≡ c.low_percent
  pub alternates : Alternates c.throttled r.1.1
  pub ends : r.1.0.throttled ≡ last_flag c.throttled r.1.1
  pub justified : Justified c.high_percent c.low_percent r.1.1

-- What a sample has to say for the flag to change.
abbrev Step : ℕ → ℕ → MemorySample → Bool → Bool → Type 0
Step high low sample false true = at_or_above_percent sample.current sample.limit high ≡ true
Step high low sample true false = below_percent sample.current sample.limit low ≡ true
Step high low sample was is = Unit

entering :
    (high low : ℕ) (sample : MemorySample) (b : Bool)
    → at_or_above_percent sample.current sample.limit high ≡ b
    → Step high low sample false b
entering high low sample true h = h
entering high low sample false h = tt

leaving :
    (high low : ℕ) (sample : MemorySample) (b : Bool)
    → below_percent sample.current sample.limit low ≡ b
    → Step high low sample true (not b)
leaving high low sample true h = h
leaving high low sample false h = tt

Step-next_throttled :
    (high low : ℕ) (was : Bool) (sample : MemorySample)
    → Step high low sample was
        (next_throttled (record { high_percent = high; low_percent = low; throttled = was }) sample)
unfolding next_throttled
Step-next_throttled high low false sample = entering high low sample _ refl
Step-next_throttled high low true sample = leaving high low sample _ refl

after-Sensible :
    (c : MemoryController) (is : Bool) (wakeup : Wakeup) (r : Trace)
    → Sensible c r
    → Sensible c (after is wakeup c r)
after-Sensible c false wakeup r h = record {
  high = refl;
  low = refl;
  alternates = tt;
  ends = refl;
  justified = tt;
}
after-Sensible c true done r h = record {
  high = refl;
  low = refl;
  alternates = tt;
  ends = refl;
  justified = tt;
}
after-Sensible c true timer r h = h

with_transition-Sensible :
    (is_own : Bool) (high low : ℕ) (was is : Bool) (sample : MemorySample) (r : Trace)
    → Step high low sample was is
    → Sensible (record { high_percent = high; low_percent = low; throttled = is }) r
    → Sensible
        (record { high_percent = high; low_percent = low; throttled = was })
        (with_transition is_own was is sample r)
with_transition-Sensible is_own high low true true sample r j h = h
with_transition-Sensible is_own high low false false sample r j h = h
with_transition-Sensible is_own high low true false sample r j h = record {
  high = h.high;
  low = h.low;
  alternates = (refl, h.alternates);
  ends = h.ends;
  justified = (j, h.justified);
}
with_transition-Sensible is_own high low false true sample r j h = record {
  high = h.high;
  low = h.low;
  alternates = (refl, h.alternates);
  ends = h.ends;
  justified = (j, h.justified);
}

-- Whatever samples and wakeups come, and whatever other calls of Wait on the same controller do
-- between the rounds: Wait keeps the watermarks; the changes of the flag by all these calls, in the
-- order of the lock, alternate and lead from the old flag to the new one; and each is justified by
-- the sample of its round, at the high watermark or above (on) or at the low one or below (off).
pub wait-Sensible : (events : List WaitEvent) (c : MemoryController) → Sensible c (wait c events)
unfolding wait
wait-Sensible [] c = record {
  high = refl;
  low = refl;
  alternates = tt;
  ends = refl;
  justified = tt;
}
wait-Sensible (own sample_error wakeup ∷ events) c = record {
  high = refl;
  low = refl;
  alternates = tt;
  ends = refl;
  justified = tt;
}
wait-Sensible (own (sampled sample) wakeup ∷ events) c =
    let c' = record c { throttled = next_throttled c sample } in
    with_transition-Sensible true c.high_percent c.low_percent c.throttled (next_throttled c sample)
      sample _ (Step-next_throttled c.high_percent c.low_percent c.throttled sample)
      (after-Sensible c' (next_throttled c sample) wakeup _ (wait-Sensible events c'))
wait-Sensible (other sample ∷ events) c =
    let c' = record c { throttled = next_throttled c sample } in
    with_transition-Sensible false c.high_percent c.low_percent c.throttled
      (next_throttled c sample) sample _
      (Step-next_throttled c.high_percent c.low_percent c.throttled sample)
      (wait-Sensible events c')

-- A sample that lets records through whatever the flag is.
abbrev pub Relaxed : MemoryController → MemorySample → Type 0
Relaxed c sample =
    (below_percent sample.current sample.limit c.low_percent ≡ true)
    × (at_or_above_percent sample.current sample.limit c.high_percent ≡ false)

-- A round of this call with its timer, or one of another call
abbrev pub timed : Bool × MemorySample → WaitEvent
timed (true, sample) = own (sampled sample) timer
timed (false, sample) = other sample

Relaxed-next_throttled :
    (c : MemoryController) (sample : MemorySample)
    → Relaxed c sample
    → next_throttled c sample ≡ false
unfolding next_throttled
Relaxed-next_throttled c sample h = elim (Bool-cases c.throttled) [
  | inl on ↦ rw (on, h.0) refl
  | inr off ↦ rw (off, h.1) refl
]

after_admitted :
    (is : Bool) (c : MemoryController) (r : Trace)
    → r.0 ≡ admitted
    → (after is timer c r).0 ≡ admitted
after_admitted true c r h = h
after_admitted false c r h = refl

-- If the context lasts and the sampler does not fail, Wait ends with its first sample at or below
-- the low watermark and below the high one, or before it: it admits the record, whatever other calls
-- of Wait on the same controller do between its rounds.
pub wait_admits :
    (before : List (Bool × MemorySample)) (c : MemoryController) (sample : MemorySample)
    (wakeup : Wakeup) (rest : List WaitEvent)
    → Relaxed c sample
    → (wait c (map timed before ++ (own (sampled sample) wakeup ∷ rest))).0 ≡ admitted
unfolding wait
wait_admits [] c sample wakeup rest h = rw (Relaxed-next_throttled c sample h) refl
wait_admits ((true, s) ∷ before) c sample wakeup rest h =
    let c' = record c { throttled = next_throttled c s } in
    after_admitted (next_throttled c s) c' _ (wait_admits before c' sample wakeup rest h)
wait_admits ((false, s) ∷ before) c sample wakeup rest h =
    wait_admits before (record c { throttled = next_throttled c s }) sample wakeup rest h
