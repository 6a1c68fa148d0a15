-- ===== src/Logging/Repetition.antt =====
-- src/logging/repetition.go: a record that repeats is counted, and the count is written now and then.
-- A key is a repeatKey (body or template, level, attributes and whether it is a template), which Go
-- compares by its fields; the attributes of an entry are those of its key. A line is what
-- writeEventLocked is called with: the record itself, or a summary with the latest parameters and the
-- count. The order in which a loop over the map meets the entries is that of the list.
pub mod Counts
pub mod Room
pub mod Conserved
pub mod Bound
use air_gap.Common.{
  Bytes, ◌*◌, ℕ, ◌+◌, ◌-◌, List, [], ◌∷◌, ◌++◌, Bool, true, false, ◌||◌, ◌&&◌, Option, none, some,
  length, ltb, leb, min, ◌==◌, if◌then◌else◌,
}
use air_gap.Common.Text.{NumError, parse_int, trim_space}
use air_gap.Common.Integers.{ℤ, pos}
use air_gap.Common.Maps.{Eq, lookup, insert, delete}

abbrev pub max_repeat_entries : ℕ
max_repeat_entries = 1024

-- The nanoseconds of a number of milliseconds that time.Duration can hold.
abbrev interval_of : ℤ × Option NumError → Option ℕ
interval_of (pos ms, none) = if ltb 9223372036854 ms then none else some (ms * 1000000)
interval_of _ = none

-- parseRepeatInterval: none is the error.
unfoldable pub parse_repeat_interval : Bytes → Option ℕ
parse_repeat_interval value = interval_of (parse_int (trim_space value))

-- repeatState
pub record RepeatState (P : Type 0) : Type 0 where
  pub params : P
  pub count : ℕ
  pub last_emitted : ℕ
  pub last_seen : ℕ

pub data RepeatLine (K : Type 0) (P : Type 0) : Type 0 where
  event : K → P → RepeatLine K P
  summary : K → P → ℕ → RepeatLine K P

abbrev pub Entries : Type 0 → Type 0 → Type 0
Entries K P = List (K × RepeatState P)

-- repetitions, repeatInterval and repeatTimer, which is the time at which it fires.
pub record Repetitions (K : Type 0) (P : Type 0) : Type 0 where
  pub entries : Entries K P
  pub interval : ℕ
  pub timer : Option ℕ

-- now.Sub(then) >= interval, of a positive interval
abbrev pub is_due : ℕ → ℕ → ℕ → Bool
is_due interval now then_ = leb interval (now - then_)

module _ {P : Type 0} where
  unfoldable pub flushed : ℕ → RepeatState P → RepeatState P
  flushed now entry =
      if entry.count == 0 then entry else record entry { count = 0; last_emitted = now }

  abbrev pub new_entry : ℕ → P → RepeatState P
  new_entry now params = record { params = params; count = 0; last_emitted = now; last_seen = now }

  abbrev pub seen_again : ℕ → P → RepeatState P → RepeatState P
  seen_again now params entry = record entry {
    count = entry.count + 1;
    last_seen = now;
    params = params;
  }
  -- Behind the stale entry: a new key is written, a known one is counted.

module _ {K : Type 0} {P : Type 0} where
  -- flushRepetitionLocked: the lines, and the entry after.
  unfoldable pub flush_lines : K → RepeatState P → List (RepeatLine K P)
  flush_lines key entry = if entry.count == 0 then [] else summary key entry.params entry.count ∷ []

  unfoldable pub flush_all : Entries K P → List (RepeatLine K P)
  flush_all [] = []
  flush_all ((key, entry) ∷ m) = flush_lines key entry ++ flush_all m

  -- resetRepetitionLocked
  unfoldable pub reset : Repetitions K P → List (RepeatLine K P) × Repetitions K P
  reset s = (flush_all s.entries, record s { entries = []; timer = none })

  -- The loop of scheduleRepeatTimerLocked.
  unfoldable pub delay : ℕ → ℕ → ℕ → Entries K P → ℕ
  delay now interval least [] = least
  delay now interval least ((key, entry) ∷ m) =
      delay now interval
        (min least
          ((if ltb 0 entry.count then entry.last_emitted else entry.last_seen) + interval - now))
        m

  abbrev timer_for : ℕ → ℕ → Entries K P → Option ℕ → Option ℕ
  timer_for now interval m (some at) = some at
  timer_for now interval [] none = none
  timer_for now interval (entry ∷ m) none = some (now + delay now interval interval (entry ∷ m))

  -- scheduleRepeatTimerLocked
  unfoldable pub schedule : ℕ → Repetitions K P → Repetitions K P
  schedule now s = record s { timer = timer_for now s.interval s.entries s.timer }

  -- The function of the timer, over the entries.
  abbrev pub kept_entry : ℕ → ℕ → K → RepeatState P → Entries K P → Entries K P
  kept_entry now interval key entry rest =
      if entry.count == 0 && is_due interval now entry.last_seen then rest else (key, entry) ∷ rest

  unfoldable pub expire_all : ℕ → ℕ → Entries K P → List (RepeatLine K P) × Entries K P
  expire_all now interval [] = ([], [])
  expire_all now interval ((key, entry) ∷ m) =
      let (lines, rest) = expire_all now interval m in
      if is_due interval now entry.last_emitted
      then (flush_lines key entry ++ lines, kept_entry now interval key (flushed now entry) rest)
      else (lines, kept_entry now interval key entry rest)

  unfoldable pub timer_fires : ℕ → Repetitions K P → List (RepeatLine K P) × Repetitions K P
  timer_fires now s =
      let (lines, m) = expire_all now s.interval s.entries in
      (lines, schedule now (record s { entries = m; timer = none }))

  -- The entry seen longest ago, of the first one and others.
  unfoldable pub oldest : K × RepeatState P → Entries K P → K × RepeatState P
  oldest best [] = best
  oldest best (other ∷ m) =
      oldest (if ltb other.1.last_seen best.1.last_seen then other else best) m

  module _ ⦃e : Eq K⦄ where
    -- The entry of a key goes, with its summary.
    abbrev pub drop_entry : K → RepeatState P → Entries K P → List (RepeatLine K P) × Entries K P
    drop_entry key entry m = (flush_lines key entry, delete key m)

    -- An entry that has not been seen for the interval.
    abbrev pub without_stale :
        ℕ → ℕ → K → Option (RepeatState P) → Entries K P → List (RepeatLine K P) × Entries K P
    without_stale now interval key none m = ([], m)
    without_stale now interval key (some entry) m =
        if is_due interval now entry.last_seen then drop_entry key entry m else ([], m)

    -- repetitions[oldest] of the key found
    abbrev pub drop_known :
        K → Option (RepeatState P) → Entries K P → List (RepeatLine K P) × Entries K P
    drop_known key none m = ([], m)
    drop_known key (some entry) m = drop_entry key entry m

    -- Room for one more.
    abbrev pub make_room : Entries K P → List (RepeatLine K P) × Entries K P
    make_room [] = ([], [])
    make_room (first ∷ m) =
        if leb max_repeat_entries (length (first ∷ m))
        then (let key = (oldest first m).0 in drop_known key (lookup key (first ∷ m)) (first ∷ m))
        else ([], first ∷ m)

    abbrev pub record_key :
        ℕ
        → ℕ
        → K
        → P
        → Option (RepeatState P)
        → Entries K P
        → Bool × (List (RepeatLine K P) × Entries K P)
    record_key now interval key params none m =
        let (lines, rest) = make_room m in (false, (lines, insert key (new_entry now params) rest))
    record_key now interval key params (some entry) m =
        let again = seen_again now params entry in
        if is_due interval now again.last_emitted
        then (true, (flush_lines key again, insert key (flushed now again) m))
        else (true, ([], insert key again m))

    abbrev pub scheduled :
        ℕ
        → Repetitions K P
        → List (RepeatLine K P)
        → Bool × (List (RepeatLine K P) × Entries K P)
        → Bool × (List (RepeatLine K P) × Repetitions K P)
    scheduled now s before (suppressed, (lines, m)) =
        (suppressed, (before ++ lines, schedule now (record s { entries = m })))

    abbrev pub not_suppressed :
        List (RepeatLine K P) × Repetitions K P → Bool × (List (RepeatLine K P) × Repetitions K P)
    not_suppressed (lines, s) = (false, (lines, s))

    -- suppressLocked: whether the record is suppressed, the lines written and the state.
    unfoldable pub suppress :
        ℕ → Bool → K → P → Repetitions K P → Bool × (List (RepeatLine K P) × Repetitions K P)
    suppress now is_fatal key params s =
        let (before, m) = without_stale now s.interval key (lookup key s.entries) s.entries in
        if s.interval == 0 || is_fatal
        then not_suppressed (reset s)
        else scheduled now s before (record_key now s.interval key params (lookup key m) m)

    abbrev pub then_written :
        K
        → P
        → Bool × (List (RepeatLine K P) × Repetitions K P)
        → List (RepeatLine K P) × Repetitions K P
    then_written key params (true, (lines, s)) = (lines, s)
    then_written key params (false, (lines, s)) = (lines ++ event key params ∷ [], s)

    -- emit and emitTemplate: a record that is not suppressed is written.
    unfoldable pub emit :
        ℕ → Bool → K → P → Repetitions K P → List (RepeatLine K P) × Repetitions K P
    emit now is_fatal key params s = then_written key params (suppress now is_fatal key params s)

-- What happens to the log.
pub data Operation (K : Type 0) (P : Type 0) : Type 0 where
  emitted : ℕ → Bool → K → P → Operation K P
  timer_fired : ℕ → Operation K P
  flush_repeated : Operation K P
  set_repeat_interval : ℕ → Operation K P

module _ {K : Type 0} {P : Type 0} ⦃e : Eq K⦄ where
  abbrev with_interval :
      ℕ → List (RepeatLine K P) × Repetitions K P → List (RepeatLine K P) × Repetitions K P
  with_interval interval (lines, s) = (lines, record s { interval = interval })

  unfoldable pub step : Operation K P → Repetitions K P → List (RepeatLine K P) × Repetitions K P
  step (emitted now is_fatal key params) s = emit now is_fatal key params s
  step (timer_fired now) s = timer_fires now s
  step flush_repeated s = reset s
  step (set_repeat_interval interval) s = with_interval interval (reset s)

  abbrev pub after_lines :
      List (RepeatLine K P)
      → List (RepeatLine K P) × Repetitions K P
      → List (RepeatLine K P) × Repetitions K P
  after_lines lines (more, s) = (lines ++ more, s)

  unfoldable pub run :
      List (Operation K P) → Repetitions K P → List (RepeatLine K P) × Repetitions K P
  run [] s = ([], s)
  run (o ∷ os) s = let (lines, s') = step o s in after_lines lines (run os s')
