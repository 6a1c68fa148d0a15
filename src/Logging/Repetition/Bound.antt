-- ===== src/Logging/Repetition/Bound.antt =====
-- src/logging/repetition.go: the map of the records that repeat is bounded.
use mathlib.Core.Path.{subst}
use air_gap.Common.{
  suc, ℕ, ◌+◌, ◌≤◌, ◌≡◌, refl, List, [], ◌∷◌, Bool, true, false, ◌||◌, ◌&&◌, Option, none, some,
  length, ltb, leb, ◌==◌, if◌then◌else◌, if_cases, Bool-cases, inl, inr, arith, ap, sym, ◌∙◌,
}
use air_gap.Common.Maps.{
  Eq, lookup, delete, length-delete, length-insert_new, length-insert_known, beq_refl,
}
use air_gap.Logging.Repetition.{
  RepeatState, RepeatLine, Entries, Repetitions, max_repeat_entries, is_due, flushed, reset,
  schedule, kept_entry, expire_all, timer_fires, oldest, without_stale, drop_known, make_room,
  new_entry, seen_again, record_key, suppress, then_written, emit, Operation, emitted, timer_fired,
  flush_repeated, set_repeat_interval, step, run,
}
use air_gap.Logging.Repetition.Room.{Changed, make_room-IsSmaller}

module _ {K : Type 0} {P : Type 0} ⦃e : Eq K⦄ where
  abbrev IsKnown : Entries K P → K → Type 0
  IsKnown m k = (v : RepeatState P) × (lookup k m ≡ some v)

  cons-IsKnown : (x : K × RepeatState P) (m : Entries K P) (k : K) → IsKnown m k → IsKnown (x ∷ m) k
  unfolding lookup
  cons-IsKnown (j, w) m k (v, h) =
      if_cases (λ o. (u : RepeatState P) × (o ≡ some u)) (e.beq j k) (λ _. (w, refl)) (λ _. (v, h))

  own-IsKnown : (x : K × RepeatState P) (m : Entries K P) → IsKnown (x ∷ m) x.0
  unfolding lookup
  own-IsKnown (j, w) m = (w, ap (λ b. if b then some w else lookup j m) (beq_refl j))

  -- The oldest entry is one of those looked at.
  oldest_one_of :
      (Q : K → Type 0) (best : K × RepeatState P) (m : Entries K P)
      → Q best.0
      → ((k : K) → IsKnown m k → Q k)
      → Q (oldest best m).0
  unfolding oldest
  oldest_one_of Q best [] own others = own
  oldest_one_of Q best (other ∷ m) own others =
      oldest_one_of Q (if ltb other.1.last_seen best.1.last_seen then other else best) m
        (if_cases (λ (x : K × RepeatState P). Q x.0) (ltb other.1.last_seen best.1.last_seen)
          (λ _. others other.0 (own-IsKnown other m)) (λ _. own))
        (λ k h. others k (cons-IsKnown other m k h))

  length-delete_known :
      (k : K) (m : Entries K P) (v : RepeatState P)
      → lookup k m ≡ some v
      → length (delete k m) + 1 ≤ length m
  unfolding lookup delete
  length-delete_known k [] v h = cc
  length-delete_known k ((j, w) ∷ m) v h = elim (Bool-cases (e.beq j k)) [
    | inl same ↦ rw same (omega (arith, length-delete k m))
    | inr other ↦
        let there : lookup k m ≡ some v =
          sym (ap (λ b. if b then some w else lookup k m) other) ∙ h in
        rw other (omega (arith, length-delete_known k m v there))
  ]

  -- There is room for one more entry behind it.
  length-make_room :
      (m : Entries K P)
      → length m ≤ max_repeat_entries
      → length (make_room m).1 + 1 ≤ max_repeat_entries
  length-make_room [] bounded = omega arith
  length-make_room (first ∷ m) bounded =
      let key = (oldest first m).0 in
      let (v, known) =
        oldest_one_of (IsKnown (first ∷ m)) first m (own-IsKnown first m) (cons-IsKnown first m) in
      if_cases (λ (o : Changed K P). length o.1 + 1 ≤ max_repeat_entries)
        (leb max_repeat_entries (length (first ∷ m)))
        (λ _.
          subst (λ o. length (drop_known key o (first ∷ m)).1 + 1 ≤ max_repeat_entries) (sym known)
            (omega (arith, length-delete_known key (first ∷ m) v known)))
        (λ few. ground arith)

  abbrev pub IsBounded : Repetitions K P → Type 0
  IsBounded s = length s.entries ≤ max_repeat_entries

  length-record_key :
      (now interval : ℕ) (key : K) (params : P) (o : Option (RepeatState P)) (m : Entries K P)
      → lookup key m ≡ o
      → length m ≤ max_repeat_entries
      → length (record_key now interval key params o m).1.1 ≤ max_repeat_entries
  length-record_key now interval key params none m h bounded =
      let left = (make_room m).1 in
      omega (
        arith,
        length-make_room m bounded,
        length-insert_new key (new_entry now params) left ((make_room-IsSmaller m).1 key h),
      )
  length-record_key now interval key params (some entry) m h bounded =
      let again = seen_again now params entry in
      if_cases (λ (o : Bool × Changed K P). length o.1.1 ≤ max_repeat_entries)
        (is_due interval now again.last_emitted)
        (λ _. omega (arith, length-insert_known key (flushed now again) entry m h))
        (λ _. omega (arith, length-insert_known key again entry m h))

  length-without_stale :
      (now interval : ℕ) (key : K) (o : Option (RepeatState P)) (m : Entries K P)
      → length (without_stale now interval key o m).1 ≤ length m
  length-without_stale now interval key none m = omega arith
  length-without_stale now interval key (some entry) m =
      if_cases (λ (o : Changed K P). length o.1 ≤ length m) (is_due interval now entry.last_seen)
        (λ _. length-delete key m) (λ _. omega arith)

  length-kept_entry :
      (now interval : ℕ) (key : K) (entry : RepeatState P) (m : Entries K P)
      → length (kept_entry now interval key entry m) ≤ length m + 1
  length-kept_entry now interval key entry m =
      if_cases (λ (o : Entries K P). length o ≤ length m + 1)
        (entry.count == 0 && is_due interval now entry.last_seen) (λ _. omega arith)
        (λ _. omega arith)

  length-expire_all :
      (now interval : ℕ) (m : Entries K P) → length (expire_all now interval m).1 ≤ length m
  unfolding expire_all
  length-expire_all now interval [] = omega arith
  length-expire_all now interval ((key, entry) ∷ m) =
      let rest = length-expire_all now interval m in
      if_cases (λ (o : Changed K P). length o.1 ≤ suc (length m))
        (is_due interval now entry.last_emitted)
        (λ _. omega (
          arith,
          length-kept_entry now interval key (flushed now entry) (expire_all now interval m).1,
        ))
        (λ _. omega (arith, length-kept_entry now interval key entry (expire_all now interval m).1))

  then_written-IsBounded :
      (key : K) (params : P) (o : Bool × (List (RepeatLine K P) × Repetitions K P))
      → IsBounded o.1.1
      → IsBounded (then_written key params o).1
  then_written-IsBounded key params (true, (lines, s)) h = h
  then_written-IsBounded key params (false, (lines, s)) h = h

  suppress-IsBounded :
      (now : ℕ) (is_fatal : Bool) (key : K) (params : P) (s : Repetitions K P)
      → IsBounded s
      → IsBounded (suppress now is_fatal key params s).1.1
  unfolding suppress reset schedule
  suppress-IsBounded now is_fatal key params s bounded =
      let m = (without_stale now s.interval key (lookup key s.entries) s.entries).1 in
      if_cases (λ (o : Bool × (List (RepeatLine K P) × Repetitions K P)). IsBounded o.1.1)
        (s.interval == 0 || is_fatal) (λ _. omega arith)
        (λ _.
          length-record_key now s.interval key params (lookup key m) m refl (
            omega
              (arith, length-without_stale now s.interval key (lookup key s.entries) s.entries)))

  step-IsBounded : (o : Operation K P) (s : Repetitions K P) → IsBounded s → IsBounded (step o s).1
  unfolding step emit reset timer_fires schedule
  step-IsBounded (emitted now is_fatal key params) s bounded =
      then_written-IsBounded key params (suppress now is_fatal key params s)
        (suppress-IsBounded now is_fatal key params s bounded)
  step-IsBounded (timer_fired now) s bounded =
      omega (arith, length-expire_all now s.interval s.entries)
  step-IsBounded flush_repeated s bounded = omega arith
  step-IsBounded (set_repeat_interval interval) s bounded = omega arith

  -- No run of the log makes the map of the records that repeat larger than 1024 entries.
  pub run-IsBounded :
      (os : List (Operation K P)) (s : Repetitions K P) → IsBounded s → IsBounded (run os s).1
  unfolding run
  run-IsBounded [] s bounded = bounded
  run-IsBounded (o ∷ os) s bounded = run-IsBounded os (step o s).1 (step-IsBounded o s bounded)
