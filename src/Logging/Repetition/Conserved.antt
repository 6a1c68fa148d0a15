-- ===== src/Logging/Repetition/Conserved.antt =====
-- src/logging/repetition.go: what a run of the log writes, with what it has not written yet, is what
-- has come.
use air_gap.Common.{
  ℕ, ◌+◌, ◌≡◌, refl, sym, ap, ◌∙◌, List, [], ◌∷◌, Bool, true, false, ◌||◌, Option, none, some, ◌==◌,
  if◌then◌else◌, if_cases, Bool-cases, inl, inr, arith,
}
use air_gap.Common.Maps.{Eq, lookup, insert, lookup-insert}
use air_gap.Logging.Repetition.{
  RepeatState, RepeatLine, event, Entries, Repetitions, is_due, flushed, reset, schedule,
  timer_fires, without_stale, make_room, new_entry, seen_again, record_key, scheduled,
  not_suppressed, suppress, then_written, emit, Operation, emitted, timer_fired, flush_repeated,
  set_repeat_interval, step, run,
}
use air_gap.Logging.Repetition.Counts.{
  one_if, shown, count_of, pending, IsMap, shown-append, shown-flush_lines, count-flushed,
  shown-flush_all, expire_all-IsMap, shown-expire_all, insert-IsMap,
}
use air_gap.Logging.Repetition.Room.{
  Changed, IsBalanced, without_stale-IsBalanced, make_room-IsBalanced, without_stale-IsSmaller,
  make_room-IsSmaller, unchanged,
}

module _ {K : Type 0} {P : Type 0} ⦃e : Eq K⦄ where
  -- One occurrence of a key more is in the entries, in the lines, or about to be written.
  abbrev IsCounted : K → K → Entries K P → Bool × Changed K P → Type 0
  IsCounted k key m o =
      shown k o.1.0 + pending k o.1.1 + (if o.0 then 0 else one_if (e.beq key k))
      ≡ pending k m + one_if (e.beq key k)

  -- A known key gets another entry.
  pending-insert_known :
      (k key : K) (entry v : RepeatState P) (m : Entries K P)
      → lookup key m ≡ some entry
      → pending k (insert key v m) + (if e.beq key k then entry.count else 0)
        ≡ pending k m + (if e.beq key k then v.count else 0)
  pending-insert_known k key entry v m h = elim (Bool-cases (e.beq key k)) [
    | inl same ↦
        let now_there : pending k (insert key v m) ≡ v.count =
          ap count_of (lookup-insert key k v m)
          ∙ ap (λ b. count_of (if b then some v else lookup k m)) same in
        let was_there : pending k m ≡ entry.count =
          ap (λ j. pending j m) (sym ((e.beq_iff key k).0 same)) ∙ ap count_of h in
        ground arith
    | inr other ↦
        let stays : pending k (insert key v m) ≡ pending k m =
          ap count_of (lookup-insert key k v m)
          ∙ ap (λ b. count_of (if b then some v else lookup k m)) other in
        ground arith
  ]

  record_key-IsCounted :
      (k : K) (now interval : ℕ) (key : K) (params : P) (o : Option (RepeatState P))
      (m : Entries K P)
      → lookup key m ≡ o
      → IsCounted k key m (record_key now interval key params o m)
  record_key-IsCounted k now interval key params none m h =
      let left = (make_room m).1 in
      let balance = make_room-IsBalanced k m in
      let new = (make_room-IsSmaller m).1 key h in
      let at = lookup-insert key k (new_entry now params) left in
      elim (Bool-cases (e.beq key k)) [
        | inl same ↦
            let now_there : pending k (insert key (new_entry now params) left) ≡ 0 =
              ap count_of at
              ∙ ap (λ b. count_of (if b then some (new_entry now params) else lookup k left))
                  same in
            let nothing : pending k left ≡ 0 =
              ap (λ j. pending j left) (sym ((e.beq_iff key k).0 same)) ∙ ap count_of new in
            omega (arith, balance, now_there, nothing)
        | inr other ↦
            let stays : pending k (insert key (new_entry now params) left) ≡ pending k left =
              ap count_of at
              ∙ ap (λ b. count_of (if b then some (new_entry now params) else lookup k left))
                  other in
            omega (arith, balance, stays)
      ]
  record_key-IsCounted k now interval key params (some entry) m h =
      let again = seen_again now params entry in
      if_cases (IsCounted k key m) (is_due interval now again.last_emitted)
        (λ _. ground (
          arith,
          shown-flush_lines k key again,
          count-flushed now again,
          pending-insert_known k key entry (flushed now again) m h,
        ))
        (λ _. ground (arith, unchanged k m, pending-insert_known k key entry again m h))

  record_key-IsMap :
      (now interval : ℕ) (key : K) (params : P) (o : Option (RepeatState P)) (m : Entries K P)
      → IsMap m
      → IsMap (record_key now interval key params o m).1.1
  record_key-IsMap now interval key params none m unique =
      insert-IsMap key (new_entry now params) (make_room m).1 ((make_room-IsSmaller m).0 unique)
  record_key-IsMap now interval key params (some entry) m unique =
      let again = seen_again now params entry in
      if_cases (λ (o : Bool × Changed K P). IsMap o.1.1) (is_due interval now again.last_emitted)
        (λ _. insert-IsMap key (flushed now again) m unique) (λ _. insert-IsMap key again m unique)

  -- What a step of the log leaves: the entries are a map, and for every key the lines and the entries
  -- stand for what there was and the occurrences that are new.
  record Conserves (occurrences : K → ℕ) (s : Repetitions K P)
      (o : List (RepeatLine K P) × Repetitions K P) : Type 0 where
    is_map : IsMap o.1.entries
    counts : (k : K) → shown k o.0 + pending k o.1.entries ≡ pending k s.entries + occurrences k

  reset-Conserves : (s : Repetitions K P) → IsMap s.entries → Conserves (λ k. 0) s (reset s)
  unfolding reset lookup
  reset-Conserves s unique = record {
    is_map = tt;
    counts = λ k. omega (arith, shown-flush_all k s.entries unique);
  }

  timer_fires-Conserves :
      (now : ℕ) (s : Repetitions K P) → IsMap s.entries → Conserves (λ k. 0) s (timer_fires now s)
  unfolding timer_fires schedule
  timer_fires-Conserves now s unique = record {
    is_map = expire_all-IsMap now s.interval s.entries unique;
    counts = λ k. omega (arith, shown-expire_all k now s.interval s.entries unique);
  }

  -- The same of suppressLocked, where a record that is not suppressed is still to be written.
  record IsAnswer (key : K) (s : Repetitions K P)
      (o : Bool × (List (RepeatLine K P) × Repetitions K P)) : Type 0 where
    is_map : IsMap o.1.1.entries
    counts :
        (k : K)
        → shown k o.1.0 + pending k o.1.1.entries + (if o.0 then 0 else one_if (e.beq key k))
          ≡ pending k s.entries + one_if (e.beq key k)

  then_written-Conserves :
      (key : K) (params : P) (s : Repetitions K P)
      (o : Bool × (List (RepeatLine K P) × Repetitions K P))
      → IsAnswer key s o
      → Conserves (λ k. one_if (e.beq key k)) s (then_written key params o)
  unfolding shown
  then_written-Conserves key params s (true, (lines, s')) h = record {
    is_map = h.is_map;
    counts = λ k. omega (arith, h.counts k);
  }
  then_written-Conserves key params s (false, (lines, s')) h = record {
    is_map = h.is_map;
    counts = λ k. omega (arith, h.counts k, shown-append k lines (event key params ∷ []));
  }

  not_suppressed-IsAnswer :
      (key : K) (s : Repetitions K P) → IsMap s.entries → IsAnswer key s (not_suppressed (reset s))
  not_suppressed-IsAnswer key s unique =
      let h = reset-Conserves s unique in
      record { is_map = h.is_map; counts = λ k. omega (arith, h.counts k) }

  scheduled-IsAnswer :
      (now : ℕ) (key : K) (s : Repetitions K P) (before : Changed K P) (o : Bool × Changed K P)
      → ((k : K) → IsBalanced k s.entries before)
      → ((k : K) → IsCounted k key before.1 o)
      → IsMap o.1.1
      → IsAnswer key s (scheduled now s before.0 o)
  unfolding schedule
  scheduled-IsAnswer now key s before o balance counted unique = record {
    is_map = unique;
    counts = λ k. omega (arith, balance k, counted k, shown-append k before.0 o.1.0);
  }

  suppress-IsAnswer :
      (now : ℕ) (is_fatal : Bool) (key : K) (params : P) (s : Repetitions K P)
      → IsMap s.entries
      → IsAnswer key s (suppress now is_fatal key params s)
  unfolding suppress
  suppress-IsAnswer now is_fatal key params s unique =
      let known = lookup key s.entries in
      let before : Changed K P = without_stale now s.interval key known s.entries in
      let m = before.1 in
      let o = record_key now s.interval key params (lookup key m) m in
      if_cases (IsAnswer key s) (s.interval == 0 || is_fatal)
        (λ _. not_suppressed-IsAnswer key s unique)
        (λ _.
          scheduled-IsAnswer now key s before o
            (λ k. without_stale-IsBalanced k now s.interval key known s.entries refl)
            (λ k. record_key-IsCounted k now s.interval key params (lookup key m) m refl)
            (record_key-IsMap now s.interval key params (lookup key m) m
              ((without_stale-IsSmaller now s.interval key known s.entries).0 unique)))

  emit-Conserves :
      (now : ℕ) (is_fatal : Bool) (key : K) (params : P) (s : Repetitions K P)
      → IsMap s.entries
      → Conserves (λ k. one_if (e.beq key k)) s (emit now is_fatal key params s)
  unfolding emit
  emit-Conserves now is_fatal key params s unique =
      then_written-Conserves key params s (suppress now is_fatal key params s)
        (suppress-IsAnswer now is_fatal key params s unique)

  -- How often a record comes with an operation, and with some.
  abbrev pub occurs : Operation K P → K → ℕ
  occurs (emitted now is_fatal key params) k = one_if (e.beq key k)
  occurs (timer_fired now) k = 0
  occurs flush_repeated k = 0
  occurs (set_repeat_interval interval) k = 0

  unfoldable pub occurrences : List (Operation K P) → K → ℕ
  occurrences [] k = 0
  occurrences (o ∷ os) k = occurs o k + occurrences os k

  step-Conserves :
      (o : Operation K P) (s : Repetitions K P)
      → IsMap s.entries
      → Conserves (occurs o) s (step o s)
  unfolding step
  step-Conserves (emitted now is_fatal key params) s unique =
      emit-Conserves now is_fatal key params s unique
  step-Conserves (timer_fired now) s unique = timer_fires-Conserves now s unique
  step-Conserves flush_repeated s unique = reset-Conserves s unique
  step-Conserves (set_repeat_interval interval) s unique =
      let h = reset-Conserves s unique in record { is_map = h.is_map; counts = h.counts }

  -- From entries that are a map, in every run of the log, whatever the times, the timers, the
  -- flushes and the changes of the interval: for every key, the records and the counts of the
  -- summaries that are written, with the counts that wait in the entries behind the run, are as many
  -- as waited before and the records of this key that came.
  pub run_conserves :
      (os : List (Operation K P)) (s : Repetitions K P) (k : K)
      → IsMap s.entries
      → shown k (run os s).0 + pending k (run os s).1.entries
        ≡ pending k s.entries + occurrences os k
  unfolding run occurrences shown
  run_conserves [] s k unique = omega arith
  run_conserves (o ∷ os) s k unique =
      let h = step-Conserves o s unique in
      omega (
        arith,
        h.counts k,
        run_conserves os (step o s).1 k h.is_map,
        shown-append k (step o s).0 (run os (step o s).1).0,
      )
