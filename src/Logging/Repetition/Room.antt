-- ===== src/Logging/Repetition/Room.antt =====
-- src/logging/repetition.go: the entries that go, stale ones and the oldest, leave their counts in the
-- lines.
use air_gap.Common.{
  ℕ, ◌+◌, ◌≡◌, refl, sym, ap, ◌∙◌, List, [], ◌∷◌, Option, none, some, length, leb, if◌then◌else◌,
  if_cases, Bool-cases, inl, inr, arith,
}
use air_gap.Common.Maps.{Eq, lookup, delete, lookup-delete}
use air_gap.Logging.Repetition.{
  RepeatState, RepeatLine, Entries, is_due, oldest, drop_entry, without_stale, drop_known,
  make_room, max_repeat_entries,
}
use air_gap.Logging.Repetition.Counts.{
  shown, count_of, pending, IsMap, shown-flush_lines, delete-IsMap,
}

abbrev pub Changed : Type 0 → Type 0 → Type 0
Changed K P = List (RepeatLine K P) × Entries K P

module _ {K : Type 0} {P : Type 0} ⦃e : Eq K⦄ where
  -- The lines and the entries left stand for what the entries stood for.
  abbrev pub IsBalanced : K → Entries K P → Changed K P → Type 0
  IsBalanced k m o = shown k o.0 + pending k o.1 ≡ pending k m

  drop_entry-IsBalanced :
      (k key : K) (entry : RepeatState P) (m : Entries K P)
      → lookup key m ≡ some entry
      → IsBalanced k m (drop_entry key entry m)
  drop_entry-IsBalanced k key entry m known = elim (Bool-cases (e.beq key k)) [
    | inl same ↦
        let gone : lookup k (delete key m) ≡ none =
          lookup-delete key k m ∙ ap (λ b. if b then none else lookup k m) same in
        let had : lookup k m ≡ some entry =
          ap (λ j. lookup j m) (sym ((e.beq_iff key k).0 same)) ∙ known in
        ground (arith, shown-flush_lines k key entry, ap count_of gone, ap count_of had)
    | inr other ↦
        let stays : lookup k (delete key m) ≡ lookup k m =
          lookup-delete key k m ∙ ap (λ b. if b then none else lookup k m) other in
        ground (arith, shown-flush_lines k key entry, ap count_of stays)
  ]

  pub unchanged : (k : K) (m : Entries K P) → IsBalanced k m ([], m)
  unfolding shown
  unchanged k m = omega arith

  pub without_stale-IsBalanced :
      (k : K) (now interval : ℕ) (key : K) (o : Option (RepeatState P)) (m : Entries K P)
      → lookup key m ≡ o
      → IsBalanced k m (without_stale now interval key o m)
  without_stale-IsBalanced k now interval key none m h = unchanged k m
  without_stale-IsBalanced k now interval key (some entry) m h =
      if_cases (IsBalanced k m) (is_due interval now entry.last_seen)
        (λ _. drop_entry-IsBalanced k key entry m h) (λ _. unchanged k m)

  drop_known-IsBalanced :
      (k key : K) (o : Option (RepeatState P)) (m : Entries K P)
      → lookup key m ≡ o
      → IsBalanced k m (drop_known key o m)
  drop_known-IsBalanced k key none m h = unchanged k m
  drop_known-IsBalanced k key (some entry) m h = drop_entry-IsBalanced k key entry m h

  pub make_room-IsBalanced : (k : K) (m : Entries K P) → IsBalanced k m (make_room m)
  make_room-IsBalanced k [] = unchanged k []
  make_room-IsBalanced k (first ∷ m) =
      let key = (oldest first m).0 in
      if_cases (IsBalanced k (first ∷ m)) (leb max_repeat_entries (length (first ∷ m)))
        (λ _. drop_known-IsBalanced k key (lookup key (first ∷ m)) (first ∷ m) refl)
        (λ _. unchanged k (first ∷ m))

  -- A change of the entries that only takes keys away, and leaves a map.
  abbrev pub IsSmaller : Entries K P → Changed K P → Type 0
  IsSmaller m o = (IsMap m → IsMap o.1) × ((k : K) → lookup k m ≡ none → lookup k o.1 ≡ none)

  drop_entry-IsSmaller :
      (key : K) (entry : RepeatState P) (m : Entries K P) → IsSmaller m (drop_entry key entry m)
  drop_entry-IsSmaller key entry m = (
    delete-IsMap key m,
    λ k h. lookup-delete key k m ∙ ap (λ o. if e.beq key k then none else o) h ∙ ground arith,
  )

  unchanged-IsSmaller : (m : Entries K P) → IsSmaller m ([], m)
  unchanged-IsSmaller m = ((λ unique. unique), (λ k h. h))

  pub without_stale-IsSmaller :
      (now interval : ℕ) (key : K) (o : Option (RepeatState P)) (m : Entries K P)
      → IsSmaller m (without_stale now interval key o m)
  without_stale-IsSmaller now interval key none m = unchanged-IsSmaller m
  without_stale-IsSmaller now interval key (some entry) m =
      if_cases (IsSmaller m) (is_due interval now entry.last_seen)
        (λ _. drop_entry-IsSmaller key entry m) (λ _. unchanged-IsSmaller m)

  drop_known-IsSmaller :
      (key : K) (o : Option (RepeatState P)) (m : Entries K P) → IsSmaller m (drop_known key o m)
  drop_known-IsSmaller key none m = unchanged-IsSmaller m
  drop_known-IsSmaller key (some entry) m = drop_entry-IsSmaller key entry m

  pub make_room-IsSmaller : (m : Entries K P) → IsSmaller m (make_room m)
  make_room-IsSmaller [] = unchanged-IsSmaller []
  make_room-IsSmaller (first ∷ m) =
      let key = (oldest first m).0 in
      if_cases (IsSmaller (first ∷ m)) (leb max_repeat_entries (length (first ∷ m)))
        (λ _. drop_known-IsSmaller key (lookup key (first ∷ m)) (first ∷ m))
        (λ _. unchanged-IsSmaller (first ∷ m))
