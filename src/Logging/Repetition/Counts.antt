-- ===== src/Logging/Repetition/Counts.antt =====
-- src/logging/repetition.go: no occurrence of a record is lost or written twice.
use mathlib.Core.Path.{subst}
use air_gap.Common.{
  ℕ, ◌+◌, ◌≡◌, refl, sym, ap, ap₂, ◌∙◌, List, [], ◌∷◌, ◌++◌, Bool, true, false, ◌&&◌, Option, none,
  some, ◌==◌, if◌then◌else◌, if_cases, Bool-cases, inl, inr, arith,
}
use air_gap.Common.Maps.{Eq, lookup, insert, delete, lookup-insert, lookup-delete}
use air_gap.Logging.Repetition.{
  RepeatState, RepeatLine, event, summary, Entries, is_due, flush_lines, flushed, flush_all,
  kept_entry, expire_all,
}

abbrev pub one_if : Bool → ℕ
one_if true = 1
one_if false = 0

abbrev pub count_of : {P : Type 0} → Option (RepeatState P) → ℕ
count_of none = 0
count_of (some entry) = entry.count

pub count-flushed : {P : Type 0} (now : ℕ) (entry : RepeatState P) → (flushed now entry).count ≡ 0
unfolding flushed
count-flushed now entry = ground arith

module _ {K : Type 0} {P : Type 0} ⦃e : Eq K⦄ where
  -- How often the lines say that a record has come.
  unfoldable pub shown : K → List (RepeatLine K P) → ℕ
  shown k [] = 0
  shown k (event j params ∷ lines) = one_if (e.beq j k) + shown k lines
  shown k (summary j params n ∷ lines) = (if e.beq j k then n else 0) + shown k lines

  -- How often it has come and has not been written yet.
  abbrev pub pending : K → Entries K P → ℕ
  pending k m = count_of (lookup k m)

  -- A map has one entry for a key.
  abbrev pub IsMap : Entries K P → Type 0
  IsMap [] = Unit
  IsMap ((key, entry) ∷ m) = (lookup key m ≡ none) × IsMap m

  pub shown-append :
      (k : K) (a b : List (RepeatLine K P)) → shown k (a ++ b) ≡ shown k a + shown k b
  unfolding shown
  shown-append k [] b = omega arith
  shown-append k (event j params ∷ a) b = omega (arith, shown-append k a b)
  shown-append k (summary j params n ∷ a) b = omega (arith, shown-append k a b)

  pub shown-flush_lines :
      (k key : K) (entry : RepeatState P)
      → shown k (flush_lines key entry) ≡ (if e.beq key k then entry.count else 0)
  unfolding shown flush_lines
  shown-flush_lines k key entry = ground arith

  pending-cons :
      (k key : K) (entry : RepeatState P) (m : Entries K P)
      → pending k ((key, entry) ∷ m) ≡ (if e.beq key k then entry.count else pending k m)
  unfolding lookup
  pending-cons k key entry m = elim (Bool-cases (e.beq key k)) [
    | inl same ↦ rw same refl
    | inr other ↦ rw other refl
  ]

  -- An entry in front of a map counts for its key alone.
  pending-cons_new :
      (k key : K) (entry : RepeatState P) (m : Entries K P)
      → lookup key m ≡ none
      → pending k ((key, entry) ∷ m) ≡ (if e.beq key k then entry.count else 0) + pending k m
  pending-cons_new k key entry m new = elim (Bool-cases (e.beq key k)) [
    | inl same ↦
        let nothing : pending k m ≡ 0 =
          ap (λ j. pending j m) (sym ((e.beq_iff key k).0 same)) ∙ ap count_of new in
        ground (arith, pending-cons k key entry m)
    | inr other ↦ ground (arith, pending-cons k key entry m)
  ]

  pub shown-flush_all : (k : K) (m : Entries K P) → IsMap m → shown k (flush_all m) ≡ pending k m
  unfolding flush_all shown lookup
  shown-flush_all k [] unique = refl
  shown-flush_all k ((key, entry) ∷ m) unique =
      shown-append k (flush_lines key entry) (flush_all m)
      ∙ ap₂ (λ a b. a + b) (shown-flush_lines k key entry) (shown-flush_all k m unique.1)
      ∙ sym (pending-cons_new k key entry m unique.0)

  lookup-expire_all :
      (k : K) (now interval : ℕ) (m : Entries K P)
      → lookup k m ≡ none
      → lookup k (expire_all now interval m).1 ≡ none
  unfolding expire_all lookup
  lookup-expire_all k now interval [] h = refl
  lookup-expire_all k now interval ((key, entry) ∷ m) h =
      let rest = lookup-expire_all k now interval m in ground (arith, rest)

  kept_entry-IsMap :
      (now interval : ℕ) (key : K) (entry : RepeatState P) (m : Entries K P)
      → lookup key m ≡ none
      → IsMap m
      → IsMap (kept_entry now interval key entry m)
  kept_entry-IsMap now interval key entry m new unique =
      if_cases IsMap (entry.count == 0 && is_due interval now entry.last_seen) (λ _. unique)
        (λ _. (new, unique))

  pub expire_all-IsMap :
      (now interval : ℕ) (m : Entries K P) → IsMap m → IsMap (expire_all now interval m).1
  unfolding expire_all
  expire_all-IsMap now interval [] unique = tt
  expire_all-IsMap now interval ((key, entry) ∷ m) unique =
      let new = lookup-expire_all key now interval m unique.0 in
      let rest = expire_all-IsMap now interval m unique.1 in
      if_cases (λ (o : List (RepeatLine K P) × Entries K P). IsMap o.1)
        (is_due interval now entry.last_emitted)
        (λ _. kept_entry-IsMap now interval key (flushed now entry) _ new rest)
        (λ _. kept_entry-IsMap now interval key entry _ new rest)

  -- An entry that the timer drops has been written.
  pending-kept_entry :
      (k : K) (now interval : ℕ) (key : K) (entry : RepeatState P) (m : Entries K P)
      → lookup key m ≡ none
      → pending k (kept_entry now interval key entry m)
        ≡ (if e.beq key k then entry.count else 0) + pending k m
  pending-kept_entry k now interval key entry m new =
      if_cases (λ o. pending k o ≡ (if e.beq key k then entry.count else 0) + pending k m)
        (entry.count == 0 && is_due interval now entry.last_seen) (λ written. ground arith)
        (λ _. pending-cons_new k key entry m new)

  pub shown-expire_all :
      (k : K) (now interval : ℕ) (m : Entries K P)
      → IsMap m
      → shown k (expire_all now interval m).0 + pending k (expire_all now interval m).1
        ≡ pending k m
  unfolding expire_all shown lookup
  shown-expire_all k now interval [] unique = refl
  shown-expire_all k now interval ((key, entry) ∷ m) unique =
      let lines = (expire_all now interval m).0 in
      let left = (expire_all now interval m).1 in
      let new = lookup-expire_all key now interval m unique.0 in
      let balance = shown-expire_all k now interval m unique.1 in
      let whole = pending-cons_new k key entry m unique.0 in
      if_cases
        (λ (o : List (RepeatLine K P) × Entries K P).
          shown k o.0 + pending k o.1 ≡ pending k ((key, entry) ∷ m))
        (is_due interval now entry.last_emitted)
        (λ _.
          let nothing : (if e.beq key k then (flushed now entry).count else 0) ≡ 0 =
            ground (arith, count-flushed now entry) in
          omega (
            arith,
            shown-append k (flush_lines key entry) lines,
            shown-flush_lines k key entry,
            pending-kept_entry k now interval key (flushed now entry) left new,
            nothing,
            balance,
            whole,
          ))
        (λ _. omega (arith, pending-kept_entry k now interval key entry left new, balance, whole))

  pub insert-IsMap : (k : K) (v : RepeatState P) (m : Entries K P) → IsMap m → IsMap (insert k v m)
  unfolding insert lookup
  insert-IsMap k v [] unique = (refl, tt)
  insert-IsMap k v ((j, w) ∷ m) unique = elim (Bool-cases (e.beq j k)) [
    | inl same ↦
        rw same (subst (λ i. lookup i m ≡ none) ((e.beq_iff j k).0 same) unique.0, unique.1)
    | inr other ↦ rw other (
      (let apart : e.beq k j ≡ false = ground (arith, e.beq_iff j k, e.beq_iff k j) in
          lookup-insert k j v m ∙ ap (λ b. if b then some v else lookup j m) apart ∙ unique.0),
      insert-IsMap k v m unique.1,
    )
  ]

  pub delete-IsMap : (k : K) (m : Entries K P) → IsMap m → IsMap (delete k m)
  unfolding delete
  delete-IsMap k [] unique = tt
  delete-IsMap k ((j, w) ∷ m) unique =
      if_cases IsMap (e.beq j k) (λ _. delete-IsMap k m unique.1)
        (λ _. (
          lookup-delete k j m ∙ ap (λ o. if e.beq k j then none else o) unique.0 ∙ ground arith,
          delete-IsMap k m unique.1,
        ))
