-- ===== src/Gaps/Windows.antt =====
-- windows of src/gaps/gaps.go: which record of a window counts.
use air_gap.Common.{
  Bytes, ◌≡◌, refl, ap, ◌∙◌, List, [], ◌∷◌, false, Bool-cases, inl, inr, arith, if◌then◌else◌,
  Option, none, some, Option-cases,
}
use mathlib.Core.Path.{subst}
use air_gap.Common.Maps.{lookup, insert, bytes_eq, bytes_beq, bytes_beq_iff, lookup-insert}
use air_gap.Gaps.{ParsedWindow}
use air_gap.Gaps.State.{
  Records, GapState, shadowed, put_live, legacy_windows, binary_windows, windows,
}

-- Each key stands once in the list, as in a map of Go.
abbrev pub IsMap : Records → Type 0
IsMap [] = Unit
IsMap ((k, w) ∷ rest) = (lookup k rest ≡ none) × IsMap rest

lookup-insert_other :
    (j k : Bytes) (w : Option ParsedWindow) (m : Records)
    → bytes_beq j k ≡ false
    → lookup j m ≡ none
    → lookup j (insert k w m) ≡ none
lookup-insert_other j k w m other absent =
    let apart : bytes_beq k j ≡ false = ground (arith, bytes_beq_iff k j, bytes_beq_iff j k) in
    lookup-insert k j w m ∙ rw apart absent

pub insert-IsMap :
    (k : Bytes) (w : Option ParsedWindow) (m : Records) → IsMap m → IsMap (insert k w m)
unfolding insert lookup
insert-IsMap k w [] h = (refl, tt)
insert-IsMap k w ((j, v) ∷ m) h = elim (Bool-cases (bytes_beq j k)) [
  | inl same ↦ rw same (subst (λ i. lookup i m ≡ none) ((bytes_beq_iff j k).0 same) h.0, h.1)
  | inr other ↦ rw other (lookup-insert_other j k w m other h.0, insert-IsMap k w m h.1)
]

-- A live record before others.
abbrev pick : Option ParsedWindow → Option ParsedWindow → Option ParsedWindow
pick none r = r
pick (some w) r = some w

pick-none : (w : Option ParsedWindow) → pick w none ≡ w
pick-none none = refl
pick-none (some w) = refl

lookup-put_live :
    (j k : Bytes) (w : Option ParsedWindow) (r : List (Bytes × ParsedWindow))
    → lookup k (put_live j w r) ≡ (if bytes_beq j k then pick w (lookup k r) else lookup k r)
lookup-put_live j k none r = elim (Bool-cases (bytes_beq j k)) [
  | inl same ↦ rw same refl
  | inr other ↦ rw other refl
]
lookup-put_live j k (some w) r = lookup-insert j k w r

abbrev flat : Option (Option ParsedWindow) → Option ParsedWindow
flat none = none
flat (some w) = w

lookup-binary_windows :
    (m : Records) (result : List (Bytes × ParsedWindow)) (k : Bytes)
    → IsMap m
    → lookup k (binary_windows m result) ≡ pick (flat (lookup k m)) (lookup k result)
unfolding binary_windows lookup
lookup-binary_windows [] result k h = refl
lookup-binary_windows ((j, w) ∷ m) result k h =
    lookup-put_live j k w (binary_windows m result) ∙ (elim (Bool-cases (bytes_beq j k)) [
      | inl same ↦
          let absent = subst (λ i. lookup i m ≡ none) ((bytes_beq_iff j k).0 same) h.0 in
          rw same (ap (pick w) (lookup-binary_windows m result k h.1 ∙ rw absent refl))
      | inr other ↦ rw other (lookup-binary_windows m result k h.1)
    ])

hidden_none :
    (o : Option (Option ParsedWindow))
    → let nothing : Option ParsedWindow = none in nothing ≡ (if shadowed o then none else none)
hidden_none none = refl
hidden_none (some w) = refl

-- The records of the legacy format count where the binary ones have no entry.
lookup-legacy_windows :
    (binary m : Records) (k : Bytes)
    → IsMap m
    → lookup k (legacy_windows binary m)
      ≡ (if shadowed (lookup k binary) then none else flat (lookup k m))
unfolding legacy_windows lookup
lookup-legacy_windows binary [] k h = hidden_none (lookup k binary)
lookup-legacy_windows binary ((j, w) ∷ m) k h =
    let rest = lookup-legacy_windows binary m k h.1 in
    elim (Option-cases (lookup j binary)) [
      | inl free ↦ rw free (
          lookup-put_live j k w (legacy_windows binary m) ∙ (elim (Bool-cases (bytes_beq j k)) [
            | inl same ↦
                let e = (bytes_beq_iff j k).0 same in
                let free' = subst (λ i. lookup i binary ≡ none) e free in
                let absent = subst (λ i. lookup i m ≡ none) e h.0 in
                rw (same, free') (ap (pick w) (rest ∙ rw (free', absent) refl) ∙ pick-none w)
            | inr other ↦ rw other rest
          ]))
      | inr (v, hidden) ↦ rw hidden (
          rest ∙ (elim (Bool-cases (bytes_beq j k)) [
            | inl same ↦
                let hidden' =
                  subst (λ i. lookup i binary ≡ some v) ((bytes_beq_iff j k).0 same) hidden in
                rw (same, hidden') refl
            | inr other ↦ rw other refl
          ]))
    ]

-- What the tool shows of a window with these two latest records: the binary record, or nothing
-- behind a binary tombstone, and the legacy record only if there is no binary one.
abbrev pub shown : Option (Option ParsedWindow) → Option (Option ParsedWindow) → Option ParsedWindow
shown (some binary) legacy = binary
shown none legacy = flat legacy

shown_lem :
    (b l : Option (Option ParsedWindow))
    → pick (flat b) (if shadowed b then none else flat l) ≡ shown b l
shown_lem none l = refl
shown_lem (some none) l = refl
shown_lem (some (some w)) l = refl

pub lookup-windows :
    (s : GapState) (k : Bytes)
    → IsMap s.binary
    → IsMap s.legacy
    → lookup k (windows s) ≡ shown (lookup k s.binary) (lookup k s.legacy)
unfolding windows
lookup-windows s k b l =
    lookup-binary_windows s.binary _ k b
    ∙ ap (pick (flat (lookup k s.binary))) (lookup-legacy_windows s.binary s.legacy k l)
    ∙ shown_lem (lookup k s.binary) (lookup k s.legacy)
