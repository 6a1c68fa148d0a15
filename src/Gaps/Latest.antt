-- ===== src/Gaps/Latest.antt =====
-- apply of src/gaps/gaps.go over a whole topic: for each window the last record of each format
-- counts, and the formats are joined at the end.
use air_gap.Common.{
  Bytes, ℕ, ◌≡◌, refl, sym, ap, ap₂, ◌∙◌, List, [], ◌∷◌, ◌++◌, Bool, true, false, not, Bool-cases,
  inl, inr, ◌&&◌, if◌then◌else◌, Option, none, some,
}
use air_gap.Common.Maps.{lookup, bytes_eq, bytes_beq, lookup-insert}
use air_gap.Gaps.{
  ParsedWindow, GapError, LegacyGapPayload, Parsed, parsed, failed, window_key, parse_gap_key,
  parse_gap_payload, GapKey,
}
use air_gap.Gaps.State.{
  Records, GapState, new_gap_state, fail, put, count_tombstone, count_legacy, apply_tombstone,
  apply_window, apply, apply_all, windows,
}
use air_gap.Gaps.Windows.{IsMap, insert-IsMap, shown, lookup-windows}

-- The records of a format: true is the legacy one.
abbrev pub records_of : Bool → GapState → Records
records_of true s = s.legacy
records_of false s = s.binary

-- A record: its format, its window, and the ranges or a tombstone.
abbrev pub Entry : Type 0
Entry = Bool × (Bytes × Option ParsedWindow)

abbrev tombstone_of : Parsed GapKey → Option Entry
tombstone_of (failed e) = none
tombstone_of (parsed k) = some (k.legacy, (window_key k.topic k.partition k.window_min, none))

abbrev window_of : Parsed ParsedWindow → Option Entry
window_of (failed e) = none
window_of (parsed w) = some (w.legacy, (window_key w.topic w.partition w.window_min, some w))

abbrev agree : Bool → Bool → Bool
agree true b = b
agree false b = not b

-- What an entry says of a window in a format.
abbrev says : Bool → Bytes → Option Entry → Option (Option ParsedWindow)
says legacy k none = none
says legacy k (some (format, (j, w))) =
    if agree legacy format && bytes_beq j k then some w else none

abbrev pub or_else :
    Option (Option ParsedWindow) → Option (Option ParsedWindow) → Option (Option ParsedWindow)
or_else none old = old
or_else (some w) old = some w

or_else_assoc :
    (a b c : Option (Option ParsedWindow)) → or_else (or_else a b) c ≡ or_else a (or_else b c)
or_else_assoc none b c = refl
or_else_assoc (some w) b c = refl

lookup-put :
    (legacy format : Bool) (j k : Bytes) (w : Option ParsedWindow) (s : GapState)
    → lookup k (records_of legacy (put format j w s))
      ≡ or_else (says legacy k (some (format, (j, w)))) (lookup k (records_of legacy s))
unfolding put
lookup-put true false j k w s = refl
lookup-put false true j k w s = refl
lookup-put true true j k w s =
    lookup-insert j k w s.legacy
    ∙ (elim (Bool-cases (bytes_beq j k)) [ inl same ↦ rw same refl | inr other ↦ rw other refl ])
lookup-put false false j k w s =
    lookup-insert j k w s.binary
    ∙ (elim (Bool-cases (bytes_beq j k)) [ inl same ↦ rw same refl | inr other ↦ rw other refl ])

records_of-count_tombstone :
    (legacy : Bool) (s : GapState) → records_of legacy (count_tombstone s) ≡ records_of legacy s
unfolding count_tombstone
records_of-count_tombstone true s = refl
records_of-count_tombstone false s = refl

records_of-count_legacy :
    (legacy b : Bool) (s : GapState) → records_of legacy (count_legacy b s) ≡ records_of legacy s
unfolding count_legacy
records_of-count_legacy true true s = refl
records_of-count_legacy true false s = refl
records_of-count_legacy false true s = refl
records_of-count_legacy false false s = refl

records_of-fail :
    (legacy : Bool) (s : GapState) (e : GapError)
    → records_of legacy (fail s e) ≡ records_of legacy s
unfolding fail
records_of-fail true s e = refl
records_of-fail false s e = refl

lookup-apply_tombstone :
    (legacy : Bool) (k : Bytes) (s : GapState) (r : Parsed GapKey)
    → lookup k (records_of legacy (apply_tombstone s r).1)
      ≡ or_else (says legacy k (tombstone_of r)) (lookup k (records_of legacy s))
unfolding apply_tombstone
lookup-apply_tombstone legacy k s (failed e) = ap (lookup k) (records_of-fail legacy s e)
lookup-apply_tombstone legacy k s (parsed g) =
    lookup-put legacy g.legacy _ k none (count_tombstone s)
    ∙ ap (λ m. or_else (says legacy k (tombstone_of (parsed g))) (lookup k m))
        (records_of-count_tombstone legacy s)

lookup-apply_window :
    (legacy : Bool) (k : Bytes) (s : GapState) (r : Parsed ParsedWindow)
    → lookup k (records_of legacy (apply_window s r).1)
      ≡ or_else (says legacy k (window_of r)) (lookup k (records_of legacy s))
unfolding apply_window
lookup-apply_window legacy k s (failed e) = ap (lookup k) (records_of-fail legacy s e)
lookup-apply_window legacy k s (parsed w) =
    lookup-put legacy w.legacy _ k (some w) (count_legacy w.legacy s)
    ∙ ap (λ m. or_else (says legacy k (window_of (parsed w))) (lookup k m))
        (records_of-count_legacy legacy w.legacy s)

-- Each key stands once in both maps.
abbrev pub IsSound : GapState → Type 0
IsSound s = IsMap s.binary × IsMap s.legacy

put-IsSound :
    (b : Bool) (k : Bytes) (w : Option ParsedWindow) (s : GapState)
    → IsSound s
    → IsSound (put b k w s)
unfolding put
put-IsSound true k w s h = (h.0, insert-IsMap k w s.legacy h.1)
put-IsSound false k w s h = (insert-IsMap k w s.binary h.0, h.1)

count_legacy-IsSound : (b : Bool) (s : GapState) → IsSound s → IsSound (count_legacy b s)
unfolding count_legacy
count_legacy-IsSound true s h = h
count_legacy-IsSound false s h = h

apply_tombstone-IsSound :
    (s : GapState) (r : Parsed GapKey) → IsSound s → IsSound (apply_tombstone s r).1
unfolding apply_tombstone fail count_tombstone
apply_tombstone-IsSound s (failed e) h = h
apply_tombstone-IsSound s (parsed k) h = put-IsSound k.legacy _ none (count_tombstone s) h

apply_window-IsSound :
    (s : GapState) (r : Parsed ParsedWindow) → IsSound s → IsSound (apply_window s r).1
unfolding apply_window fail
apply_window-IsSound s (failed e) h = h
apply_window-IsSound s (parsed w) h =
    put-IsSound w.legacy _ (some w) (count_legacy w.legacy s) (count_legacy-IsSound w.legacy s h)

module _ (unmarshal : Bytes → Option LegacyGapPayload) (read_bitmap : Bytes → Option (List ℕ)) where
  -- What a message of the topic says, if it can be read.
  abbrev pub entry_of : Bytes → Bytes → Option Entry
  entry_of key [] = tombstone_of (parse_gap_key key)
  entry_of key (b ∷ value) = window_of (parse_gap_payload unmarshal read_bitmap key (b ∷ value))

  -- The last entry of the messages for a window in a format.
  unfoldable pub latest : Bool → Bytes → List (Bytes × Bytes) → Option (Option ParsedWindow)
  latest legacy k [] = none
  latest legacy k ((key, value) ∷ rest) =
      or_else (latest legacy k rest) (says legacy k (entry_of key value))

  lookup-apply :
      (legacy : Bool) (k : Bytes) (s : GapState) (key value : Bytes)
      → lookup k (records_of legacy (apply unmarshal read_bitmap s key value).1)
        ≡ or_else (says legacy k (entry_of key value)) (lookup k (records_of legacy s))
  unfolding apply
  lookup-apply legacy k s key [] = lookup-apply_tombstone legacy k s (parse_gap_key key)
  lookup-apply legacy k s key (b ∷ value) =
      lookup-apply_window legacy k s (parse_gap_payload unmarshal read_bitmap key (b ∷ value))

  lookup-apply_all :
      (legacy : Bool) (k : Bytes) (s : GapState) (messages : List (Bytes × Bytes))
      → lookup k (records_of legacy (apply_all unmarshal read_bitmap s messages))
        ≡ or_else (latest legacy k messages) (lookup k (records_of legacy s))
  unfolding apply_all latest
  lookup-apply_all legacy k s [] = refl
  lookup-apply_all legacy k s ((key, value) ∷ rest) =
      lookup-apply_all legacy k (apply unmarshal read_bitmap s key value).1 rest
      ∙ ap (or_else (latest legacy k rest)) (lookup-apply legacy k s key value)
      ∙ sym (or_else_assoc (latest legacy k rest) (says legacy k (entry_of key value)) _)

  apply-IsSound :
      (s : GapState) (key value : Bytes)
      → IsSound s
      → IsSound (apply unmarshal read_bitmap s key value).1
  unfolding apply
  apply-IsSound s key [] h = apply_tombstone-IsSound s (parse_gap_key key) h
  apply-IsSound s key (b ∷ value) h =
      apply_window-IsSound s (parse_gap_payload unmarshal read_bitmap key (b ∷ value)) h

  apply_all-IsSound :
      (messages : List (Bytes × Bytes)) (s : GapState)
      → IsSound s
      → IsSound (apply_all unmarshal read_bitmap s messages)
  unfolding apply_all
  apply_all-IsSound [] s h = h
  apply_all-IsSound ((key, value) ∷ rest) s h =
      apply_all-IsSound rest (apply unmarshal read_bitmap s key value).1
        (apply-IsSound s key value h)

  or_else-none : (o : Option (Option ParsedWindow)) → or_else o none ≡ o
  or_else-none none = refl
  or_else-none (some w) = refl

  -- After any messages of the gap topic, the windows hold for each key the last binary record, or
  -- nothing if that is a tombstone, and the last legacy record only if there is no binary one.
  pub windows-apply_all :
      (messages : List (Bytes × Bytes)) (k : Bytes)
      → lookup k (windows (apply_all unmarshal read_bitmap new_gap_state messages))
        ≡ shown (latest false k messages) (latest true k messages)
  unfolding lookup
  windows-apply_all messages k =
      let sound = apply_all-IsSound messages new_gap_state (tt, tt) in
      lookup-windows (apply_all unmarshal read_bitmap new_gap_state messages) k sound.0 sound.1
      ∙ ap₂ shown
          (lookup-apply_all false k new_gap_state messages ∙ or_else-none (latest false k messages))
          (lookup-apply_all true k new_gap_state messages ∙ or_else-none (latest true k messages))

  latest_swapped :
      (legacy : Bool) (k : Bytes) (front rest : List (Bytes × Bytes))
      (key value key' value' : Bytes) (i j : Bytes) (w v : Option ParsedWindow)
      → entry_of key value ≡ some (true, (i, w))
      → entry_of key' value' ≡ some (false, (j, v))
      → latest legacy k (front ++ ((key, value) ∷ (key', value') ∷ rest))
        ≡ latest legacy k (front ++ ((key', value') ∷ (key, value) ∷ rest))
  unfolding latest
  latest_swapped true k [] rest key value key' value' i j w v a b =
      rw (a, b)
        (ap (λ o. or_else o (says true k (some (true, (i, w))))) (or_else-none (latest true k rest))
          ∙ sym (or_else-none _))
  latest_swapped false k [] rest key value key' value' i j w v a b =
      rw (a, b)
        (or_else-none _
          ∙ sym (
              ap (λ o. or_else o (says false k (some (false, (j, v)))))
                (or_else-none (latest false k rest))))
  latest_swapped legacy k (m ∷ front) rest key value key' value' i j w v a b =
      ap (λ o. or_else o (says legacy k (entry_of m.0 m.1)))
        (latest_swapped legacy k front rest key value key' value' i j w v a b)

  -- Two messages next to each other of which one is a legacy record and the other a binary one, or
  -- their tombstones, may be read in either order: the windows at the end hold the same.
  pub windows_swapped :
      (k : Bytes) (front rest : List (Bytes × Bytes)) (key value key' value' : Bytes) (i j : Bytes)
      (w v : Option ParsedWindow)
      → entry_of key value ≡ some (true, (i, w))
      → entry_of key' value' ≡ some (false, (j, v))
      → lookup k (
          windows (
            apply_all unmarshal read_bitmap new_gap_state
              (front ++ ((key, value) ∷ (key', value') ∷ rest))))
        ≡ lookup k (
            windows (
              apply_all unmarshal read_bitmap new_gap_state
                (front ++ ((key', value') ∷ (key, value) ∷ rest))))
  windows_swapped k front rest key value key' value' i j w v a b =
      windows-apply_all _ k
      ∙ ap₂ shown (latest_swapped false k front rest key value key' value' i j w v a b)
          (latest_swapped true k front rest key value key' value' i j w v a b)
      ∙ sym (windows-apply_all _ k)
