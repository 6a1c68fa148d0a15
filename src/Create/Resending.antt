-- ===== src/Create/Resending.antt =====
-- writeResults of src/create/create.go and filter of src/resend/resend.go: what the create tool
-- writes is what the resend tool sends.
use air_gap.Common.{
  Bytes, ℕ, ◌+◌, ◌≤◌, ◌≡◌, refl, sym, ap, ap₂, ◌∙◌, List, [], ◌∷◌, Bool, false, ◌||◌, ◌&&◌, map,
  arith, ◌==◌, if_cases, All, All-weaken, Outcome, returned,
}
use air_gap.Common.Members.{any, contains}
use air_gap.Common.Maps.{bytes_beq, lookup, bytes_eq}
use air_gap.Common.Integers.{ℤ, pos, eqℤ, ltℤ}
use air_gap.Common.Text.{codes, max_int64}
use air_gap.Create.Keys.{group_key_injective}
use air_gap.Gaps.{ParsedWindow, bitmap_to_ranges}
use air_gap.Resend.{GapResult, JsonFilter, is_for, in_gaps, filter_all, filter, filter_type}
use air_gap.Create.{
  WindowEntry, group_key, window_entry, no_groups, or_nil_slice, group_windows, insert_window,
  sort_windows, absolute_of, output_entry, output_entries, push_entry, resend_file_of,
  write_results,
}
use air_gap.Create.Grouping.{
  any-sort_windows, in_groups-group_windows, group_windows-IsOf, IsFilled, group_windows-IsFull,
}
use air_gap.Create.Offsets.{IsExact, in_gaps-absolute_of, in_gaps-absolute_gaps}

module _ (P : WindowEntry → Type 0) where
  insert_window-All :
      (w : WindowEntry) (ws : List WindowEntry) → P w → All P ws → All P (insert_window w ws)
  unfolding insert_window
  insert_window-All w [] h hs = (h, tt)
  insert_window-All w (v ∷ vs) h hs =
      if_cases (All P) (ltℤ v.window_min w.window_min) (λ _. (hs.0, insert_window-All w vs h hs.1))
        (λ _. (h, hs))

  sort_windows-All : (ws : List WindowEntry) → All P ws → All P (sort_windows ws)
  unfolding sort_windows
  sort_windows-All [] h = tt
  sort_windows-All (w ∷ ws) h = insert_window-All w (sort_windows ws) h.0 (sort_windows-All ws h.1)

insert_window-IsFilled : (w : WindowEntry) (ws : List WindowEntry) → IsFilled (insert_window w ws)
unfolding insert_window
insert_window-IsFilled w [] = (w, [], refl)
insert_window-IsFilled w (v ∷ vs) =
    if_cases IsFilled (ltℤ v.window_min w.window_min) (λ _. (v, insert_window w vs, refl))
      (λ _. (w, v ∷ vs, refl))

sort_windows-IsFilled : (ws : List WindowEntry) → IsFilled ws → IsFilled (sort_windows ws)
unfolding sort_windows
sort_windows-IsFilled [] filled = filled
sort_windows-IsFilled (w ∷ ws) filled = insert_window-IsFilled w (sort_windows ws)

-- The window is of the key, and its partition is a number of int64 that is not negative.
pub record IsUnder (key : Bytes) (e : WindowEntry) : Type 0 where
  pub number : ℕ
  pub of_number : e.partition ≡ pos number
  pub bounded : number ≤ max_int64
  pub under : group_key e.topic e.partition ≡ key

module _ (topic : Bytes) (partition n : ℕ) where
  abbrev mine : WindowEntry → Bool
  mine e = bytes_beq e.topic topic && eqℤ e.partition (pos partition)

  abbrev holds : WindowEntry → Bool
  holds e = in_gaps (pos n) (absolute_of e.window_min e.rel_gaps)

  abbrev pub found : WindowEntry → Bool
  found e = mine e && holds e

  any_found :
      (b : Bool) (ws : List WindowEntry)
      → All (λ e. mine e ≡ b) ws
      → any found ws ≡ b && any holds ws
  unfolding any
  any_found b [] same = ground arith
  any_found b (e ∷ es) same = ground (arith, same.0, any_found b es same.1)

  mine_under : (key : Bytes) (a e : WindowEntry) → IsUnder key a → IsUnder key e → mine e ≡ mine a
  mine_under key a e ha he =
      let (topics, numbers) =
        group_key_injective e.topic a.topic he.number ha.number he.bounded ha.bounded (
          ap (group_key e.topic) (sym he.of_number)
          ∙ he.under
          ∙ sym ha.under
          ∙ ap (group_key a.topic) ha.of_number) in
      ap₂ (λ t p. bytes_beq t topic && eqℤ p (pos partition)) topics
        (he.of_number ∙ ap pos numbers ∙ sym ha.of_number)

  -- The result of a group_of that is sorted.
  abbrev Sends : List WindowEntry → Outcome GapResult → Type 0
  Sends ws o =
      (g : GapResult) × (o ≡ returned g)
      × (is_for topic (pos partition) g && in_gaps (pos n) g.gaps ≡ any found ws)

  output_entry-Sends :
      (key : Bytes) (ws : List WindowEntry)
      → IsFilled ws
      → All (IsUnder key) ws
      → Sends ws (output_entry (codes "all") ws)
  unfolding bytes_beq
  output_entry-Sends key [] (first, rest, e) unders = cc
  output_entry-Sends key (a ∷ ws) filled unders = (
    _,
    refl,
    ap (λ b. mine a && b) (in_gaps-absolute_gaps (pos n) (a ∷ ws))
        ∙ sym (
            any_found (mine a) (a ∷ ws) (
              All-weaken (IsUnder key) (λ e. mine e ≡ mine a) (a ∷ ws)
                (λ e he. mine_under key a e unders.0 he) unders)),
  )

  module _ (grouped : List (Bytes × List WindowEntry)) where
    abbrev of_key : Bytes → List WindowEntry
    of_key key = or_nil_slice (lookup key grouped)

    output_entries-Sends :
        (order : List Bytes)
        → All (λ key. IsFilled (of_key key)) order
        → ((key : Bytes) → All (IsUnder key) (of_key key))
        → (gs : List GapResult) × (output_entries (codes "all") grouped order ≡ returned gs)
          × (filter_all gs topic (pos partition) (pos n)
              ≡ any (λ key. any found (of_key key)) order)
    unfolding output_entries any filter_all
    output_entries-Sends [] filled unders = ([], refl, refl)
    output_entries-Sends (key ∷ keys) filled unders =
        let sorted = sort_windows (of_key key) in
        let (g, written, sends) =
          output_entry-Sends key sorted (sort_windows-IsFilled (of_key key) filled.0)
            (sort_windows-All (IsUnder key) (of_key key) (unders key)) in
        let (gs, rest, sends_rest) = output_entries-Sends keys filled.1 unders in
        (
          g ∷ gs,
          ap₂ push_entry written rest,
          ap₂ (λ a b. a || b) (sends ∙ any-sort_windows found (of_key key)) sends_rest,
        )

-- A live window of the gap topic with the positions that its bitmap holds.
pub record GapWindow : Type 0 where
  pub topic : Bytes
  pub partition : ℕ
  pub window_min : ℕ
  pub window_max : ℤ
  pub positions : List ℕ

abbrev pub window_of : GapWindow → ParsedWindow
window_of w = record {
  topic = w.topic;
  partition = pos w.partition;
  window_min = pos w.window_min;
  window_max = w.window_max;
  rel_gaps = bitmap_to_ranges w.positions;
  legacy = false;
}

-- The offset is missing in a window of the topic and the partition.
abbrev pub is_missing : Bytes → ℕ → ℕ → List GapWindow → Bool
is_missing topic partition n ws =
    any
      (λ w.
        (bytes_beq w.topic topic && (w.partition == partition))
        && contains n (map (λ v. v + w.window_min) w.positions))
      ws

-- The offsets of a window are below 2^53, so that float64 holds them.
abbrev pub IsExactWindow : GapWindow → Type 0
IsExactWindow w = All (IsExact w.window_min) w.positions

any_found_windows :
    (topic : Bytes) (partition n : ℕ) (ws : List GapWindow)
    → All IsExactWindow ws
    → any (λ w. found topic partition n (window_entry w)) (map window_of ws)
      ≡ is_missing topic partition n ws
unfolding any eqℤ
any_found_windows topic partition n [] exact = refl
any_found_windows topic partition n (w ∷ ws) exact =
    ap₂ (λ a b. (bytes_beq w.topic topic && (w.partition == partition)) && a || b)
      (in_gaps-absolute_of w.window_min w.positions n exact.0)
      (any_found_windows topic partition n ws exact.1)

windows-AreUnder :
    (ws : List GapWindow)
    → All (λ w. w.partition ≤ max_int64) ws
    → All (λ w. IsUnder (group_key w.topic w.partition) (window_entry w)) (map window_of ws)
windows-AreUnder [] bounded = tt
windows-AreUnder (w ∷ ws) bounded = (
  record { number = w.partition; of_number = refl; bounded = bounded.0; under = refl },
  windows-AreUnder ws bounded.1,
)

-- The resend file that writeResults makes of windows with a bitmap, in whatever order, with the limit
-- all, makes filter send an offset of a partition exactly when a window of that topic and partition
-- misses it. The first offsets of the windows are not negative, the partitions are numbers of int64
-- that are not negative, and the missing offsets of all windows are below 2^53.
pub resent-iff-missing :
    (ws : List GapWindow) (topic : Bytes) (partition n : ℕ)
    → All (λ w. w.partition ≤ max_int64) ws
    → All IsExactWindow ws
    → (f : JsonFilter) × (write_results (codes "all") (map window_of ws) ≡ returned f)
      × (filter f topic (pos partition) (pos n) ≡ returned (is_missing topic partition n ws))
unfolding write_results filter filter_type bytes_beq lookup any
resent-iff-missing ws topic partition n bounded exact =
    let windows = map window_of ws in
    let groups = group_windows no_groups windows in
    let (gs, written, sends) =
      output_entries-Sends topic partition n groups.grouped groups.group_order
        (group_windows-IsFull no_groups windows tt)
        (group_windows-IsOf IsUnder no_groups windows (windows-AreUnder ws bounded) (λ _. tt)) in
    (
      record { type_text = codes "all"; results = gs },
      ap (resend_file_of (codes "all")) written,
      ap returned (
          sends
          ∙ in_groups-group_windows (found topic partition n) no_groups windows
              (λ key entries h. cc)
          ∙ any_found_windows topic partition n ws exact),
    )
