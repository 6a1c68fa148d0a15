-- ===== src/Examples/GapTopic.antt =====
-- src/gaps at a small gap topic, with a bitmap reader that reads one position and no JSON.
use air_gap.Common.{
  Bytes, ℕ, List, [], ◌∷◌, ◌++◌, true, false, ◌≡◌, refl, Option, none, some, replicate,
}
use air_gap.Common.Text.{split, last_index, parse_int, digits, format_int}
use air_gap.Common.Maps.{lookup, bytes_eq}
use air_gap.Gaps.{LegacyGapPayload, bitmap_to_ranges, parse_gap_key, window_key}
use air_gap.Gaps.Ranges.{expand, expand-bitmap_to_ranges}
use air_gap.Gaps.State.{new_gap_state, apply_all, windows}
use air_gap.Gaps.Windows.{shown}
use air_gap.Gaps.Latest.{latest, entry_of, windows-apply_all}

abbrev some_positions : List ℕ
some_positions = 3 ∷ 4 ∷ 5 ∷ 9 ∷ []

expand-bitmap_to_ranges_example : expand (bitmap_to_ranges some_positions) ≡ some_positions
expand-bitmap_to_ranges_example = expand-bitmap_to_ranges some_positions

abbrev no_json : Bytes → Option LegacyGapPayload
no_json text = none

abbrev one_position : Bytes → Option (List ℕ)
one_position bytes = some bytes

-- t:0:0 and t_0:0
abbrev binary_key : Bytes
binary_key = b't' ∷ b':' ∷ b'0' ∷ b':' ∷ b'0' ∷ []

abbrev old_key : Bytes
old_key = b't' ∷ b'_' ∷ b'0' ∷ b':' ∷ b'0' ∷ []

abbrev zero_key : Bytes
zero_key = b't' ∷ b'-' ∷ b'0' ∷ b'-' ∷ b'0' ∷ []

abbrev record_value : Bytes
record_value = 1 ∷ (replicate 15 0 ++ (9 ∷ 7 ∷ []))

abbrev topic_messages : List (Bytes × Bytes)
topic_messages = (binary_key, record_value) ∷ (old_key, []) ∷ []

windows-apply_all_example :
    lookup zero_key (windows (apply_all no_json one_position new_gap_state topic_messages))
    ≡ shown
        (latest no_json one_position false zero_key topic_messages)
        (latest no_json one_position true zero_key topic_messages)
windows-apply_all_example = windows-apply_all no_json one_position topic_messages zero_key

old_entry : entry_of no_json one_position old_key [] ≡ some (true, (zero_key, none))
unfolding parse_gap_key split last_index parse_int digits window_key format_int
old_entry = refl

new_entry : entry_of no_json one_position binary_key [] ≡ some (false, (zero_key, none))
unfolding parse_gap_key split parse_int digits window_key format_int
new_entry = refl
