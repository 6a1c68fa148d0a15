-- ===== src/Gaps.antt =====
-- src/gaps/gaps.go: the tool that shows the gap windows of the gap topic. The JSON reader and the
-- bitmap reader are libraries and stand as parameters; error texts are left out.
pub mod Ranges
pub mod State
pub mod Latest
pub mod Windows
use air_gap.Common.{
  Bytes, ℕ, zero, suc, ◌+◌, ◌*◌, List, [], ◌∷◌, ◌++◌, Bool, true, false, not, ◌||◌, ◌&&◌, ltb, leb,
  ◌==◌, if◌then◌else◌, Option, none, some, length, take, drop,
}
use air_gap.Common.Integers.{ℤ, pos, negsuc, ◌+ℤ◌, ◌-ℤ◌}
use air_gap.Common.Text.{
  split, split_n, parse_int, NumError, count, last_index, trim_left, format_int,
}

-- parsedWindow: a relative range is [from] or [from, to].
pub record ParsedWindow : Type 0 where
  pub topic : Bytes
  pub partition : ℤ
  pub window_min : ℤ
  pub window_max : ℤ
  pub rel_gaps : List (List ℤ)
  pub legacy : Bool

-- legacyGapPayload: what the JSON reader makes of a value; a pointer may be nil.
pub record LegacyGapPayload : Type 0 where
  pub topic : Option Bytes
  pub partition : Option ℤ
  pub window_min : Option ℤ
  pub window_max : Option ℤ
  pub gaps : List (List ℤ)

pub data GapError : Type 0 where
  invalid_key invalid_legacy_key invalid_partition invalid_window_min : GapError
  invalid_json missing_field invalid_range : GapError
  too_short unsupported_version invalid_bitmap : GapError

-- A value or an error.
pub data Parsed (A : Type 0) : Type 0 where
  parsed : A → Parsed A
  failed : GapError → Parsed A

infixl 5 ◌>>=◌
abbrev pub ◌>>=◌ : {A : Type 0} {B : Type 0} → Parsed A → (A → Parsed B) → Parsed B
parsed a >>= f = f a
failed e >>= f = failed e

-- windowKey
unfoldable pub window_key : Bytes → ℤ → ℤ → Bytes
window_key topic partition window_min =
    topic ++ (b'-' ∷ (format_int partition ++ (b'-' ∷ format_int window_min)))

-- The results of parseGapKey.
pub record GapKey : Type 0 where
  pub topic : Bytes
  pub partition : ℤ
  pub window_min : ℤ
  pub legacy : Bool

-- The value of a number, or the error given.
abbrev pub number_or : GapError → ℤ × Option NumError → Parsed ℤ
number_or e (n, none) = parsed n
number_or e (n, some problem) = failed e

-- The end of parseGapKey.
abbrev gap_key : Bytes → Bytes → Bytes → Bool → Parsed GapKey
gap_key topic partition_str window_str legacy = do
  partition ← number_or invalid_partition (parse_int partition_str)
  window_min ← number_or invalid_window_min (parse_int window_str)
  parsed (record { topic = topic; partition = partition; window_min = window_min; legacy = legacy })

-- The part of a key before its one colon, cut at the last underscore if that is not its start.
abbrev legacy_key : Bytes → Bytes → Option ℕ → Parsed GapKey
legacy_key front window_str none = failed invalid_legacy_key
legacy_key front window_str (some zero) = failed invalid_legacy_key
legacy_key front window_str (some (suc u)) =
    gap_key (take (u + 1) front) (drop (u + 2) front) window_str true

-- The fields of a key between its colons.
abbrev key_of_fields : List Bytes → Parsed GapKey
key_of_fields (topic ∷ (partition_str ∷ (window_str ∷ []))) =
    gap_key topic partition_str window_str false
key_of_fields (front ∷ (window_str ∷ [])) = legacy_key front window_str (last_index b'_' front)
key_of_fields _ = failed invalid_key

-- parseGapKey
unfoldable pub parse_gap_key : Bytes → Parsed GapKey
parse_gap_key key = key_of_fields (split b':' key)

-- isLegacyJSONPayload
abbrev starts_with_brace : Bytes → Bool
starts_with_brace [] = false
starts_with_brace (b ∷ text) = b == b'{'

unfoldable pub is_legacy_json_payload : Bytes → Bool
is_legacy_json_payload value =
    starts_with_brace (trim_left (b' ' ∷ b'\t' ∷ b'\r' ∷ b'\n' ∷ []) value)

-- The check of the ranges of a legacy record.
unfoldable pub valid_ranges : List (List ℤ) → Bool
valid_ranges [] = true
valid_ranges (gap ∷ gaps) = (length gap == 1 || length gap == 2) && valid_ranges gaps

abbrev or_min : ℤ → Option ℤ → ℤ
or_min window_min none = window_min
or_min window_min (some window_max) = window_max

-- parseLegacyGapPayload once the value is read.
unfoldable pub legacy_window : LegacyGapPayload → Parsed ParsedWindow
legacy_window p = elim (p.topic) [
  | none ↦ failed missing_field
  | some topic ↦ elim (p.partition) [
    | none ↦ failed missing_field
    | some partition ↦ elim (p.window_min) [
      | none ↦ failed missing_field
      | some window_min ↦
          if not (valid_ranges p.gaps)
          then failed invalid_range
          else parsed (record {
            topic = topic;
            partition = partition;
            window_min = window_min;
            window_max = or_min window_min p.window_max;
            rel_gaps = p.gaps;
            legacy = true;
          })
    ]
  ]
]

abbrev json_window : Option LegacyGapPayload → Parsed ParsedWindow
json_window none = failed invalid_json
json_window (some p) = legacy_window p

-- binary.BigEndian.Uint64 on the bytes given.
unfoldable pub big_endian : ℕ → Bytes → ℕ
big_endian n [] = n
big_endian n (b ∷ bytes) = big_endian (n * 256 + b) bytes

-- int64(n) of a uint64.
unfoldable pub to_int64 : ℕ → ℤ
to_int64 n = if ltb n 9223372036854775808 then pos n else pos n -ℤ pos 18446744073709551616

-- A range of positions: [start] or [start, prev].
abbrev pub range : ℕ → ℕ → List ℤ
range start prev = if start == prev then pos start ∷ [] else pos start ∷ pos prev ∷ []

-- The loop of bitmapToRanges: the range that is open (-1 is none), and the positions left.
unfoldable pub ranges_from : Option (ℕ × ℕ) → List ℕ → List (List ℤ)
ranges_from none [] = []
ranges_from (some (start, prev)) [] = range start prev ∷ []
ranges_from none (v ∷ vs) = ranges_from (some (v, v)) vs
ranges_from (some (start, prev)) (v ∷ vs) =
    let rest = ranges_from (if v == prev + 1 then some (start, v) else some (v, v)) vs in
    if v == prev + 1 then rest else range start prev ∷ rest

-- bitmapToRanges
abbrev pub bitmap_to_ranges : List ℕ → List (List ℤ)
bitmap_to_ranges positions = ranges_from none positions

-- How many positions a range of countMissing counts for.
abbrev pub range_size : List ℤ → ℤ
range_size (from ∷ []) = pos 1
range_size (from ∷ (to ∷ [])) = to -ℤ from +ℤ pos 1
range_size _ = pos 0

-- countMissing
unfoldable pub count_missing : List (List ℤ) → ℤ
count_missing [] = pos 0
count_missing (g ∷ gs) = range_size g +ℤ count_missing gs

module _ (unmarshal : Bytes → Option LegacyGapPayload) (read_bitmap : Bytes → Option (List ℕ)) where
  -- The bitmap behind a header of 17 bytes.
  abbrev bitmap_of : Bytes → Parsed (List ℕ)
  bitmap_of [] = parsed []
  bitmap_of (b ∷ bytes) = elim (read_bitmap (b ∷ bytes)) [
    | none ↦ failed invalid_bitmap
    | some positions ↦ parsed positions
  ]

  -- A record of the binary format.
  unfoldable pub binary_window : Bytes → Bytes → Bytes → Parsed ParsedWindow
  binary_window topic partition_str value =
      number_or invalid_partition (parse_int partition_str) >>= λ partition.
      if ltb (length value) 17
      then failed too_short
      else if not (big_endian 0 (take 1 value) == 1)
      then failed unsupported_version
      else (bitmap_of (drop 17 value) >>= λ positions. parsed (record {
        topic = topic;
        partition = partition;
        window_min = to_int64 (big_endian 0 (take 8 (drop 1 value)));
        window_max = to_int64 (big_endian 0 (take 8 (drop 9 value)));
        rel_gaps = bitmap_to_ranges positions;
        legacy = false;
      }))

  abbrev binary_of_fields : List Bytes → Bytes → Parsed ParsedWindow
  binary_of_fields (topic ∷ (partition_str ∷ (rest ∷ []))) value =
      binary_window topic partition_str value
  binary_of_fields _ value = failed invalid_key

  -- parseGapPayload
  unfoldable pub parse_gap_payload : Bytes → Bytes → Parsed ParsedWindow
  parse_gap_payload key value =
      if is_legacy_json_payload value
      then json_window (unmarshal value)
      else binary_of_fields (split_n 3 b':' key) value
