-- ===== src/Gaps/State.antt =====
-- gapState of src/gaps/gaps.go: the latest record of each window, by format.
use air_gap.Common.{
  Bytes, ℕ, ◌+◌, List, [], ◌∷◌, Bool, true, false, not, if◌then◌else◌, Option, none, some,
}
use air_gap.Common.Maps.{lookup, insert, bytes_eq}
use air_gap.Gaps.{
  ParsedWindow, LegacyGapPayload, GapError, GapKey, Parsed, parsed, failed, window_key,
  parse_gap_key, parse_gap_payload,
}

-- gapParseStats
pub record GapParseStats : Type 0 where
  pub legacy : ℕ
  pub tombstones : ℕ
  pub failed : ℕ
  pub first_err : Option GapError

-- The latest record for a key; nil is a tombstone.
abbrev pub Records : Type 0
Records = List (Bytes × Option ParsedWindow)

pub record GapState : Type 0 where
  pub binary : Records
  pub legacy : Records
  pub stats : GapParseStats

-- newGapState
abbrev pub new_gap_state : GapState
new_gap_state = record {
  binary = [];
  legacy = [];
  stats = record { legacy = 0; tombstones = 0; failed = 0; first_err = none };
}

abbrev or_first : Option GapError → GapError → Option GapError
or_first none e = some e
or_first (some first) e = some first

-- fail
unfoldable pub fail : GapState → GapError → GapState
fail s e = record s {
  stats = record s.stats { failed = s.stats.failed + 1; first_err = or_first s.stats.first_err e };
}

-- A write to the map of the format.
unfoldable pub put : Bool → Bytes → Option ParsedWindow → GapState → GapState
put true k w s = record s { legacy = insert k w s.legacy }
put false k w s = record s { binary = insert k w s.binary }

unfoldable pub count_tombstone : GapState → GapState
count_tombstone s = record s { stats = record s.stats { tombstones = s.stats.tombstones + 1 } }

unfoldable pub count_legacy : Bool → GapState → GapState
count_legacy true s = record s { stats = record s.stats { legacy = s.stats.legacy + 1 } }
count_legacy false s = s

-- The nil error or an error, and the state after.
abbrev pub Applied : Type 0
Applied = Option GapError × GapState

-- apply for an empty value.
unfoldable pub apply_tombstone : GapState → Parsed GapKey → Applied
apply_tombstone s (failed e) = (some e, fail s e)
apply_tombstone s (parsed k) =
    (none, put k.legacy (window_key k.topic k.partition k.window_min) none (count_tombstone s))

-- apply for a value that is not empty.
unfoldable pub apply_window : GapState → Parsed ParsedWindow → Applied
apply_window s (failed e) = (some e, fail s e)
apply_window s (parsed w) = (
  none,
  put w.legacy (window_key w.topic w.partition w.window_min) (some w) (count_legacy w.legacy s),
)

module _ (unmarshal : Bytes → Option LegacyGapPayload) (read_bitmap : Bytes → Option (List ℕ)) where
  -- apply
  unfoldable pub apply : GapState → Bytes → Bytes → Applied
  apply s key [] = apply_tombstone s (parse_gap_key key)
  apply s key (b ∷ value) = apply_window s (parse_gap_payload unmarshal read_bitmap key (b ∷ value))

  -- The handler of Main over the records read: an error is reported and the next record is taken.
  unfoldable pub apply_all : GapState → List (Bytes × Bytes) → GapState
  apply_all s [] = s
  apply_all s ((key, value) ∷ rest) = apply_all (apply s key value).1 rest

-- A key that the binary records or tombstones have.
abbrev pub shadowed : Option (Option ParsedWindow) → Bool
shadowed none = false
shadowed (some w) = true

abbrev pub put_live :
    Bytes → Option ParsedWindow → List (Bytes × ParsedWindow) → List (Bytes × ParsedWindow)
put_live k none result = result
put_live k (some w) result = insert k w result

-- The first loop of windows.
unfoldable pub legacy_windows : Records → Records → List (Bytes × ParsedWindow)
legacy_windows binary [] = []
legacy_windows binary ((k, w) ∷ rest) =
    let result = legacy_windows binary rest in
    if not (shadowed (lookup k binary)) then put_live k w result else result

-- The second loop of windows, onto the result of the first.
unfoldable pub binary_windows : Records → List (Bytes × ParsedWindow) → List (Bytes × ParsedWindow)
binary_windows [] result = result
binary_windows ((k, w) ∷ rest) result = put_live k w (binary_windows rest result)

-- windows: the order in which Go visits a map does not matter, since each key stands once in it.
unfoldable pub windows : GapState → List (Bytes × ParsedWindow)
windows s = binary_windows s.binary (legacy_windows s.binary s.legacy)

abbrev pub hides : Option (Option ParsedWindow) → Option ParsedWindow → Bool
hides (some w) (some v) = true
hides _ _ = false

-- superseded
unfoldable pub superseded_in : Records → Records → ℕ
superseded_in binary [] = 0
superseded_in binary ((k, w) ∷ rest) =
    let n = superseded_in binary rest in if hides (lookup k binary) w then n + 1 else n

abbrev pub superseded : GapState → ℕ
superseded s = superseded_in s.binary s.legacy
