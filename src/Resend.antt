-- ===== src/Resend.antt =====
-- src/resend/resend.go: which records are sent again, by the gaps of a resend file. Offsets and
-- partitions are integers; an index out of range panics.
pub mod Selecting
pub mod Partitions
pub mod Requests
pub mod Reading
use air_gap.Common.{
  Bytes, ℕ, zero, suc, ◌+◌, List, [], ◌∷◌, Bool, true, false, not, ◌&&◌, ◌||◌, if◌then◌else◌,
  Option, none, some, Outcome, returned, panicked,
}
use air_gap.Common.Maps.{bytes_beq}
use air_gap.Common.Integers.{ℤ, pos, negsuc, ◌+ℤ◌, ◌-ℤ◌, eqℤ, ltℤ}

-- GapResult
pub record GapResult : Type 0 where
  pub topic : Bytes
  pub partition : ℤ
  pub gaps : List (List ℤ)
  pub window_max : ℤ
  pub window_min : ℤ
  pub last_offset : ℤ

-- The types of a resend file that the code knows.
pub data FilterType : Type 0 where
  first all manual time_range other : FilterType

-- JsonFilter
pub record JsonFilter : Type 0 where
  pub type_text : Bytes
  pub results : List GapResult

-- The switch on the type.
unfoldable pub filter_type : Bytes → FilterType
filter_type text =
    if bytes_beq text (b'f' ∷ b'i' ∷ b'r' ∷ b's' ∷ b't' ∷ [])
    then first
    else if bytes_beq text (b'a' ∷ b'l' ∷ b'l' ∷ [])
    then all
    else if bytes_beq text (b'm' ∷ b'a' ∷ b'n' ∷ b'u' ∷ b'a' ∷ b'l' ∷ [])
    then manual
    else if bytes_beq text
        (b't' ∷ b'i' ∷ b'm' ∷ b'e' ∷ b'-' ∷ b'r' ∷ b'a' ∷ b'n' ∷ b'g' ∷ b'e' ∷ [])
    then time_range
    else other

-- Gaps[0][0], if there is one.
abbrev pub first_number : List (List ℤ) → Option ℤ
first_number ((n ∷ ns) ∷ gaps) = some n
first_number _ = none

abbrev is_some : Option ℤ → Bool
is_some none = false
is_some (some n) = true

abbrev or_zero : Option ℤ → ℤ
or_zero none = pos 0
or_zero (some n) = n

unfoldable pub any_gap : List (List ℤ) → Bool
any_gap [] = false
any_gap ([] ∷ gaps) = any_gap gaps
any_gap ((n ∷ ns) ∷ gaps) = true

-- hasUsableGaps
unfoldable pub has_usable_gaps : FilterType → GapResult → Bool
has_usable_gaps first result = is_some (first_number result.gaps)
has_usable_gaps manual result = is_some (first_number result.gaps)
has_usable_gaps all result = any_gap result.gaps
has_usable_gaps time_range result = true
has_usable_gaps other result = true

-- isPartitionInConfiguredRange
unfoldable pub is_partition_in_configured_range : ℤ → ℤ → ℤ → Bool
unfolding eqℤ ltℤ ◌+ℤ◌
is_partition_in_configured_range partition start stop =
    if eqℤ partition (negsuc 0)
    then eqℤ stop (pos 0)
    else if ltℤ partition start
    then false
    else if eqℤ stop (pos 0)
    then true
    else ltℤ partition (start +ℤ stop)

-- The loop of filterJsonFilterByPartitionRange.
unfoldable pub results_in_range : FilterType → ℤ → ℤ → List GapResult → List GapResult
results_in_range t start stop [] = []
results_in_range t start stop (result ∷ results) =
    let rest = results_in_range t start stop results in
    if is_partition_in_configured_range result.partition start stop && has_usable_gaps t result
    then result ∷ rest
    else rest

-- filterJsonFilterByPartitionRange
unfoldable pub filter_json_filter_by_partition_range : JsonFilter → ℤ → ℤ → JsonFilter
filter_json_filter_by_partition_range f start stop =
    if eqℤ stop (pos 0)
    then f
    else record f { results = results_in_range (filter_type f.type_text) start stop f.results }

-- getStartOffsetForResult
unfoldable pub get_start_offset_for_result : FilterType → GapResult → ℤ
get_start_offset_for_result first result = or_zero (first_number result.gaps)
get_start_offset_for_result all result = or_zero (first_number result.gaps)
get_start_offset_for_result manual result = or_zero (first_number result.gaps)
get_start_offset_for_result time_range result = pos 0
get_start_offset_for_result other result = pos 0

-- mapDownstreamToUpstreamPartition; none is the error.
unfoldable pub map_downstream_to_upstream_partition : ℤ → ℤ → Option ℤ
unfolding eqℤ ltℤ ◌-ℤ◌
map_downstream_to_upstream_partition partition start =
    if eqℤ partition (negsuc 0)
    then some (negsuc 0)
    else if ltℤ (partition -ℤ start) (pos 0)
    then none
    else some (partition -ℤ start)

-- mapUpstreamToDownstreamPartition
unfoldable pub map_upstream_to_downstream_partition : ℤ → ℤ → ℤ
unfolding eqℤ ◌+ℤ◌
map_upstream_to_downstream_partition partition start =
    if eqℤ partition (negsuc 0) then negsuc 0 else partition +ℤ start

abbrev pub is_for : Bytes → ℤ → GapResult → Bool
is_for topic partition g = bytes_beq g.topic topic && eqℤ g.partition partition

-- isLast
unfoldable pub is_last : List GapResult → Bytes → ℤ → ℤ → Bool
is_last [] topic partition offset = false
is_last (g ∷ gs) topic partition offset =
    if is_for topic partition g
    then not (ltℤ offset g.last_offset)
    else is_last gs topic partition offset

-- A gap of the type all.
unfoldable pub in_gap : ℤ → List ℤ → Bool
unfolding eqℤ ltℤ
in_gap offset [] = false
in_gap offset (exact ∷ []) = eqℤ offset exact
in_gap offset (from ∷ (to ∷ rest)) = not (ltℤ offset from) && not (ltℤ to offset)

unfoldable pub in_gaps : ℤ → List (List ℤ) → Bool
unfolding in_gap
in_gaps offset [] = false
in_gaps offset (gap ∷ gaps) = in_gap offset gap || in_gaps offset gaps

-- The loops of filter over the results.
unfoldable pub filter_all : List GapResult → Bytes → ℤ → ℤ → Bool
filter_all [] topic partition offset = false
filter_all (g ∷ gs) topic partition offset =
    (is_for topic partition g && in_gaps offset g.gaps) || filter_all gs topic partition offset

abbrev from_first : ℤ → Option ℤ → Bool
from_first offset none = false
from_first offset (some n) = not (ltℤ offset n)

unfoldable pub filter_first : List GapResult → Bytes → ℤ → ℤ → Bool
filter_first [] topic partition offset = false
filter_first (g ∷ gs) topic partition offset =
    let rest = filter_first gs topic partition offset in
    if is_for topic partition g then from_first offset (first_number g.gaps) else rest

-- Gaps[0][1] is read behind the test for the topic, and may be out of range.
abbrev within : ℤ → List ℤ → Outcome Bool
within offset [] = returned false
within offset (from ∷ []) = panicked
within offset (from ∷ (to ∷ rest)) =
    returned (not (ltℤ offset from) && (not (ltℤ to offset) || eqℤ to (negsuc 0)))

abbrev pub manual_gap : Bool → ℤ → List (List ℤ) → Outcome Bool
manual_gap mine offset [] = returned false
manual_gap mine offset ([] ∷ gaps) = returned false
manual_gap true offset ((n ∷ ns) ∷ gaps) = within offset (n ∷ ns)
manual_gap false offset ((n ∷ ns) ∷ gaps) = returned false

unfoldable pub filter_manual : List GapResult → Bytes → ℤ → ℤ → Outcome Bool
filter_manual [] topic partition offset = returned false
filter_manual (g ∷ gs) topic partition offset = manual_gap (is_for topic partition g) offset g.gaps

abbrev filter_time_range : List GapResult → Bytes → ℤ → Bool
filter_time_range [] topic partition = false
filter_time_range (g ∷ gs) topic partition =
    bytes_beq g.topic topic && (eqℤ g.partition partition || eqℤ g.partition (negsuc 0))

-- The cases of the switch in filter.
abbrev pub filter_by : FilterType → List GapResult → Bytes → ℤ → ℤ → Outcome Bool
filter_by first results topic partition offset =
    returned (filter_first results topic partition offset)
filter_by all results topic partition offset = returned (filter_all results topic partition offset)
filter_by manual results topic partition offset = filter_manual results topic partition offset
filter_by time_range results topic partition offset =
    returned (filter_time_range results topic partition)
filter_by other results topic partition offset = returned true

-- filter
unfoldable pub filter : JsonFilter → Bytes → ℤ → ℤ → Outcome Bool
filter f topic partition offset =
    filter_by (filter_type f.type_text) f.results topic partition offset
