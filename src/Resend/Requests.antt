-- ===== src/Resend/Requests.antt =====
-- src/resend/resend.go: the selection that a run starts from, of a file or of the settings, and the
-- last offsets that Kafka has for it. The reader of JSON and Kafka are parameters.
use air_gap.Common.{
  Bytes, List, [], ◌∷◌, not, ◌&&◌, ◌==◌, if◌then◌else◌, Option, none, some, length,
}
use air_gap.Common.Integers.{ℤ, pos, negsuc, eqℤ, ltℤ}
use air_gap.Common.Text.{codes}
use air_gap.Resend.{GapResult, JsonFilter, map_downstream_to_upstream_partition}

-- The settings for a selection without a file.
pub record Request : Type 0 where
  pub topic : Bytes
  pub partition : ℤ
  pub offset_from : ℤ
  pub offset_to : ℤ
  pub from : Bytes

abbrev one_result : Bytes → Request → List ℤ → JsonFilter
one_result type_text r gap = record {
  type_text = type_text;
  results =
      record {
        topic = r.topic;
        partition = r.partition;
        gaps = gap ∷ [];
        window_max = pos 0;
        window_min = pos 0;
        last_offset = pos 0;
      }
      ∷ [];
}

-- parseFile: what the file holds or what the settings ask for; none is an error.
unfoldable pub parse_file : (Bytes → Option JsonFilter) → Bytes → Request → Option JsonFilter
parse_file read_json (b ∷ file_name) r = read_json (b ∷ file_name)
parse_file read_json [] r =
    if not (length r.topic == 0)
      && (not (ltℤ r.partition (pos 0))
          && (not (ltℤ r.offset_from (pos 0)) && not (ltℤ r.offset_to (negsuc 0))))
    then some (one_result (codes "manual") r (r.offset_from ∷ r.offset_to ∷ []))
    else if not (length r.topic == 0) && not (length r.from == 0)
    then some (one_result (codes "time-range") r (pos 0 ∷ negsuc 0 ∷ []))
    else none

-- What getLatestOffsets comes to; Logger.Fatalf ends the program when Kafka has no answer.
pub data Offsets : Type 0 where
  offsets : List GapResult → Offsets
  bad_partition : Offsets
  no_offset : Offsets

abbrev push_result : GapResult → Offsets → Offsets
push_result g (offsets gs) = offsets (g ∷ gs)
push_result g bad_partition = bad_partition
push_result g no_offset = no_offset

abbrev with_offset : GapResult → Option ℤ → Offsets → Offsets
with_offset g (some last) rest = push_result (record g { last_offset = last }) rest
with_offset g none rest = if eqℤ g.partition (negsuc 0) then push_result g rest else no_offset

abbrev at_partition : (Bytes → ℤ → Option ℤ) → GapResult → Option ℤ → Offsets → Offsets
at_partition get_last_offset g none rest = bad_partition
at_partition get_last_offset g (some partition) rest =
    with_offset g (get_last_offset g.topic partition) rest

-- getLatestOffsets
unfoldable pub get_latest_offsets : (Bytes → ℤ → Option ℤ) → ℤ → List GapResult → Offsets
get_latest_offsets get_last_offset start [] = offsets []
get_latest_offsets get_last_offset start (g ∷ gs) =
    at_partition get_last_offset g (map_downstream_to_upstream_partition g.partition start)
      (get_latest_offsets get_last_offset start gs)
