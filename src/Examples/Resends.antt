-- ===== src/Examples/Resends.antt =====
-- src/resend with a small resend file.
use air_gap.Common.{
  Bytes, ℕ, ◌+◌, ◌≡◌, refl, List, [], ◌∷◌, ◌++◌, ◌⊎◌, inl, Option, none, Bool, true, false, some,
  map, arith,
}
use air_gap.Common.Members.{contains}
use air_gap.Protocol.Types.{merge}
use air_gap.Common.Maps.{bytes_beq}
use air_gap.Common.Integers.{ℤ, pos, eqℤ, ◌+ℤ◌}
use air_gap.Gaps.{bitmap_to_ranges}
use air_gap.Common.Text.{codes, split, parse_int, digits, format_int, join}
use air_gap.InputFilter.{Matching, answered, should_filter_out}
use air_gap.Protocol.Format.Outcomes.{sent, format_message-sent}
use air_gap.Examples.Packets.{toy_hex, five}
use air_gap.Resend.Reading.{TransferConfiguration, ResendState, read_partition}
use air_gap.Resend.Reading.Answers.{Expected, arrival, summary}
use air_gap.Resend.Reading.Missing.{Fits, read_partition-missing}
use air_gap.Resend.{
  GapResult, JsonFilter, all, manual, filter_type, is_for, map_upstream_to_downstream_partition,
}

abbrev logs : Bytes
logs = b'l' ∷ []

abbrev result_with : List (List ℤ) → GapResult
result_with gaps = record {
  topic = logs;
  partition = pos 2;
  gaps = gaps;
  window_max = pos 99;
  window_min = pos 0;
  last_offset = pos 0;
}

abbrev lost : List ℕ
lost = 3 ∷ 4 ∷ 9 ∷ []

abbrev all_file : JsonFilter
all_file = record {
  type_text = b'a' ∷ b'l' ∷ b'l' ∷ [];
  results = result_with (bitmap_to_ranges lost) ∷ [];
}

all_kind : filter_type all_file.type_text ≡ all
unfolding filter_type bytes_beq
all_kind = refl

abbrev manual_file : JsonFilter
manual_file = record {
  type_text = b'm' ∷ b'a' ∷ b'n' ∷ b'u' ∷ b'a' ∷ b'l' ∷ [];
  results = result_with ((pos 5 ∷ []) ∷ []) ∷ [];
}

manual_kind : filter_type manual_file.type_text ≡ manual
unfolding filter_type bytes_beq
manual_kind = refl

manual_mine : is_for logs (pos 2) (result_with ((pos 5 ∷ []) ∷ [])) ≡ true
unfolding bytes_beq eqℤ
manual_mine = refl

abbrev config : TransferConfiguration Bytes
config = record {
  partition_start_value = pos 0;
  from_time = 10;
  to_time = 90;
  input_filter = none;
  compress_when_length_exceeds = 0;
  encryption = false;
  key = [];
  payload_size = 20;
  min_interval = 7;
  keep_running = true;
}

abbrev fresh : ResendState
fresh = record {
  received_events = 0;
  total_received = 0;
  sent_events = 0;
  total_sent = 0;
  last_send_time = 0;
  finished = [];
}

-- A record of the partition 2 at an offset below 10.
abbrev id_at : ℕ → Bytes
id_at n = codes "l_2_" ++ (n + b'0') ∷ []

abbrev expected_at : ℕ → Bool → Expected
expected_at n arrives = record {
  delivery = record {
    id = id_at n;
    time = 10 + n;
    payload = five;
    now = 1;
    cancelled = false;
    arrives = arrives;
  };
  offset = n;
  messages = sent toy_hex 6 20 (id_at n) five;
}

abbrev file_with_end : GapResult
file_with_end = record (result_with (bitmap_to_ranges lost)) { last_offset = pos 6 }

abbrev resend_file : JsonFilter
resend_file = record all_file { results = file_with_end ∷ [] }

abbrev encrypt_nothing : Bytes → Bytes → Bytes ⊎ Bytes
encrypt_nothing payload key = inl (codes "no key")

abbrev no_gzip : Bytes → Option Bytes
no_gzip payload = none

abbrev never : Bytes → Bytes → Matching
never pattern text = answered 0 false

expected_3-Fits :
    Fits config encrypt_nothing toy_hex no_gzip never logs (pos 2) (expected_at 3 true)
unfolding split parse_int digits map_upstream_to_downstream_partition eqℤ ◌+ℤ◌ join format_int
    should_filter_out merge
expected_3-Fits = record {
  place = refl;
  not_before = refl;
  not_after = refl;
  goes_on = refl;
  packing =
      format_message-sent toy_hex 6 20 (id_at 3) five (omega arith) (omega arith) (omega arith);
}

expected_5-Fits :
    Fits config encrypt_nothing toy_hex no_gzip never logs (pos 2) (expected_at 5 true)
unfolding split parse_int digits map_upstream_to_downstream_partition eqℤ ◌+ℤ◌ join format_int
    should_filter_out merge
expected_5-Fits = record {
  place = refl;
  not_before = refl;
  not_after = refl;
  goes_on = refl;
  packing =
      format_message-sent toy_hex 6 20 (id_at 5) five (omega arith) (omega arith) (omega arith);
}

expected_9-Fits :
    Fits config encrypt_nothing toy_hex no_gzip never logs (pos 2) (expected_at 9 false)
unfolding split parse_int digits map_upstream_to_downstream_partition eqℤ ◌+ℤ◌ join format_int
    should_filter_out merge
expected_9-Fits = record {
  place = refl;
  not_before = refl;
  not_after = refl;
  goes_on = refl;
  packing =
      format_message-sent toy_hex 6 20 (id_at 9) five (omega arith) (omega arith) (omega arith);
}

expected_6-Fits :
    Fits config encrypt_nothing toy_hex no_gzip never logs (pos 2) (expected_at 6 true)
unfolding split parse_int digits map_upstream_to_downstream_partition eqℤ ◌+ℤ◌ join format_int
    should_filter_out merge
expected_6-Fits = record {
  place = refl;
  not_before = refl;
  not_after = refl;
  goes_on = refl;
  packing =
      format_message-sent toy_hex 6 20 (id_at 6) five (omega arith) (omega arith) (omega arith);
}

abbrev earlier : List Expected
earlier = expected_at 3 true ∷ expected_at 5 true ∷ expected_at 6 true ∷ []

end_here : map_upstream_to_downstream_partition (pos 2) (pos 0) ≡ pos 2
unfolding map_upstream_to_downstream_partition eqℤ ◌+ℤ◌
end_here = refl

read_partition-missing_example :
    summary (
      read_partition config encrypt_nothing toy_hex no_gzip never resend_file 9 fresh
        (map arrival earlier ++ arrival (expected_at 9 false) ∷ []))
    ≡ some (
      pos 2 ∷ pos 2 ∷ [],
      sent toy_hex 6 20 (id_at 3) five ∷ sent toy_hex 6 20 (id_at 9) five ∷ [],
    )
unfolding contains
read_partition-missing_example =
    read_partition-missing config encrypt_nothing toy_hex no_gzip never resend_file file_with_end
      lost (pos 2) 6 all_kind refl refl end_here refl earlier (expected_at 9 false) 9 [] fresh
      (expected_3-Fits, (expected_5-Fits, (expected_6-Fits, tt))) expected_9-Fits
      (refl, (refl, (refl, tt))) refl
