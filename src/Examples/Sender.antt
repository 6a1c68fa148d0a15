-- ===== src/Examples/Sender.antt =====
-- src/upstream at concrete records, and a record that crosses the diode.
use air_gap.Common.{
  Bytes, List, [], ◌∷◌, ◌++◌, ◌≡◌, ◌⊎◌, inr, refl, Option, none, some, map, replicate, arith, false,
  true,
}
use air_gap.Common.Integers.{pos, ◌+ℤ◌}
use air_gap.Common.Maps.{lookup, bytes_eq, bytes_beq}
use air_gap.Common.Text.{codes, parse_int, digits, join, format_int}
use air_gap.InputFilter.{Matching}
use air_gap.Protocol.Format.Outcomes.{sent}
use air_gap.Protocol.MessageId.{parse_message_id}
use air_gap.Downstream as Receiver
use air_gap.Upstream.Templates.{Fields, GuardSettings}
use air_gap.Upstream.Sending.{
  Settings, running, Counter, State, delivered, answered, count_sent, send_loop, delivers,
  translate_topic, transform_message_id, kafka_handler,
}
use air_gap.Upstream.Sending.Retrying.{refusal, send_loop_delivers}
use air_gap.Upstream.Sending.Accounting.{Fate, LetGo, kafka_handler-Fate}
use air_gap.Upstream.Sending.MessageIds.{transform-parse_message_id}
use air_gap.Examples.Packets.{toy_hex, five}

abbrev zeros : Counter
zeros = record { recent = 0; total = 0 }

abbrev idle : State
idle = record {
  transport_status = running;
  received = zeros;
  sent = zeros;
  messages_sent = zeros;
  messages_dropped = zeros;
  lost = zeros;
  filtered = zeros;
  unfiltered = zeros;
  filter_timeouts = zeros;
}

abbrev guard : GuardSettings
guard = record { message = []; default_message = codes "lost"; format = codes "text"; values = [] }

abbrev plain : Settings Bytes
plain = record {
  topic_translations = codes "{}";
  translations = (codes "a", codes "t") ∷ [];
  partition_start_value = pos 2;
  input_filter = none;
  deliver_filter = none;
  max_event_bytes = 0;
  compress_when_length_exceeds = 0;
  encryption = false;
  key = [];
  payload_size = 20;
  is_tcp = false;
  tcp_retry_times = 0;
  lost_event_guard = true;
  guard = guard;
  keep_running = true;
}

-- A limit of four bytes, and a compression that changes nothing.
abbrev limited : Settings Bytes
limited = record plain { max_event_bytes = 4; compress_when_length_exceeds = 1 }

abbrev toy_encrypt : Bytes → Bytes → Bytes ⊎ Bytes
toy_encrypt payload key = inr payload

abbrev no_json : Bytes → Option Fields
no_json text = none

abbrev no_text : Fields → Option Bytes
no_text _ = none

abbrev no_file : Bytes → Bytes → Bytes
no_file id payload = []

abbrev no_match : Bytes → Bytes → Matching
no_match pattern payload = air_gap.InputFilter.answered 0 false

send_loop_delivers_example :
    send_loop true
      (some 30)
      idle
      (five ∷ [])
      1
      none
      (map refusal (codes "down" ∷ []) ++ (delivered ∷ []))
    ≡ answered true (count_sent idle 1) (replicate 2 (five ∷ []))
send_loop_delivers_example =
    send_loop_delivers true (some 30) idle (five ∷ []) (codes "down" ∷ []) [] refl

kafka_handler-Fate_example :
    Fate true 0 0 (delivered ∷ []) (LetGo 3 5 (delivers limited none (codes "a_1_5"))) (
      kafka_handler limited toy_encrypt toy_hex no_json no_text no_file
        (delivered ∷ [])
        some
        no_match
        idle
        3
        (codes "a_1_5")
        5
        five)
kafka_handler-Fate_example =
    kafka_handler-Fate limited toy_encrypt toy_hex no_json no_text no_file (delivered ∷ []) some
      no_match idle 3 (codes "a_1_5") 5 five

transform-parse_message_id_example :
    (id' : Bytes) × (transform_message_id plain
        (join (codes "_") (codes "a" ∷ codes "1" ∷ codes "5" ∷ []))
      ≡ some id')
    × (parse_message_id id'
        ≡ some (translate_topic plain (codes "a"), (format_int (pos 3), codes "5")))
    × (parse_int (format_int (pos 3)) ≡ (pos 3, none))
unfolding parse_int digits ◌+ℤ◌ translate_topic lookup bytes_beq
transform-parse_message_id_example =
    transform-parse_message_id plain (codes "a") (codes "1") (codes "5") (pos 1) 3 (refl, tt)
      (refl, tt) (refl, tt) (refl, tt) refl refl (omega arith)

abbrev packed : List Bytes
packed = sent toy_hex 6 20 (codes "t_3_5") five
