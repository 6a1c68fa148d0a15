-- ===== src/Examples/Receiver.antt =====
-- src/downstream at concrete packets.
use air_gap.Common.{
  Bytes, ℕ, ◌≤◌, List, [], ◌∷◌, ◌++◌, ◌≡◌, ◌≢◌, refl, Option, none, some, length, arith, true,
  false, Bool,
}
use mathlib.Core.Path.{subst}
use air_gap.Common.Integers.{pos}
use air_gap.Common.Maps.{bytes_eq, bytes_beq}
use air_gap.Common.Text.{codes, has_prefix, parse_int, split, digits}
use air_gap.Protocol.Checksum.{calculate_checksum}
use air_gap.Common.Slices.{be16, slice}
use air_gap.Protocol.Types.{is_message_type}
use air_gap.Protocol.Parse.{parse_message, decode, decode_id, decode_payload, receive_packet}
use air_gap.Protocol.Format.Outcomes.{sent}
use air_gap.Protocol.Cache.{create_message_cache}
use air_gap.Protocol.Gzip.{Fits, decompress_gzip, decompress_gzip-Fits}
use air_gap.Protocol.MessageId.{parse_message_id}
use air_gap.Downstream
use air_gap.Downstream.{
  Settings, State, running, Effect, written, key_report, updating_key, translate_topic,
  send_message, send_reports, is_rotation_frame,
}
use air_gap.Downstream.Keys.{
  KeyInfo, KeyDisk, rsa_key, loaded, got_key, purged, armored, loaded_already, load_files,
  read_private_keys, try_keys, read_new_key,
}
use air_gap.Common.Members.{any}
use air_gap.Downstream.Handling.{
  handle_reply, dispatch, going, crashed, count_write, handle_udp_message, handle_all,
}
use air_gap.Downstream.Counting.{AreCounted, count_written, handle_all_counts}
use air_gap.Downstream.Safety.{never_crashes}
use air_gap.Examples.Packets.{toy_hex, five, new_cache-IsSound}

abbrev pub settings : Settings
settings = record {
  topic = codes "status";
  topic_translations = [];
  translations = [];
  maximum_decompress_size = pos 100;
  key_exchange_min_interval_secs = 2;
}

abbrev pub start : State
start = record {
  cache = create_message_cache;
  key = [];
  transport_status = running;
  received_events = 0;
  sent_events = 0;
  total_received = 0;
  total_sent = 0;
  last_key_exchange_nano = 5;
  key_infos = [];
}

-- A cipher that changes nothing, a compression that changes nothing, a key that opens everything.
abbrev pub plain_cipher : Bytes → Bytes → Option Bytes
plain_cipher payload key = some payload

abbrev pub plain_gzip : Bytes → Option (Bytes × Bool)
plain_gzip payload = some (payload, true)

abbrev long_text : Bytes → Option Bytes
long_text payload = some (codes "KEY_UPDATE#k")

-- One file with a key; its text is its bytes.
abbrev pub open_keys : KeyDisk
open_keys = record {
  glob_fails = false;
  files =
      record {
        file_name = codes "a.pem";
        is_readable = true;
        lines = codes "-----BEGIN" ∷ codes "key" ∷ codes "-----END" ∷ [];
      }
      ∷ [];
  decode64 = λ text. (text, true);
  hash = λ der. der;
  parse = λ der. rsa_key long_text;
}

abbrev key_info : KeyInfo
key_info = record {
  private_key = some long_text;
  private_key_filename = codes "a.pem";
  private_key_hash = codes "key";
}

abbrev event_id : Bytes
event_id = codes "t_3_5"

decompress_gzip-Fits_example : Fits 4 (decompress_gzip plain_gzip five (pos 4))
decompress_gzip-Fits_example = decompress_gzip-Fits plain_gzip five 4

-- A packet of its own with an id and a payload, and the same as a key exchange.
abbrev packet_of : ℕ → Bytes → Bytes → Bytes
packet_of t id payload =
    t ∷ (0 ∷ 1 ∷ 0 ∷ 1 ∷ 0 ∷ length id ∷ [])
    ++ (id ++ (codes "7777" ++ (0 ∷ length payload ∷ payload)))

abbrev event : Bytes
event = packet_of 6 event_id five

abbrev exchange : Bytes
exchange = packet_of 3 [] (codes "KEY_UPDATE#???")

abbrev exchanged : State
exchanged = record start {
  key = codes "k";
  last_key_exchange_nano = 2000000005;
  key_infos = key_info ∷ [];
}

abbrev key_messages : List Effect
key_messages =
    Downstream.sent none (codes "status") true (key_report (loaded (codes "a.pem")))
    ∷ Downstream.sent none (codes "status") true (key_report (got_key (codes "a.pem")))
    ∷ Downstream.sent none (codes "status") true (updating_key (codes "a.pem"))
    ∷ []

event_run :
    handle_all plain_cipher plain_gzip open_keys settings toy_hex start ((0, event) ∷ [])
    ≡ going (count_write start) (written event_id (codes "t") 3 five ∷ [])
unfolding handle_all handle_udp_message is_rotation_frame be16 has_prefix parse_message decode
    decode_id decode_payload slice receive_packet calculate_checksum handle_reply dispatch
    is_message_type parse_message_id split parse_int digits translate_topic bytes_beq
    create_message_cache read_new_key read_private_keys purged load_files armored loaded_already any
    try_keys send_message send_reports
event_run = refl

-- The second exchange comes too soon.
exchange_run :
    handle_all plain_cipher plain_gzip open_keys settings toy_hex start
      ((2000000005, exchange) ∷ (2000000004, exchange) ∷ [])
    ≡ going exchanged key_messages
unfolding handle_all handle_udp_message is_rotation_frame be16 has_prefix parse_message decode
    decode_id decode_payload slice receive_packet calculate_checksum handle_reply dispatch
    is_message_type parse_message_id split parse_int digits translate_topic bytes_beq
    create_message_cache read_new_key read_private_keys purged load_files armored loaded_already any
    try_keys send_message send_reports
exchange_run = refl

handle_all_counts_example :
    AreCounted start (count_written (written event_id (codes "t") 3 five ∷ [])) (count_write start)
handle_all_counts_example =
    handle_all_counts plain_cipher plain_gzip open_keys settings toy_hex ((0, event) ∷ []) start
      (count_write start) (written event_id (codes "t") 3 five ∷ []) event_run

long_text-YieldsLong : (payload text : Bytes) → long_text payload ≡ some text → 11 ≤ length text
long_text-YieldsLong payload text e =
    subst (λ t. 11 ≤ length t) {x = codes "KEY_UPDATE#k"} (cc e)
      (let h : 11 ≤ length (codes "KEY_UPDATE#k") = omega arith in h)

never_crashes_example :
    handle_all plain_cipher plain_gzip open_keys settings toy_hex start ((0, five) ∷ []) ≢ crashed
unfolding create_message_cache
never_crashes_example =
    never_crashes plain_cipher plain_gzip open_keys settings toy_hex ((0, five) ∷ []) start
      (long_text-YieldsLong, tt) tt (omega arith) new_cache-IsSound
