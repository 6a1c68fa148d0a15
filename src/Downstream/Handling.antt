-- ===== src/Downstream/Handling.antt =====
-- handleUdpMessage of src/downstream/downstream.go.
use air_gap.Downstream.Keys.{KeyDisk, KeyUpdate, read_new_key}
use air_gap.Common.{
  Bytes, ℕ, ◌+◌, ◌-◌, ◌*◌, ◌/◌, List, [], ◌∷◌, ◌++◌, Bool, ◌&&◌, Option, none, some, ltb,
  if◌then◌else◌, Outcome, returned, panicked, stuck,
}
use air_gap.Common.Integers.{ℤ, pos, negsuc}
use air_gap.Common.Text.{parse_int}
use air_gap.Protocol.Types.{
  is_message_type, type_message, type_error, type_status, type_key_exchange, type_multipart,
  type_cleartext, type_compressed_gzip,
}
use air_gap.Protocol.Cache.{MessageCache}
use air_gap.Protocol.Parse.{Reply, failed, accepted, parse_message}
use air_gap.Protocol.MessageId.{parse_message_id}
use air_gap.Protocol.Gzip.{Unzipped, unzipped, refused, decompress_gzip}
use air_gap.Downstream.{
  Settings, State, running, parse_error, content, gzip_failed, decrypt_failed, updating_key, Effect,
  written, send_message, translate_topic, is_rotation_frame, send_reports,
}

-- How the handler ends: it returns, or Logger.Fatalf ends the program, or a slice is out of range.
pub data Handled : Type 0 where
  going : State → List Effect → Handled
  fatal : Handled
  crashed : Handled

-- The topic and the partition of a message id, and those for an id of another form.
abbrev pub destination : Settings → Option (Bytes × (Bytes × Bytes)) → Bytes × Bytes
destination config none = (config.topic, b'0' ∷ [])
destination config (some (topic, (partition, offset))) = (topic, partition)

-- The counters of a record that was written.
abbrev pub count_write : State → State
count_write s = record s {
  received_events = s.received_events + 1;
  sent_events = s.sent_events + 1;
  total_received = s.total_received + 1;
  total_sent = s.total_sent + 1;
}

-- kafkaWriter.Write behind the check for an int32.
abbrev pub write_record : State → Bytes → Bytes → ℤ → Bytes → Handled
write_record s id topic (negsuc n) payload = fatal
write_record s id topic (pos n) payload =
    if ltb 2147483647 n then fatal else going (count_write s) (written id topic n payload ∷ [])

-- A key exchange is dropped within the interval since the last one; times are nanoseconds.
abbrev pub too_soon : Settings → State → ℕ → Bool
too_soon config s now =
    ltb 0 (config.key_exchange_min_interval_secs * 1000000000)
    && ltb (now - s.last_key_exchange_nano) (config.key_exchange_min_interval_secs * 1000000000)

abbrev pub key_read : Settings → State → Option KeyUpdate → Handled
key_read config s none = crashed
key_read config s (some u) =
    going (record s { key = u.key; key_infos = u.key_infos })
      (send_reports config.topic u.reports
        ++ send_message type_status [] config.topic (updating_key u.file))

-- The rest of a run, with the effects until then.
abbrev pub prepend : List Effect → Handled → Handled
prepend effects (going s more) = going s (effects ++ more)
prepend effects fatal = fatal
prepend effects crashed = crashed

abbrev pub and_then : Handled → (State → Handled) → Handled
and_then (going s effects) k = prepend effects (k s)
and_then fatal k = fatal
and_then crashed k = crashed

-- The symmetric cipher, gzip and the private keys.
module _ (decrypt : Bytes → Bytes → Option Bytes) (gunzip : Bytes → Option (Bytes × Bool))
    (keys : KeyDisk) (config : Settings) where
  -- A payload to be written, decompressed if the type says so.
  abbrev pub unpacked : State → Bytes → Bytes → ℤ → Unzipped → Handled
  unpacked s id topic partition (refused e) =
      going s (send_message type_error id config.topic (gzip_failed e))
  unpacked s id topic partition (unzipped payload) = write_record s id topic partition payload

  abbrev pub unpack : ℕ → Bytes → Unzipped
  unpack t payload =
      if is_message_type t type_compressed_gzip
      then decompress_gzip gunzip payload config.maximum_decompress_size
      else unzipped payload

  abbrev pub decrypted : ℕ → State → Bytes → Bytes → ℤ → Option Bytes → Handled
  decrypted t s id topic partition none =
      going s (send_message type_error id config.topic decrypt_failed)
  decrypted t s id topic partition (some payload) = unpacked s id topic partition (unpack t payload)

  abbrev pub exchange_key : State → ℕ → Bytes → Handled
  exchange_key s now payload =
      if too_soon config s now
      then going s []
      else let s' = record s { last_key_exchange_nano = now } in
        key_read config s' (read_new_key keys s'.key s'.key_infos payload)

  -- The switch on the type of the message.
  unfoldable pub dispatch : State → ℕ → ℕ → Bytes → Bytes → Bytes → ℤ → Handled
  dispatch s now t id payload topic partition =
      if is_message_type t type_cleartext
      then unpacked s id topic partition (unpack t payload)
      else if is_message_type t type_message
      then decrypted t s id topic partition (decrypt payload s.key)
      else if is_message_type t type_key_exchange
      then exchange_key s now payload
      else if is_message_type t type_error
      then going s (send_message type_error id config.topic (content payload))
      else if is_message_type t type_multipart
      then going s []
      else going s (send_message type_message [] config.topic (content payload))

  -- What the handler does with the result of ParseMessage.
  unfoldable pub handle_reply : State → ℕ → Reply → Handled
  handle_reply s now (failed e) = going (record s { transport_status = parse_error e }) []
  handle_reply s now (accepted t id payload) =
      let (topic, partition) = destination config (parse_message_id id) in
      dispatch (record s { transport_status = running }) now t id payload
        (translate_topic config topic) (parse_int partition).0

  abbrev pub handle_parsed : State → ℕ → Outcome (Reply × MessageCache) → Handled
  handle_parsed s now panicked = crashed
  handle_parsed s now stuck = crashed
  handle_parsed s now (returned (reply, cache)) =
      handle_reply (record s { cache = cache }) now reply

  module _ (md5_hex : Bytes → Bytes) where
    -- handleUdpMessage at a time in nanoseconds; the cache counts in milliseconds.
    unfoldable pub handle_udp_message : State → ℕ → Bytes → Handled
    handle_udp_message s now msg =
        if is_rotation_frame msg
        then going s []
        else handle_parsed s now (parse_message md5_hex s.cache (now / 1000000) msg)

    -- The packets of a transport, one after the other, with their times.
    unfoldable pub handle_all : State → List (ℕ × Bytes) → Handled
    handle_all s [] = going s []
    handle_all s ((now, msg) ∷ rest) =
        and_then (handle_udp_message s now msg) (λ s'. handle_all s' rest)
