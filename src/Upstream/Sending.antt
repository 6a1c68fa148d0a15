-- ===== src/Upstream/Sending.antt =====
-- kafkaHandlerWithContext of src/upstream/upstream.go: from a record of Kafka to the packets that
-- are given to the transport, with transformMessageID, encodeForTransport and the retries. The
-- cipher, gzip, the engine of regular expressions and JSON are parameters, and so is the path of
-- the file that writeLostEvent writes. Settings that count are not negative, which the checks of the
-- configuration ensure or which acts as 0.
pub mod Retrying
pub mod Accounting
pub mod MessageIds
use air_gap.Common.{
  ◌⊎◌, inl, inr, ◌++◌, Bytes, ℕ, ◌+◌, List, [], ◌∷◌, ◌++◌, Bool, true, false, not, ◌&&◌, ◌||◌, ltb,
  leb, ◌==◌, if◌then◌else◌, Option, none, some, length, Outcome, returned, panicked, stuck,
}
use air_gap.Common.Integers.{ℤ, pos, negsuc, ◌+ℤ◌}
use air_gap.Common.Maps.{lookup, bytes_eq}
use air_gap.Common.Text.{NumError, codes, split, join, parse_int, format_int}
use air_gap.Protocol.Types.{merge, type_message, type_cleartext, type_compressed_gzip}
use air_gap.Protocol.Format.{format_message}
use air_gap.InputFilter.{
  Matching, MatchError, match_panic, match_timeout, InputFilter, should_filter_out,
}
use air_gap.Filter.{Filter, check}
use air_gap.Upstream.Templates.{Fields, GuardSettings, lost_event_context, lost_event_payload}

-- The settings that the handler reads.
pub record Settings {ℓ} (R : Type ℓ) : Type ℓ where
  pub topic_translations : Bytes
  pub translations : List (Bytes × Bytes)
  pub partition_start_value : ℤ
  pub input_filter : Option (InputFilter R)
  pub deliver_filter : Option Filter
  pub max_event_bytes : ℕ
  pub compress_when_length_exceeds : ℕ
  pub encryption : Bool
  pub key : Bytes
  pub payload_size : ℕ
  pub is_tcp : Bool
  pub tcp_retry_times : ℕ
  pub lost_event_guard : Bool
  pub guard : GuardSettings
  pub keep_running : Bool

-- transportStatus: "running" or the text of an error.
pub data Status : Type 0 where
  running : Status
  broken : Bytes → Status

-- A counter since the last report and the one since the start, which the code raises together.
pub record Counter : Type 0 where
  pub recent : ℕ
  pub total : ℕ

pub record State : Type 0 where
  pub transport_status : Status
  pub received : Counter
  pub sent : Counter
  pub messages_sent : Counter
  pub messages_dropped : Counter
  pub lost : Counter
  pub filtered : Counter
  pub unfiltered : Counter
  pub filter_timeouts : Counter

abbrev pub raise : ℕ → Counter → Counter
raise n c = record { recent = c.recent + n; total = c.total + n }

-- What one call of SendMessages comes to: after an error the loop waits, or the context ends.
pub data Attempt : Type 0 where
  delivered : Attempt
  refused : Bytes → Bool → Attempt

-- How the handler ends: with an answer to Kafka, the state and the calls of SendMessages; it waits
-- for the next attempt; or the program ends, by Logger.Fatalf or a panic.
pub data Handled : Type 0 where
  answered : Bool → State → List (List Bytes) → Handled
  sending : State → List (List Bytes) → Handled
  fatal : Handled
  crashed : Handled

-- The limit of the retries: none is no limit.
abbrev pub within : Option ℕ → ℕ → Bool
within none attempt = true
within (some limit) attempt = leb attempt limit

-- Behind the loop: transportErr is nil when no attempt was made.
abbrev pub gave_up : State → Option Bytes → Handled
gave_up s none = crashed
gave_up s (some error) =
    answered false
      (record s { transport_status = broken error; messages_dropped = raise 1 s.messages_dropped })
      []

abbrev pub count_sent : State → ℕ → State
count_sent s n = record s {
  transport_status = running;
  sent = raise n s.sent;
  messages_sent = raise 1 s.messages_sent;
}

-- A call of SendMessages in front of what follows.
abbrev pub called : List Bytes → Handled → Handled
called messages (answered keep s calls) = answered keep s (messages ∷ calls)
called messages (sending s calls) = sending s (messages ∷ calls)
called messages fatal = fatal
called messages crashed = crashed

abbrev pub attempted : Bool → State → List Bytes → Attempt → Handled → Handled
attempted keep_running s messages delivered rest =
    answered keep_running (count_sent s (length messages)) []
attempted keep_running s messages (refused error true) rest = answered false s []
attempted keep_running s messages (refused error false) rest = rest

abbrev pub last_error : Attempt → Option Bytes
last_error delivered = none
last_error (refused error cancelled) = some error

-- The loop of the retries, from attempt number `attempt` on.
unfoldable pub send_loop :
    Bool → Option ℕ → State → List Bytes → ℕ → Option Bytes → List Attempt → Handled
send_loop keep_running limit s messages attempt error [] =
    if within limit attempt then sending s [] else gave_up s error
send_loop keep_running limit s messages attempt error (a ∷ attempts) =
    let rest = send_loop keep_running limit s messages (attempt + 1) (last_error a) attempts in
    if within limit attempt
    then called messages (attempted keep_running s messages a rest)
    else gave_up s error

abbrev or_input : Bytes → Option Bytes → Bytes
or_input input none = input
or_input input (some output) = output

module _ {ℓ} {R : Type ℓ} (config : Settings R) where
  -- translateTopic
  unfoldable pub translate_topic : Bytes → Bytes
  translate_topic input =
      if length config.topic_translations == 0
      then input
      else or_input input (lookup input config.translations)

  -- transformMessageID: none is a partition out of the range of int32, which ends the program.
  abbrev pub moved : Bytes → Bytes → ℤ → Option Bytes
  moved topic offset (negsuc n) = none
  moved topic offset (pos n) =
      if ltb 2147483647 n
      then none
      else some (join (codes "_") (topic ∷ format_int (pos n) ∷ offset ∷ []))

  abbrev pub with_partition : Bytes → Bytes → Bytes → ℤ × Option NumError → Option Bytes
  with_partition topic partition offset (n, some error) =
      some (join (codes "_") (topic ∷ partition ∷ offset ∷ []))
  with_partition topic partition offset (n, none) =
      moved topic offset (n +ℤ config.partition_start_value)

  abbrev pub transform_parts : Bytes → List Bytes → Option Bytes
  transform_parts id (topic ∷ (partition ∷ (offset ∷ []))) =
      with_partition (translate_topic topic) partition offset (parse_int partition)
  transform_parts id _ = some id

  unfoldable pub transform_message_id : Bytes → Option Bytes
  transform_message_id id = transform_parts id (split b'_' id)

  -- The limit of the retries: 30 over UDP, and 0 is no limit over TCP.
  abbrev pub max_retries : Option ℕ
  max_retries =
      if config.is_tcp
      then (if config.tcp_retry_times == 0 then none else some config.tcp_retry_times)
      else some 30

  -- The input filter: the payload and the counters. An error lets the payload pass.
  abbrev pub input_filtered : State → Bytes → Bool × Option MatchError → State × Bytes
  input_filtered s received (out, some match_timeout) =
      (record s { filter_timeouts = raise 1 s.filter_timeouts }, received)
  input_filtered s received (out, some match_panic) = (s, received)
  input_filtered s received (true, none) = (record s { filtered = raise 1 s.filtered }, [])
  input_filtered s received (false, none) =
      (record s { unfiltered = raise 1 s.unfiltered }, received)

  abbrev pub apply_input_filter :
      (R → Bytes → Matching) → State → Bytes → Option (InputFilter R) → State × Bytes
  apply_input_filter matching s received none = (s, received)
  apply_input_filter matching s received (some f) =
      input_filtered s received (should_filter_out matching (some f) received)

  -- The deliver filter reads the offset of the id; an id of another form passes.
  abbrev pub offset_passes : Filter → ℤ × Option NumError → Outcome Bool
  offset_passes f (offset, some error) = returned true
  offset_passes f (offset, none) = check f offset

  abbrev pub parts_pass : Filter → List Bytes → Outcome Bool
  parts_pass f (topic ∷ (partition ∷ (offset ∷ []))) = offset_passes f (parse_int offset)
  parts_pass f _ = returned true

  abbrev pub delivers : Option Filter → Bytes → Outcome Bool
  delivers none id = returned true
  delivers (some f) id = parts_pass f (split b'_' id)

  module _ (encrypt : Bytes → Bytes → Bytes ⊎ Bytes) (md5_hex : Bytes → Bytes) where
    abbrev pub flag : ℕ → Bool → ℕ
    flag message_type is_compressed =
        if is_compressed then merge message_type type_compressed_gzip else merge message_type 0

    abbrev pub encode_encrypted : Bytes → Bool → Bytes ⊎ Bytes → Bytes ⊎ Outcome (List Bytes)
    encode_encrypted id is_compressed (inl error) = inl error
    encode_encrypted id is_compressed (inr ciphertext) =
        inr (
          format_message md5_hex (flag type_message is_compressed) id ciphertext
            config.payload_size)

    -- encodeForTransport: or the error of the encryption.
    unfoldable pub encode_for_transport : Bytes → Bytes → Bool → Bytes ⊎ Outcome (List Bytes)
    encode_for_transport id payload is_compressed =
        if config.encryption
        then encode_encrypted id is_compressed (encrypt payload config.key)
        else inr (
            format_message md5_hex (flag type_cleartext is_compressed) id payload
              config.payload_size)

    module _ (decode_json : Bytes → Option Fields) (encode_json : Fields → Option Bytes)
        (write_lost_event : Bytes → Bytes → Bytes) (attempts : List Attempt) where
      -- recordLostEvent: the guard, if it is asked for and can be rendered.
      unfoldable pub record_lost_event : Bytes → Bytes → Bytes → Option Bytes
      record_lost_event id reason original =
          if config.lost_event_guard
          then lost_event_payload decode_json encode_json config.guard
              (lost_event_context id reason (write_lost_event id original) (length original))
          else none

      abbrev pub count_lost : State → State
      count_lost s = record s { lost = raise 1 s.lost }

      abbrev pub send : State → Outcome (List Bytes) → Handled
      send s panicked = crashed
      send s stuck = crashed
      send s (returned messages) =
          send_loop config.keep_running max_retries s messages 1 none attempts

      abbrev pub send_guard : State → Bytes ⊎ Outcome (List Bytes) → Handled
      send_guard s (inl error) = answered false s []
      send_guard s (inr messages) = send s messages

      -- A record that was replaced by a guard, or that is let go without one.
      abbrev pub guarded : State → Bytes → Option Bytes → Handled
      guarded s id none = answered config.keep_running s []
      guarded s id (some guard) = send_guard s (encode_for_transport id guard false)

      abbrev pub encoded : State → Bytes → Bytes → Bytes ⊎ Outcome (List Bytes) → Handled
      encoded s id received (inr messages) = send s messages
      encoded s id received (inl error) =
          guarded (count_lost s) id
            (record_lost_event id (codes "encryption failed: " ++ error) received)

      module _ (compress : Bytes → Option Bytes) where
        abbrev pub or_plain : Bytes → Option Bytes → Bytes × Bool
        or_plain received none = (received, false)
        or_plain received (some compressed) = (compressed, true)

        abbrev pub compressed : Bytes → Bytes × Bool
        compressed received =
            if ltb 0 config.compress_when_length_exceeds
              && ltb config.compress_when_length_exceeds (length received)
            then or_plain received (compress received)
            else (received, false)

        abbrev pub encode : State → Bytes → Bytes → Handled
        encode s id received =
            let (payload, is_compressed) = compressed received in
            encoded s id payload (encode_for_transport id payload is_compressed)

        abbrev pub or_guard : State → Bytes → Option Bytes → Handled
        or_guard s id none = answered config.keep_running s []
        or_guard s id (some guard) = encode s id guard

        abbrev pub too_large : Bytes → Bool
        too_large received =
            ltb 0 config.max_event_bytes && ltb config.max_event_bytes (length received)

        abbrev pub size_reason : Bytes → Bytes
        size_reason received =
            codes "message size "
            ++ (format_int (pos (length received))
                ++ (codes " bytes exceeds maxEventBytes "
                    ++ (format_int (pos config.max_event_bytes) ++ codes " bytes")))

        -- The handler behind the filters.
        abbrev pub sized : State → Bytes → Option Bytes → Handled
        sized s received none = fatal
        sized s received (some id) =
            if too_large received
            then or_guard (count_lost s) id (record_lost_event id (size_reason received) received)
            else encode s id received

        abbrev pub deliver_filtered : State → Bytes → Bytes → Outcome Bool → Handled
        deliver_filtered s id received panicked = crashed
        deliver_filtered s id received stuck = crashed
        deliver_filtered s id received (returned false) = answered config.keep_running s []
        deliver_filtered s id received (returned true) = sized s received (transform_message_id id)

        -- kafkaHandlerWithContext
        unfoldable pub kafka_handler :
            (R → Bytes → Matching) → State → ℕ → Bytes → ℕ → Bytes → Handled
        kafka_handler matching s0 time_from id t received0 =
            let s = record s0 { received = raise 1 s0.received } in
            let (s', received) = apply_input_filter matching s received0 config.input_filter in
            if ltb t time_from
            then answered config.keep_running s []
            else deliver_filtered s' id received (delivers config.deliver_filter id)
