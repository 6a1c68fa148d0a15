-- ===== src/Resend/Reading.antt =====
-- runResend of src/resend/resend.go: the handler of the records that its readers get, and the loop of
-- ReadToEndPartition (src/kafka/getkafka.go) over a partition. The cipher, gzip and the engine of
-- regular expressions are parameters. The interval of the EPS limiter is a setting in nanoseconds,
-- and 0 is no limiter.
pub mod Answers
pub mod Missing
use air_gap.Common.{
  Bytes, ℕ, ◌+◌, ◌-◌, List, [], ◌∷◌, ◌++◌, Bool, true, false, not, ◌&&◌, ◌||◌, ltb, ◌==◌,
  if◌then◌else◌, Option, none, some, length, ◌⊎◌, inl, inr, Outcome, returned, panicked, stuck,
}
use air_gap.Common.Integers.{ℤ, pos, negsuc, eqℤ, ltℤ}
use air_gap.Common.Maps.{bytes_beq}
use air_gap.Common.Text.{NumError, codes, split, join, parse_int, format_int}
use air_gap.Protocol.Types.{merge, type_message, type_cleartext, type_compressed_gzip}
use air_gap.Protocol.Format.{format_message}
use air_gap.InputFilter.{Matching, MatchError, InputFilter, should_filter_out}
use air_gap.Resend.{
  GapResult, JsonFilter, filter_by, filter, is_last, map_downstream_to_upstream_partition,
  map_upstream_to_downstream_partition,
}

pub record TransferConfiguration {ℓ} (R : Type ℓ) : Type ℓ where
  pub partition_start_value : ℤ
  pub from_time : ℕ
  pub to_time : ℕ
  pub input_filter : Option (InputFilter R)
  pub compress_when_length_exceeds : ℕ
  pub encryption : Bool
  pub key : Bytes
  pub payload_size : ℕ
  pub min_interval : ℕ
  pub keep_running : Bool

pub record ResendState : Type 0 where
  pub received_events : ℕ
  pub total_received : ℕ
  pub sent_events : ℕ
  pub total_sent : ℕ
  pub last_send_time : ℕ
  pub finished : List ℤ

-- A record from Kafka, and what happens around it: the clock when the limiter looks at it, whether
-- the context ends while it waits, and whether SendMessages succeeds.
pub record Delivery : Type 0 where
  pub id : Bytes
  pub time : ℕ
  pub payload : Bytes
  pub now : ℕ
  pub cancelled : Bool
  pub arrives : Bool

-- What the reader of a partition meets: the end of the context, a record at an offset, the end of the
-- stream, or two seconds without a record.
pub data ReadEvent : Type 0 where
  context_done stalled closed : ReadEvent
  arrived : ℕ → Delivery → ReadEvent

-- The answer to the reader, the state and the calls of SendMessages.
pub data Answer : Type 0 where
  answered : Bool → ResendState → List (List Bytes) → Answer
  crashed : Answer

abbrev value_or_zero : ℤ × Option NumError → ℤ
value_or_zero (n, none) = n
value_or_zero (n, some error) = pos 0

-- The topic, the partition and the offset of an id; zero values for an id of another form.
abbrev pub place_of : List Bytes → Bytes × (ℤ × ℤ)
place_of (topic ∷ (partition ∷ (offset ∷ []))) =
    (topic, (value_or_zero (parse_int partition), value_or_zero (parse_int offset)))
place_of _ = ([], (pos 0, pos 0))

abbrev pub send_id : Bytes → ℤ → List Bytes → Bytes
send_id id partition (topic ∷ (_ ∷ (offset ∷ []))) =
    join (codes "_") (topic ∷ format_int partition ∷ offset ∷ [])
send_id id partition _ = id

abbrev pub count_received : ResendState → ResendState
count_received s = record s {
  received_events = s.received_events + 1;
  total_received = s.total_received + 1;
}

-- markFinished; the cancellation of the readers that follows the last partition shows in the field
-- cancelled of the records behind it.
abbrev pub mark_finished : ℤ → ResendState → ResendState
mark_finished partition s = record s { finished = partition ∷ s.finished }

-- The limiter: none is a cancelled wait.
abbrev pub rate_limited : ℕ → ResendState → Delivery → Option ResendState
rate_limited min_interval s d =
    if min_interval == 0
    then some s
    else if ltb 0 s.last_send_time && ltb d.now (s.last_send_time + min_interval)
    then (if d.cancelled
        then none
        else some (record s { last_send_time = s.last_send_time + min_interval }))
    else some (record s { last_send_time = d.now })

abbrev pub count_resent : Bool → ℕ → ResendState → ResendState
count_resent true n s = record s { sent_events = s.sent_events + n; total_sent = s.total_sent + n }
count_resent false n s = s

abbrev pub prepend_calls : List (List Bytes) → Answer → Answer
prepend_calls calls crashed = crashed
prepend_calls calls (answered keep s more) = answered keep s (calls ++ more)

-- Behind the handler: its answer is not looked at, and the record at the final offset ends the loop.
abbrev pub and_continue : Answer → Bool → (ResendState → Answer) → Answer
and_continue crashed reached k = crashed
and_continue (answered keep s calls) true k = prepend_calls calls (answered true s [])
and_continue (answered keep s calls) false k = prepend_calls calls (k s)

module _ {ℓ} {R : Type ℓ} (config : TransferConfiguration R)
    (encrypt : Bytes → Bytes → Bytes ⊎ Bytes) (md5_hex : Bytes → Bytes)
    (compress : Bytes → Option Bytes) (matching : R → Bytes → Matching) where
  abbrev pub filtered_payload : Bytes → Bool × Option MatchError → Bytes
  filtered_payload received (true, none) = []
  filtered_payload received (false, none) = received
  filtered_payload received (out, some error) = received

  abbrev pub or_uncompressed : Bytes → Option Bytes → Bytes × Bool
  or_uncompressed received none = (received, false)
  or_uncompressed received (some gz) = (gz, true)

  abbrev pub compressed_or_plain : Bytes → Bytes × Bool
  compressed_or_plain received =
      if ltb 0 config.compress_when_length_exceeds
        && ltb config.compress_when_length_exceeds (length received)
      then or_uncompressed received (compress received)
      else (received, false)

  abbrev pub type_flag : ℕ → Bool → ℕ
  type_flag message_type is_compressed =
      if is_compressed then merge message_type type_compressed_gzip else merge message_type 0

  -- The text of a failed encryption is nil, and is resend_packets all the same.
  abbrev or_nil : Bytes ⊎ Bytes → Bytes
  or_nil (inl error) = []
  or_nil (inr ciphertext) = ciphertext

  abbrev pub resend_packets : Bytes → Bytes × Bool → Outcome (List Bytes)
  resend_packets id (payload, is_compressed) =
      if config.encryption
      then format_message md5_hex (type_flag type_message is_compressed) id
          (or_nil (encrypt payload config.key)) config.payload_size
      else format_message md5_hex (type_flag type_cleartext is_compressed) id payload
          config.payload_size

  -- Behind the send: the last record of the partition ends the reading.
  abbrev pub finish_if : Bool → ℤ → ResendState → List (List Bytes) → Answer
  finish_if true partition s calls = answered false (mark_finished partition s) calls
  finish_if false partition s calls = answered config.keep_running s calls

  abbrev pub or_cancelled :
      ResendState → Bool → ℤ → Delivery → List Bytes → Option ResendState → Answer
  or_cancelled s last partition d messages none = answered false s []
  or_cancelled s last partition d messages (some s') =
      finish_if last partition (count_resent d.arrives (length messages) s') (messages ∷ [])

  abbrev pub send_packed : ResendState → Bool → ℤ → Delivery → Outcome (List Bytes) → Answer
  send_packed s last partition d panicked = crashed
  send_packed s last partition d stuck = crashed
  send_packed s last partition d (returned messages) =
      or_cancelled s last partition d messages (rate_limited config.min_interval s d)

  -- What the filter says of a record.
  abbrev pub selected : ResendState → Bool → ℤ → Delivery → Bytes → Outcome Bool → Answer
  selected s last partition d id panicked = crashed
  selected s last partition d id stuck = crashed
  selected s last partition d id (returned false) = finish_if last partition s []
  selected s last partition d id (returned true) = send_packed s last partition d (
      resend_packets id (
        compressed_or_plain
          (filtered_payload d.payload (should_filter_out matching config.input_filter d.payload))))

  -- Behind the counters, for the topic, the partition and the offset of the id.
  abbrev pub judge : JsonFilter → ResendState → Delivery → Bytes × (ℤ × ℤ) → Answer
  judge f s d (topic, (upstream, offset)) =
      let partition = map_upstream_to_downstream_partition upstream config.partition_start_value in
      if ltb d.time config.from_time
      then answered config.keep_running s []
      else if ltb config.to_time d.time
      then answered false (mark_finished partition s) []
      else selected s (is_last f.results topic partition offset) partition d
          (send_id d.id partition (split b'_' d.id)) (filter f topic partition offset)

  -- kafkaHandler of runResend
  unfoldable pub handle_record : JsonFilter → ResendState → Delivery → Answer
  handle_record f s d = judge f (count_received s) d (place_of (split b'_' d.id))

  -- The loop over a partition in ReadToEndPartition: it answers false for a context that ended.
  unfoldable pub read_partition : JsonFilter → ℕ → ResendState → List ReadEvent → Answer
  read_partition f final s [] = answered true s []
  read_partition f final s (context_done ∷ events) = answered false s []
  read_partition f final s (stalled ∷ events) = answered true s []
  read_partition f final s (closed ∷ events) = answered true s []
  read_partition f final s (arrived offset d ∷ events) =
      and_continue (handle_record f s d) (not (ltb offset final))
        (λ s'. read_partition f final s' events)
