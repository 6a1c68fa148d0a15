-- ===== src/Protocol/Parse.antt =====
-- src/protocol/parser.go: packets are taken apart, and messages of several packets assembled.
-- `none` of a part of ParseMessage is a panic: a slice or an index out of range.
pub mod Safety
pub mod RoundTrip
pub mod Joining
pub mod Reassembly
pub mod Totality
use air_gap.Common.{
  Bytes, ℕ, zero, suc, ◌+◌, Option, none, some, List, [], ◌∷◌, ◌++◌, length, get_elem?, u16, ltb,
  ◌==◌, Bool, true, false, ◌&&◌, not, if◌then◌else◌, Outcome, returned, panicked, stuck,
}
use air_gap.Common.Slices.{add16, sub16, slice, be16}
use air_gap.Common.Maps.{Eq, lookup, bytes_beq, nat_eq}
use air_gap.Protocol.Types.{type_error, type_multipart}
use air_gap.Protocol.Checksum.{calculate_checksum}
use air_gap.Protocol.Cache.{MessageCache, MessageCacheEntry, add_part_and_snapshot, remove_entry}

infixl 5 ◌>>=◌
abbrev pub ◌>>=◌ {ℓ κ} : {A : Type ℓ} {B : Type κ} → Option A → (A → Option B) → Option B
none >>= f = none
some a >>= f = f a

pub data ParseError : Type 0 where
  too_short too_many_parts id_too_long no_payload_length payload_too_long length_mismatch
        invalid_checksum :
      ParseError

-- The four results of ParseMessage: TYPE_ERROR with an error, or a type, an id and a payload.
pub data Reply : Type 0 where
  failed : ParseError → Reply
  accepted : ℕ → Bytes → Bytes → Reply

unfoldable pub reply_type : Reply → ℕ
reply_type (failed e) = type_error
reply_type (accepted message_type id payload) = message_type

-- The fields of a packet.
pub record Packet : Type 0 where
  pub message_type : ℕ
  pub message_number : ℕ
  pub nr_messages : ℕ
  pub id : Bytes
  pub checksum : Bytes
  pub payload : Bytes

pub data Decoded : Type 0 where
  bad : ParseError → Decoded
  good : Packet → Decoded

-- ParseMessage from the length of the payload on.
unfoldable pub decode_payload : Bytes → ℕ → ℕ → ℕ → ℕ → ℕ → Bytes → Bytes → Option Decoded
decode_payload message len message_type message_number nr_messages id_length id checksum = do
  payload_length_bytes ← slice message (add16 11 id_length) (add16 13 id_length)
  payload_length ← be16 payload_length_bytes
  if ltb (sub16 (sub16 len 13) id_length) payload_length then some (bad payload_too_long) else do
    payload ← slice message (add16 13 id_length) (add16 (add16 13 id_length) payload_length)
    if not (len == add16 (add16 (add16 (add16 7 id_length) 4) 2) payload_length)
        then some (bad length_mismatch)
        else some (
            good (record {
              message_type = message_type;
              message_number = message_number;
              nr_messages = nr_messages;
              id = id;
              checksum = checksum;
              payload = payload;
            }))

-- ParseMessage from the length of the id on.
unfoldable pub decode_id : Bytes → ℕ → ℕ → ℕ → ℕ → Option Decoded
decode_id message len message_type message_number nr_messages = do
  id_length_bytes ← slice message 5 7
  id_length ← be16 id_length_bytes
  if ltb (sub16 len 13) id_length then some (bad id_too_long) else do
    id ← slice message 7 (add16 7 id_length)
    checksum ← slice message (add16 7 id_length) (add16 11 id_length)
    if ltb len (add16 2 (add16 (add16 7 id_length) 4))
        then some (bad no_payload_length)
        else decode_payload message len message_type message_number nr_messages id_length id
            checksum

-- The header of ParseMessage; `max_nr_messages` is the cache's limit.
unfoldable pub decode : ℕ → Bytes → Option Decoded
decode max_nr_messages message =
    let len = u16 (length message) in
    if ltb len 13 then some (bad too_short) else do
      message_type ← get_elem? message 0
      message_number_bytes ← slice message 1 3
      message_number ← be16 message_number_bytes
      nr_messages_bytes ← slice message 3 5
      nr_messages ← be16 nr_messages_bytes
      if ltb max_nr_messages nr_messages
          then some (bad too_many_parts)
          else decode_id message len message_type message_number nr_messages

-- What assembleMessage does: its result, the error "Missing part i", or no end. The counter is a
-- uint16 and its test is `i <= msg.len`: with `msg.len` 65535 it wraps to 0 and goes on.
pub data Assembly : Type 0 where
  assembled : Bytes → Assembly
  missing : ℕ → Assembly
  endless : Assembly

-- The loop of assembleMessage, from part number `i` on.
unfoldable pub assemble_loop : ℕ → MessageCacheEntry → ℕ → Bytes → Assembly
assemble_loop zero msg i result = endless
assemble_loop (suc fuel) msg i result =
    let next = λ (part : Bytes). assemble_loop fuel msg (u16 (i + 1)) (result ++ part) in
    if ltb msg.len i
    then assembled result
    else elim (lookup i msg.val) [ some part ↦ next part | none ↦ missing i ]

-- assembleMessage
unfoldable pub assemble_message : MessageCacheEntry → Assembly
unfolding assemble_loop
assemble_message msg = assemble_loop (suc msg.len) msg 1 []

-- What ParseMessage does with an assembled message, or with a part that is kept.
unfoldable pub deliver : ℕ → Bytes → MessageCache → Assembly → Outcome (Reply × MessageCache)
deliver message_type id cache (assembled payload) =
    returned (accepted message_type id payload, remove_entry cache id)
deliver message_type id cache (missing i) = returned (accepted type_multipart [] [], cache)
deliver message_type id cache endless = stuck

module _ (md5_hex : Bytes → Bytes) where
  -- ParseMessage once the header is read. The checksum is verified in all builds but `fuzz`.
  unfoldable pub receive_packet : MessageCache → ℕ → Packet → Outcome (Reply × MessageCache)
  receive_packet cache now p =
      let (snapshot, complete, cache') =
        add_part_and_snapshot cache now p.id p.message_number p.nr_messages p.payload in
      if not (bytes_beq (calculate_checksum md5_hex p.payload) p.checksum)
      then returned (failed invalid_checksum, cache)
      else if ltb 1 p.nr_messages
      then (if complete
          then deliver p.message_type p.id cache' (assemble_message snapshot)
          else returned (accepted type_multipart [] [], cache'))
      else returned (accepted p.message_type p.id p.payload, cache)

  abbrev receive_decoded : MessageCache → ℕ → Option Decoded → Outcome (Reply × MessageCache)
  receive_decoded cache now none = panicked
  receive_decoded cache now (some (bad e)) = returned (failed e, cache)
  receive_decoded cache now (some (good p)) = receive_packet cache now p

  -- ParseMessage
  unfoldable pub parse_message : MessageCache → ℕ → Bytes → Outcome (Reply × MessageCache)
  parse_message cache now message = receive_decoded cache now (decode cache.max_nr_messages message)
