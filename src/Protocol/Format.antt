-- ===== src/Protocol/Format.antt =====
-- src/protocol/formatter.go: a message is cut into numbered packets that fit the MTU.
-- A message type is a byte, `mtu` a uint16. `len(message)` and `position` are int32 in the source
-- and plain numbers here, which is exact while the message and one packet are below 2^31 bytes.
pub mod Chunks
pub mod Sizes
pub mod Outcomes
use air_gap.Common.{
  Bytes, ℕ, zero, suc, ◌+◌, ◌-◌, ◌/◌, List, [], ◌∷◌, ◌++◌, length, take, drop, u16, ltb, leb, ◌==◌,
  if◌then◌else◌, Outcome, returned, panicked, stuck,
}
use air_gap.Common.Slices.{sub16, put16}
use air_gap.Protocol.Checksum.{calculate_checksum}

-- NrMessages: the subtractions are made in uint16, and the division by zero panics.
unfoldable pub nr_messages : ℕ → Bytes → Bytes → Outcome ℕ
nr_messages mtu id message =
    let payload_length = sub16 (sub16 mtu 13) (u16 (length id)) in
    if payload_length == 0 then panicked else returned (u16 (1 + length message / payload_length))

-- The next payload: the rest of the message if it fits, or `remaining` bytes of it.
unfoldable pub next_payload : Bytes → ℕ → ℕ → Bytes
next_payload message position remaining =
    if leb (length message - position) remaining
    then drop position message
    else take remaining (drop position message)

module _ (md5_hex : Bytes → Bytes) where
  -- The header fields and the payload, appended to an empty part.
  unfoldable pub packet : ℕ → ℕ → ℕ → Bytes → Bytes → Bytes
  packet message_type message_number nr_msgs id payload =
      message_type
      ∷ (put16 message_number
          ++ (put16 nr_msgs
              ++ (put16 (u16 (length id))
                  ++ (id
                      ++ (calculate_checksum md5_hex payload
                          ++ (put16 (u16 (length payload)) ++ payload))))))

  -- `for position < payloadLength { … }`; the header is longer than the MTU if
  -- mtu - 13 - len(id) is negative.
  unfoldable pub format_loop :
      ℕ → ℕ → ℕ → ℕ → Bytes → Bytes → ℕ → ℕ → List Bytes → Outcome (List Bytes)
  format_loop zero message_type nr_msgs mtu id message position message_number result = stuck
  format_loop (suc fuel) message_type nr_msgs mtu id message position message_number result =
      let remaining = mtu - (13 + length id) in
      let part =
        packet message_type message_number nr_msgs id (next_payload message position remaining) in
      let rest =
        format_loop fuel message_type nr_msgs mtu id message (position + remaining)
          (u16 (message_number + 1)) (result ++ (part ∷ [])) in
      if ltb position (length message)
      then (if ltb mtu (13 + length id) then panicked else rest)
      else returned result

  format_parts : ℕ → ℕ → Bytes → Bytes → Outcome ℕ → Outcome (List Bytes)
  format_parts message_type mtu id message panicked = panicked
  format_parts message_type mtu id message stuck = stuck
  format_parts message_type mtu id message (returned nr_msgs) =
      format_loop (suc (length message)) message_type nr_msgs mtu id message 0 1 []

  -- FormatMessage. An empty message is one packet.
  unfoldable pub format_message : ℕ → Bytes → Bytes → ℕ → Outcome (List Bytes)
  unfolding format_parts
  format_message message_type id message mtu =
      if length message == 0
      then returned (packet message_type 1 1 id [] ∷ [])
      else format_parts message_type mtu id message (nr_messages mtu id message)
