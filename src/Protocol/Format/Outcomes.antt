-- ===== src/Protocol/Format/Outcomes.antt =====
-- What FormatMessage and NrMessages of src/protocol/formatter.go return, and when they panic.
use air_gap.Common.{
  Bytes, ℕ, ◌+◌, ◌-◌, ◌/◌, ◌%◌, ◌≤◌, ◌<◌, List, [], ◌∷◌, ◌≡◌, ◌≢◌, inl, inr, ap, ◌∙◌, ◌↔◌, sym,
  length, All, u16, ◌==◌, false, if◌then◌else◌, Bool-cases, lt→ltb, returned, panicked, arith,
}
use mathlib.Core.Path.{subst}
use air_gap.Common.Slices.{sub16}
use air_gap.Protocol.Checksum.{IsDigest}
use air_gap.Protocol.Format.{nr_messages, format_loop, format_message}
use air_gap.Protocol.Format.Chunks.{pieces, packets, room, format_message_lem}
use air_gap.Protocol.Format.Sizes.{length-pieces, length-packets, length-packet, pieces_short}

-- NrMessages divides by the room that a packet has for its payload.
pub nr_messages_lem :
    (mtu : ℕ) (id message : Bytes)
    → mtu < 65536
    → 13 + length id < mtu
    → nr_messages mtu id message ≡ returned (u16 (1 + length message / room mtu id))
unfolding nr_messages
nr_messages_lem mtu id message w h =
    let e : sub16 (sub16 mtu 13) (u16 (length id)) ≡ mtu - (13 + length id) = omega arith in
    let nonzero : (room mtu id == 0) ≡ false = ground arith in rw (e, nonzero)

module _ (md5_hex : Bytes → Bytes) (message_type mtu : ℕ) (id message : Bytes) where
  -- A message with no byte left for its payload panics, for every MTU and id.
  pub format_message_panics :
      mtu < 65536
      → 0 < length message
      → mtu ≤ 13 + length id
      → format_message md5_hex message_type id message mtu ≡ panicked
  unfolding format_message format_loop nr_messages
  format_message_panics w pos h =
      let nonempty : (length message == 0) ≡ false = ground arith in
      elim (Bool-cases (sub16 (sub16 mtu 13) (u16 (length id)) == 0)) [
        | inl none_left ↦ rw (nonempty, none_left)
        | inr some_left ↦ rw (
          nonempty,
          some_left,
          lt→ltb 0 (length message) pos,
          lt→ltb mtu (13 + length id) (ground arith),
        )
      ]

  -- What FormatMessage sends: the pieces of the message behind headers that announce the number
  -- of NrMessages.
  abbrev pub sent : List Bytes
  sent =
      packets md5_hex message_type (u16 (1 + length message / room mtu id)) id 1
        (pieces (room mtu id) message)

  pub format_message-sent :
      mtu < 65536
      → 0 < length message
      → 13 + length id < mtu
      → format_message md5_hex message_type id message mtu ≡ returned sent
  format_message-sent w pos h =
      format_message_lem md5_hex message_type mtu id message h pos
        (nr_messages_lem mtu id message w h)

  pub length-sent :
      13 + length id < mtu
      → length sent ≡ (
          if length message % room mtu id == 0
          then length message / room mtu id
          else 1 + length message / room mtu id)
  length-sent h =
      length-packets md5_hex message_type _ id 1 (pieces (room mtu id) message)
      ∙ length-pieces (room mtu id) message (omega arith)

packets_short :
    (md5_hex : Bytes → Bytes) (message_type nr k : ℕ) (id : Bytes) (number : ℕ) (ps : List Bytes)
    → IsDigest md5_hex
    → All (λ p. length p ≤ k) ps
    → All (λ q. length q ≤ 13 + length id + k) (packets md5_hex message_type nr id number ps)
unfolding packets
packets_short md5_hex message_type nr k id number [] d h = tt
packets_short md5_hex message_type nr k id number (p ∷ ps) d h = (
  omega (arith, length-packet md5_hex message_type number nr id p d, h.0),
  packets_short md5_hex message_type nr k id (u16 (number + 1)) ps d h.1,
)

sent-short :
    (md5_hex : Bytes → Bytes) (message_type mtu : ℕ) (id message : Bytes)
    → IsDigest md5_hex
    → 13 + length id < mtu
    → All (λ q. length q ≤ mtu) (sent md5_hex message_type mtu id message)
sent-short md5_hex message_type mtu id message d h =
    let e : mtu ≡ 13 + length id + room mtu id = omega arith in
    let fits =
      packets_short md5_hex message_type (u16 (1 + length message / room mtu id)) (room mtu id) id 1
        (pieces (room mtu id) message) d (pieces_short (room mtu id) message) in
    subst (λ n. All (λ q. length q ≤ n) (sent md5_hex message_type mtu id message)) (sym e) fits

-- A message that is not empty, with an MTU below 65536 and above the header, is sent: FormatMessage returns, every
-- packet fits the MTU, and their number is the length over the room, rounded up.
pub format_message_returns :
    (md5_hex : Bytes → Bytes) (message_type mtu : ℕ) (id message : Bytes)
    → IsDigest md5_hex
    → mtu < 65536
    → 0 < length message
    → 13 + length id < mtu
    → (ps : List Bytes) × (format_message md5_hex message_type id message mtu ≡ returned ps)
      × All (λ q. length q ≤ mtu) ps
      × (length ps ≡ (
          if length message % room mtu id == 0
          then length message / room mtu id
          else 1 + length message / room mtu id))
format_message_returns md5_hex message_type mtu id message d w pos h = (
  sent md5_hex message_type mtu id message,
  format_message-sent md5_hex message_type mtu id message w pos h,
  sent-short md5_hex message_type mtu id message d h,
  length-sent md5_hex message_type mtu id message h,
)

-- With at most 65535 parts, the number that NrMessages announces in every header is the number of
-- packets sent exactly when the room of a packet does not divide the length of the message.
pub announced-iff-sent :
    (md5_hex : Bytes → Bytes) (message_type mtu : ℕ) (id message : Bytes) (ps : List Bytes) (nr : ℕ)
    → mtu < 65536
    → 0 < length message
    → 13 + length id < mtu
    → 1 + length message / room mtu id < 65536
    → format_message md5_hex message_type id message mtu ≡ returned ps
    → nr_messages mtu id message ≡ returned nr
    → (nr ≡ length ps) ↔ (length message % room mtu id ≢ 0)
announced-iff-sent md5_hex message_type mtu id message ps nr w pos h few e f =
    let same : ps ≡ sent md5_hex message_type mtu id message =
      cc (format_message-sent md5_hex message_type mtu id message w pos h) in
    let number : nr ≡ u16 (1 + length message / room mtu id) =
      cc (nr_messages_lem mtu id message w h) in
    ground (arith, ap (λ qs. length qs) same, length-sent md5_hex message_type mtu id message h)
