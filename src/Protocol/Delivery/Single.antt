-- ===== src/Protocol/Delivery/Single.antt =====
-- Messages of one packet, from FormatMessage of src/protocol/formatter.go to ParseMessage of
-- src/protocol/parser.go.
use native.Mathlib.Nat.{div-eq_of_lt}
use air_gap.Common.{
  Bytes, ℕ, ◌+◌, ◌/◌, ◌≤◌, ◌<◌, [], ◌∷◌, ◌≡◌, refl, ◌∙◌, length, u16, ltb, false, true, returned,
  arith, Bool-cases, ltb→lt, inl, inr,
}
use air_gap.Common.Maps.{bytes_eq, bytes_beq, beq_refl}
use air_gap.Protocol.Checksum.{IsDigest, calculate_checksum}
use air_gap.Protocol.Format.{packet, format_message}
use air_gap.Protocol.Format.Chunks.{pieces_one, packets, room}
use air_gap.Protocol.Format.Outcomes.{format_message-sent}
use air_gap.Protocol.Cache.{MessageCache}
use air_gap.Protocol.Parse.{accepted, receive_packet, parse_message}
use air_gap.Protocol.Parse.RoundTrip.{decode-packet}

module _ (md5_hex : Bytes → Bytes) (t mtu : ℕ) (id : Bytes) where
  empty_packet :
      (m : Bytes)
      → ltb 0 (length m) ≡ false
      → format_message md5_hex t id m mtu ≡ returned (packet md5_hex t 1 1 id m ∷ [])
  unfolding format_message
  empty_packet [] h = refl
  empty_packet (x ∷ xs) h = absurd (ground arith)

module _ (md5_hex : Bytes → Bytes) (digest : IsDigest md5_hex) (t mtu : ℕ) (id m : Bytes) where
  single_packet :
      mtu < 65536
      → 13 + length id + length m < mtu
      → format_message md5_hex t id m mtu ≡ returned (packet md5_hex t 1 1 id m ∷ [])
  single_packet w h = elim (Bool-cases (ltb 0 (length m))) [
    | inl some_bytes ↦
        let one : length m / room mtu id ≡ 0 = div-eq_of_lt (omega arith) in
        let number : u16 (1 + length m / room mtu id) ≡ 1 = rw one in
        format_message-sent md5_hex t mtu id m w (ltb→lt _ _ some_bytes) (omega arith)
        ∙ rw (number, pieces_one (room mtu id) m (ltb→lt _ _ some_bytes) (omega arith))
            (unfold packets in refl)
    | inr no_bytes ↦ empty_packet md5_hex t mtu id m no_bytes
  ]

  parse_single :
      (c : MessageCache) (now : ℕ)
      → 13 + length id + length m < 65536
      → 1 ≤ c.max_nr_messages
      → parse_message md5_hex c now (packet md5_hex t 1 1 id m) ≡ returned (accepted t id m, c)
  unfolding parse_message receive_packet
  parse_single c now w allowed =
      let same : bytes_beq (calculate_checksum md5_hex m) (calculate_checksum md5_hex m) ≡ true =
        beq_refl {K = Bytes} (calculate_checksum md5_hex m) in
      rw (
        decode-packet md5_hex digest t 1 1 id m c.max_nr_messages w (omega arith) (omega arith)
            allowed,
        same,
      )

  -- A message shorter than the room of a packet is sent as one packet, which is delivered at once
  -- and leaves the cache as it was. So is the empty message.
  pub delivered_single :
      (c : MessageCache) (now : ℕ)
      → mtu < 65536
      → 13 + length id + length m < mtu
      → 1 ≤ c.max_nr_messages
      → (p : Bytes) × (format_message md5_hex t id m mtu ≡ returned (p ∷ []))
        × (parse_message md5_hex c now p ≡ returned (accepted t id m, c))
  delivered_single c now w h allowed =
      (packet md5_hex t 1 1 id m, single_packet w h, parse_single c now (omega arith) allowed)
