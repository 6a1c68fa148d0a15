-- ===== src/Protocol/Delivery.antt =====
-- From FormatMessage of src/protocol/formatter.go to ParseMessage of src/protocol/parser.go:
-- messages of several packets.
pub mod Numbered
pub mod Single
use air_gap.Common.{
  Bytes, ℕ, zero, suc, ◌+◌, ◌-◌, ◌/◌, ◌%◌, ◌≤◌, ◌<◌, Option, none, some, List, [], ◌≡◌, refl, ap,
  ◌∙◌, length, get_or, get_or-All, All-weaken, map, map_cong, replicate, All, u16, ltb, ◌==◌,
  if◌then◌else◌, false, true, Outcome, returned, arith, Bool-cases, ltb→lt, inl, inr,
}
use mathlib.Core.List.{flatten}
use mathlib.Core.Path.{subst}
use air_gap.Common.Maps.{lookup, bytes_eq, bytes_beq, beq_refl}
use air_gap.Protocol.Checksum.{IsDigest, calculate_checksum}
use air_gap.Protocol.Format.{packet, format_message}
use air_gap.Protocol.Format.Chunks.{pieces_one, pieces, packets, room}
use air_gap.Protocol.Format.Sizes.{length-pieces, length-packets, pieces_short}
use air_gap.Protocol.Format.Outcomes.{sent, format_message-sent, length-sent}
use air_gap.Protocol.Cache.{MessageCache}
use air_gap.Protocol.Parse.{Reply, receive_packet, parse_message}
use air_gap.Protocol.Parse.RoundTrip.{written, decode-packet}
use air_gap.Protocol.Parse.Reassembly.{
  kept, receive_all, Fresh, IsArrival, part_packet, receive_all-incomplete,
}
use air_gap.Protocol.Delivery.Numbered.{numbered, packets-get_or}

module _ (md5_hex : Bytes → Bytes) (digest : IsDigest md5_hex) (t mtu : ℕ) (id m : Bytes) where
  abbrev part : ℕ → Bytes
  part = numbered (pieces (room mtu id) m)

  abbrev pub announced : ℕ
  announced = 1 + length m / room mtu id

  part_short :
      mtu < 65536 → 13 + length id < mtu → (j : ℕ) → 13 + length id + length (part j) < 65536
  part_short w h j = omega (
    arith,
    get_or-All (λ p. length p ≤ room mtu id) (pieces (room mtu id) m) (j - 1) []
        (pieces_short (room mtu id) m) (omega arith),
  )

  -- The packet with number `j` of those sent.
  sent-get_or :
      announced < 65535
      → 13 + length id < mtu
      → (j : ℕ) → 1 ≤ j
      → j ≤ length (pieces (room mtu id) m)
      → get_or (sent md5_hex t mtu id m) (j - 1) []
        ≡ part_packet md5_hex digest t announced id part j
  sent-get_or few h j low high =
      let bound : length (pieces (room mtu id) m) ≤ announced =
        ground (arith, length-pieces (room mtu id) m (omega arith)) in
      let small : u16 announced ≡ announced = omega arith in
      let index : 1 + (j - 1) ≡ j = omega arith in
      rw small (
        packets-get_or md5_hex t announced id 1 (pieces (room mtu id) m) (j - 1) (omega arith)
          (omega arith)
        ∙ ap (λ n. packet md5_hex t n announced id (part j)) index)

  -- What arrives: packets of `ps` by their numbers, each with its time.
  abbrev pub arriving : List Bytes → (ℕ → ℕ) → List ℕ → List (ℕ × Bytes)
  arriving ps clock order = map (λ j. (clock j, numbered ps j)) order

  arriving-sent :
      (clock : ℕ → ℕ) (order : List ℕ)
      → announced < 65535
      → 13 + length id < mtu
      → All (λ j. (1 ≤ j) × (j ≤ length (pieces (room mtu id) m))) order
      → arriving (sent md5_hex t mtu id m) clock order
        ≡ map (λ j. (clock j, part_packet md5_hex digest t announced id part j)) order
  arriving-sent clock order few h range =
      map_cong _ _ _ order (λ j r. ap (λ p. (clock j, p)) (sent-get_or few h j r.0 r.1)) range

  -- What arrives is a packet with the id, a number and a short payload.
  abbrev pub IsPacketOf : Bytes → Type 0
  IsPacketOf msg =
      (n : ℕ) × (p : Bytes) × (msg ≡ packet md5_hex t n announced id p)
      × (13 + length id + length p < 65536)

  pub arriving-IsPacketOf :
      (ps : List Bytes) (order : List ℕ)
      → mtu < 65536
      → 13 + length id < mtu
      → 0 < length m
      → announced < 65535
      → format_message md5_hex t id m mtu ≡ returned ps
      → IsArrival (length ps) order
      → All (λ j. IsPacketOf (numbered ps j)) order
  arriving-IsPacketOf ps order w h some_bytes few e a =
      let same : ps ≡ sent md5_hex t mtu id m =
        cc (format_message-sent md5_hex t mtu id m w some_bytes h) in
      let count : length ps ≡ length (pieces (room mtu id) m) =
        ap (λ (qs : List Bytes). length qs) same
        ∙ length-packets md5_hex t (u16 announced) id 1 (pieces (room mtu id) m) in
      All-weaken (λ j. (1 ≤ j) × (j ≤ length ps)) (λ j. IsPacketOf (numbered ps j)) order
        (λ j r. (
          j,
          part j,
          ap (λ qs. numbered qs j) same ∙ sent-get_or few h j r.0 (omega (arith, r.1, count)),
          part_short w h j,
        ))
        a.range

  -- If the message is not empty and the room of a packet divides its length, the headers announce one
  -- packet more than FormatMessage makes: when all of them have arrived, each once and in any order,
  -- at a cache that does not know the id and has room, ParseMessage has kept every one and has not
  -- delivered the message. The conditions: the header is shorter than the MTU, which is below 65536,
  -- and fewer than 65535 packets are announced, no more than the cache allows.
  pub exact_multiple_lost :
      (ps : List Bytes) (clock : ℕ → ℕ) (c : MessageCache) (order : List ℕ)
      → mtu < 65536
      → 13 + length id < mtu
      → 0 < length m
      → announced < 65535
      → length m % room mtu id ≡ 0
      → format_message md5_hex t id m mtu ≡ returned ps
      → IsArrival (length ps) order
      → lookup id c.entries ≡ none
      → length c.entries < c.max_entries
      → announced ≤ c.max_nr_messages
      → (c' : MessageCache) × (receive_all md5_hex c (arriving ps clock order)
          ≡ returned (replicate (length ps) kept, c'))
  exact_multiple_lost ps clock c order w h some_bytes few exact e a unknown space allowed =
      let same : ps ≡ sent md5_hex t mtu id m =
        cc (format_message-sent md5_hex t mtu id m w some_bytes h) in
      let count : length ps ≡ length (pieces (room mtu id) m) =
        ap (λ (qs : List Bytes). length qs) same
        ∙ length-packets md5_hex t (u16 announced) id 1 (pieces (room mtu id) m) in
      let one_less : length ps + 1 ≡ announced =
        ground (arith, count, length-pieces (room mtu id) m (omega arith)) in
      let several : 1 ≤ length m / room mtu id = grind arith in
      let range = subst (λ n. All (λ j. (1 ≤ j) × (j ≤ n)) order) count a.range in
      let (c', got) =
        receive_all-incomplete md5_hex digest t announced id part clock (omega arith) few
          (part_short w h) c order a.once (All-weaken _ _ order (λ j r. omega (arith, r.1)) range)
          (omega (arith, a.count)) unknown space (omega arith) in
      (
        c',
        ap (λ xs. receive_all md5_hex c xs)
              (ap (λ qs. arriving qs clock order) same ∙ arriving-sent clock order few h range)
            ∙ got
            ∙ ap (λ n. returned (replicate n kept, c')) a.count,
      )
