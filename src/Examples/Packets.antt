-- ===== src/Examples/Packets.antt =====
-- src/protocol at concrete messages, with a digest of 32 equal digits.
use air_gap.Common.{
  Bytes, ℕ, ◌+◌, ◌≤◌, ◌%◌, ◌/◌, List, [], ◌∷◌, ◌≡◌, refl, length, replicate, All, map, returned,
  ◌==◌, if◌then◌else◌, arith, true,
}
use air_gap.Common.Maps.{lookup, bytes_eq}
use air_gap.Protocol.Checksum.{IsDigest}
use air_gap.Protocol.Format.{format_message}
use air_gap.Protocol.Format.Chunks.{pieces, packets, room}
use air_gap.Protocol.Format.Outcomes.{sent, format_message-sent, format_message_returns}
use air_gap.Protocol.Cache.{MessageCache, MessageCacheEntry, create_message_cache}
use air_gap.Common.Members.{contains}
use air_gap.Protocol.Parse.{accepted, parse_message}
use air_gap.Protocol.Parse.Totality.{IsSound, ReturnsSound, parse_message_returns}
use air_gap.Protocol.Parse.Reassembly.{IsArrival, receive_all, kept}
use air_gap.Protocol.Delivery.{exact_multiple_lost}
use air_gap.Protocol.Delivery.Numbered.{numbered}
use air_gap.Protocol.Delivery.Single.{delivered_single}

abbrev pub toy_hex : Bytes → Bytes
toy_hex m = replicate 32 b'7'

pub toy_hex-IsDigest : IsDigest toy_hex
toy_hex-IsDigest m = refl

abbrev small_id : Bytes
small_id = b'a' ∷ []

-- Five bytes at two for each packet.
abbrev pub five : Bytes
five = 1 ∷ 2 ∷ 3 ∷ 4 ∷ 5 ∷ []

-- Four bytes at two for each packet.
abbrev four : Bytes
four = 1 ∷ 2 ∷ 3 ∷ 4 ∷ []

abbrev pub backwards : List ℕ
backwards = 3 ∷ 1 ∷ 2 ∷ []

contains_three : (k : ℕ) → 1 ≤ k → k ≤ 3 → contains k backwards ≡ true
unfolding contains
contains_three k low high = ground arith

pub backwards-IsArrival : IsArrival 3 backwards
unfolding contains
backwards-IsArrival = record {
  once = (refl, (refl, (refl, tt)));
  all = contains_three;
  range = omega arith;
  count = refl;
}

contains_two : (k : ℕ) → 1 ≤ k → k ≤ 2 → contains k (2 ∷ 1 ∷ []) ≡ true
unfolding contains
contains_two k low high = ground arith

swapped-IsArrival : IsArrival 2 (2 ∷ 1 ∷ [])
unfolding contains
swapped-IsArrival = record {
  once = (refl, (refl, tt));
  all = contains_two;
  range = omega arith;
  count = refl;
}

exact_multiple_lost_example :
    (c' : MessageCache) × (receive_all toy_hex create_message_cache
        (map (λ j. (j, numbered (sent toy_hex 6 16 small_id four) j)) (2 ∷ 1 ∷ []))
      ≡ returned (replicate (length (sent toy_hex 6 16 small_id four)) kept, c'))
unfolding create_message_cache pieces packets lookup
exact_multiple_lost_example =
    exact_multiple_lost toy_hex toy_hex-IsDigest 6 16 small_id four
      (sent toy_hex 6 16 small_id four) (λ j. j) create_message_cache (2 ∷ 1 ∷ []) (omega arith)
      (omega arith) (omega arith) (omega arith) refl
      (format_message-sent toy_hex 6 16 small_id four (omega arith) (omega arith) (omega arith))
      swapped-IsArrival refl (omega arith) (omega arith)

delivered_single_example :
    (p : Bytes) × (format_message toy_hex 6 small_id four 100 ≡ returned (p ∷ []))
    × (parse_message toy_hex create_message_cache 0 p
        ≡ returned (accepted 6 small_id four, create_message_cache))
unfolding create_message_cache
delivered_single_example =
    delivered_single toy_hex toy_hex-IsDigest 6 100 small_id four create_message_cache 0
      (omega arith) (omega arith) (omega arith)

pub new_cache-IsSound : IsSound create_message_cache
unfolding create_message_cache lookup
new_cache-IsSound = record { short = λ id e h. cc; bounded = omega arith }

parse_message_returns_example :
    ReturnsSound create_message_cache (parse_message toy_hex create_message_cache 0 (5 ∷ 0 ∷ []))
unfolding create_message_cache
parse_message_returns_example =
    parse_message_returns toy_hex create_message_cache 0 new_cache-IsSound (omega arith)
      (5 ∷ 0 ∷ [])

format_message_returns_example :
    (ps : List Bytes) × (format_message toy_hex 6 small_id five 16 ≡ returned ps)
    × All (λ q. length q ≤ 16) ps
    × (length ps ≡ (
        if length five % room 16 small_id == 0
        then length five / room 16 small_id
        else 1 + length five / room 16 small_id))
format_message_returns_example =
    format_message_returns toy_hex 6 16 small_id five toy_hex-IsDigest (omega arith) (omega arith)
      (omega arith)

abbrev huge_entry : MessageCacheEntry
huge_entry = record { end = 0; len = 65535; val = (1, four) ∷ [] }

abbrev full_cache : MessageCache
full_cache = record { entries = []; max_entries = 0; max_nr_messages = 10 }
