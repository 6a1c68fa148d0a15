-- ===== src/Downstream/Tcp/Frames.antt =====
-- src/downstream/adapters.go against FormatMessage of src/protocol/formatter.go: the TCP receiver
-- finds the packets again in the stream of bytes.
use air_gap.Common.{
  Bytes, ℕ, suc, ◌+◌, ◌≤◌, ◌<◌, ◌≡◌, refl, sym, ap, ◌∙◌, List, [], ◌∷◌, ◌++◌, append_assoc, ◌&&◌,
  not, ◌==◌, Bool, true, false, Option, some, length, length-append, take, drop, take-append,
  drop-append, ltb, leb, le→leb, u16, if◌then◌else◌, All, arith, returned,
}
use air_gap.Common.Slices.{put16, be16, length-put16}
use air_gap.Common.Text.{codes, has_prefix}
use air_gap.Protocol.Checksum.{IsDigest, calculate_checksum, length-calculate_checksum}
use mathlib.Core.Path.{subst}
use air_gap.Protocol.Format.{packet, format_message}
use air_gap.Protocol.Format.Chunks.{packets, pieces, room}
use air_gap.Protocol.Format.Sizes.{pieces_short, length-packet}
use air_gap.Protocol.Format.Outcomes.{sent, format_message-sent}
use air_gap.Downstream.{is_rotation_frame, id_length}
use air_gap.Downstream.Tcp.{
  frame, read_full, read_message, with_header, with_length, handle_connection, push_messages,
  push_message, stream_of, two_bytes, after_read,
}

-- Reading as many bytes as a front has.
read_full-append : (n : ℕ) (a b : Bytes) → n ≡ length a → read_full n (a ++ b) ≡ some (a, b)
unfolding read_full
read_full-append n a b e =
    let fits : leb (length a) (length (a ++ b)) ≡ true =
      le→leb (length a) (length (a ++ b)) (omega (arith, length-append a b)) in
    rw e (rw (fits, take-append, drop-append))

module _ (md5_hex : Bytes → Bytes) (digest : IsDigest md5_hex) (t n nr : ℕ) (id p : Bytes) where
  abbrev header : Bytes
  header = t ∷ (put16 n ++ (put16 nr ++ put16 (u16 (length id))))

  abbrev checksum : Bytes
  checksum = calculate_checksum md5_hex p

  abbrev tail : Bytes
  tail = put16 (u16 (length p)) ++ p

  packet-split :
      (rest : Bytes)
      → packet md5_hex t n nr id p ++ rest
        ≡ header ++ ((id ++ checksum) ++ (put16 (u16 (length p)) ++ (p ++ rest)))
  unfolding packet put16
  packet-split rest = simp append_assoc

  length_of_id : length id ≤ 1024 → two_bytes (be16 (drop 5 header)) ≡ length id
  unfolding put16 be16
  length_of_id short = omega arith

  length_of_payload : length p < 65536 → two_bytes (be16 (put16 (u16 (length p)))) ≡ length p
  unfolding put16 be16
  length_of_payload fits = omega arith

  seven : 7 ≡ length header
  unfolding put16
  seven = refl

  read_payload :
      (rest : Bytes)
      → length p < 65536
      → has_prefix id (codes "PIN_TLS") ≡ false
      → with_length (length id) header (id ++ checksum) (some (put16 (u16 (length p)), p ++ rest))
        ≡ frame (packet md5_hex t n nr id p) rest
  unfolding packet
  read_payload rest fits other =
      let small : ltb 65535 (length p) ≡ false = ground arith in
      rw
        (length_of_payload fits, take-append, other, small, read_full-append (length p) p rest refl)
        (simp append_assoc)

  pub read_message-packet :
      (rest : Bytes)
      → length id ≤ 1024
      → length p < 65536
      → has_prefix id (codes "PIN_TLS") ≡ false
      → read_message (packet md5_hex t n nr id p ++ rest) ≡ frame (packet md5_hex t n nr id p) rest
  unfolding read_message
  read_message-packet rest short fits other =
      let small : ltb 1024 (length id) ≡ false = ground arith in
      let front : length id + 4 ≡ length (id ++ checksum) =
        omega (arith, length-append id checksum, length-calculate_checksum md5_hex p digest) in
      ap (λ s. with_header (read_full 7 s)) (packet-split rest)
      ∙ ap with_header (read_full-append 7 header _ seven)
      ∙ rw
          (
            length_of_id short,
            small,
            read_full-append (length id + 4) (id ++ checksum)
                (put16 (u16 (length p)) ++ (p ++ rest)) front,
            read_full-append 2 (put16 (u16 (length p))) (p ++ rest)
                (sym (length-put16 (u16 (length p)))),
          )
          (read_payload rest fits other)

  length_in_packet :
      length id ≤ 1024 → id_length (be16 (drop 5 (packet md5_hex t n nr id p))) ≡ length id
  unfolding packet put16 be16
  length_in_packet short = omega arith

  is_rotation_frame-packet :
      length id ≤ 1024
      → has_prefix id (codes "PIN_TLS") ≡ false
      → is_rotation_frame (packet md5_hex t n nr id p) ≡ false
  unfolding is_rotation_frame packet put16
  is_rotation_frame-packet short other =
      let whole = packet md5_hex t n nr id p in
      let behind = checksum ++ (put16 (u16 (length p)) ++ p) in
      ap
        (λ k.
          if ltb (length whole) 7
          then false
          else not (ltb (length whole) (7 + k))
            && has_prefix (take k (id ++ behind)) (codes "PIN_TLS"))
        (length_in_packet short)
      ∙ rw (take-append, other) (ground arith)

-- Bytes that the receiver takes for one message, whatever comes behind.
abbrev pub IsFrame : Bytes → Type 0
IsFrame m =
    ((rest : Bytes) → read_message (m ++ rest) ≡ frame m rest)
    × ((is_rotation_frame m ≡ false) × (0 < length m))

-- A round for each message, and more.
abbrev rounds_for : List Bytes → ℕ → ℕ
rounds_for [] rounds = rounds
rounds_for (m ∷ ms) rounds = suc (rounds_for ms rounds)

rounds_for_lem : (ms : List Bytes) (rounds : ℕ) → rounds_for ms rounds ≡ length ms + rounds
rounds_for_lem [] rounds = omega arith
rounds_for_lem (m ∷ ms) rounds = omega (arith, rounds_for_lem ms rounds)

handle_connection-stream_of :
    (manager : Option (List Bytes → Bool)) (rotations : List Bytes) (messages : List Bytes)
    (rounds : ℕ) (rest : Bytes)
    → All IsFrame messages
    → handle_connection manager (rounds_for messages rounds) rotations (stream_of messages ++ rest)
      ≡ push_messages messages (handle_connection manager rounds rotations rest)
unfolding handle_connection
handle_connection-stream_of manager rotations [] rounds rest frames = refl
handle_connection-stream_of manager rotations (m ∷ ms) rounds rest frames =
    let (read, (ordinary, nonempty)) = frames.0 in
    let some_bytes : (length m == 0) ≡ false = ground arith in
    ap
      (λ s.
        after_read manager rotations (read_message s)
          (handle_connection manager (rounds_for ms rounds)))
      (append_assoc m (stream_of ms) rest)
    ∙ rw (read (stream_of ms ++ rest), some_bytes, ordinary)
        (ap (push_message m)
          (handle_connection-stream_of manager rotations ms rounds rest frames.1))

module _ (md5_hex : Bytes → Bytes) (digest : IsDigest md5_hex) (t nr k : ℕ) (id : Bytes)
    (short : length id ≤ 1024) (fits : k < 65536)
    (other : has_prefix id (codes "PIN_TLS") ≡ false) where
  packets-AreFrames :
      (n : ℕ) (ps : List Bytes)
      → All (λ p. length p ≤ k) ps
      → All IsFrame (packets md5_hex t nr id n ps)
  unfolding packets
  packets-AreFrames n [] bounded = tt
  packets-AreFrames n (p ∷ ps) bounded = (
    (
      (λ rest.
          read_message-packet md5_hex digest t n nr id p rest short (omega (arith, bounded.0))
            other),
      (
        is_rotation_frame-packet md5_hex digest t n nr id p short other,
        omega (arith, length-packet md5_hex t n nr id p digest),
      ),
    ),
    packets-AreFrames (u16 (n + 1)) ps bounded.1,
  )

-- The packets that FormatMessage makes of a message, written one behind the other to a connection,
-- and whatever comes behind them: the loop of handleConnection gives exactly these packets to the
-- callback, in order, and goes on with the rest. The id has at most 1024 bytes and does not start
-- with PIN_TLS, and the MTU is a uint16 with room behind the header.
pub sent_arrives :
    (md5_hex : Bytes → Bytes) (t mtu : ℕ) (id message : Bytes) (ps : List Bytes)
    (manager : Option (List Bytes → Bool)) (rotations : List Bytes) (rounds : ℕ) (rest : Bytes)
    → IsDigest md5_hex
    → mtu < 65536
    → 0 < length message
    → 13 + length id < mtu
    → length id ≤ 1024
    → has_prefix id (codes "PIN_TLS") ≡ false
    → format_message md5_hex t id message mtu ≡ returned ps
    → handle_connection manager (length ps + rounds) rotations (stream_of ps ++ rest)
      ≡ push_messages ps (handle_connection manager rounds rotations rest)
sent_arrives md5_hex t mtu id message ps manager rotations rounds rest digest w pos h short other
      e =
    let made : ps ≡ sent md5_hex t mtu id message =
      cc (format_message-sent md5_hex t mtu id message w pos h) in
    ap (λ r. handle_connection manager r rotations (stream_of ps ++ rest))
      (sym (rounds_for_lem ps rounds))
    ∙ handle_connection-stream_of manager rotations ps rounds rest (
        subst (All IsFrame) (sym made) (
          packets-AreFrames md5_hex digest t _ (room mtu id) id short (omega arith) other 1
            (pieces (room mtu id) message) (pieces_short (room mtu id) message)))
