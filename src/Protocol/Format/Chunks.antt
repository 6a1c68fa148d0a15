-- ===== src/Protocol/Format/Chunks.antt =====
-- FormatMessage of src/protocol/formatter.go against its specification: the message cut into
-- chunks, and one packet for each.
use air_gap.Common.{
  Bytes, ℕ, zero, suc, ◌+◌, ◌-◌, ◌<◌, ◌≤◌, List, [], ◌∷◌, ◌++◌, append_assoc, append-nil, ◌≡◌, refl,
  sym, length, take, drop, take_all, drop-drop, length-drop, ltb, leb, u16, Bool-cases, inl, inr,
  ltb→lt, le→ltb, leb→le, returned, arith, false, drop_all, ◌==◌,
}
use air_gap.Protocol.Format.{packet, next_payload, format_loop, nr_messages, format_message}

-- The message in pieces of `k` bytes, the last one shorter.
unfoldable pub chunks : ℕ → ℕ → Bytes → List Bytes
chunks zero k m = []
chunks (suc fuel) k [] = []
chunks (suc fuel) k (x ∷ xs) = take k (x ∷ xs) ∷ chunks fuel k (drop k (x ∷ xs))

-- The pieces of a message, with as much fuel as it has bytes.
unfoldable pub pieces : ℕ → Bytes → List Bytes
unfolding chunks
pieces k m = chunks (suc (length m)) k m

-- One packet for each piece, numbered in uint16.
unfoldable pub packets : (Bytes → Bytes) → ℕ → ℕ → Bytes → ℕ → List Bytes → List Bytes
packets md5_hex message_type nr_msgs id number [] = []
packets md5_hex message_type nr_msgs id number (p ∷ ps) =
    packet md5_hex message_type number nr_msgs id p
    ∷ packets md5_hex message_type nr_msgs id (u16 (number + 1)) ps

chunks_step :
    (fuel k : ℕ) (m : Bytes)
    → 0 < length m
    → chunks (suc fuel) k m ≡ take k m ∷ chunks fuel k (drop k m)
unfolding chunks
chunks_step fuel k [] h = absurd (omega arith)
chunks_step fuel k (x ∷ xs) h = refl

chunks_end : (fuel k : ℕ) → chunks fuel k [] ≡ []
unfolding chunks
chunks_end zero k = refl
chunks_end (suc fuel) k = refl

-- A message that fits is one piece.
pub pieces_one : (k : ℕ) (m : Bytes) → 0 < length m → length m ≤ k → pieces k m ≡ m ∷ []
unfolding pieces
pieces_one k m pos fits =
    rw (chunks_step (length m) k m pos, take_all k m fits, drop_all k m fits, chunks_end)

next_payload-take :
    (m : Bytes) (position remaining : ℕ)
    → next_payload m position remaining ≡ take remaining (drop position m)
unfolding next_payload
next_payload-take m position remaining = elim (Bool-cases (leb (length m - position) remaining)) [
  | inl fits ↦ rw fits (
      sym (
        take_all remaining (drop position m)
          (omega (arith, length-drop position m, leb→le _ _ fits))))
  | inr more ↦ rw more
]

-- The bytes of payload that fit a packet.
abbrev pub room : ℕ → Bytes → ℕ
room mtu id = mtu - (13 + length id)

module _ (md5_hex : Bytes → Bytes) (message_type mtu : ℕ) (id message : Bytes) where
  loop_packets :
      (nr_msgs fuel position number : ℕ) (result : List Bytes)
      → 13 + length id < mtu
      → 0 < fuel
      → length message < position + fuel
      → format_loop md5_hex fuel message_type nr_msgs mtu id message position number result
        ≡ returned (
            result
            ++ packets md5_hex message_type nr_msgs id number
                (chunks fuel (room mtu id) (drop position message)))
  unfolding format_loop packets
  loop_packets nr_msgs zero position number result h pos f = absurd (omega arith)
  loop_packets nr_msgs (suc fuel) position number result h pos f =
      elim (Bool-cases (ltb position (length message))) [
        | inl more ↦
            let step : format_loop md5_hex fuel message_type nr_msgs mtu id message
                  (position + (room mtu id)) (u16 (number + 1))
                  (result
                    ++ packet md5_hex message_type number nr_msgs id
                        (next_payload message position (room mtu id))
                      ∷ [])
                ≡ _ =
              loop_packets nr_msgs fuel (position + (room mtu id)) (u16 (number + 1))
                (result
                  ++ packet md5_hex message_type number nr_msgs id
                      (next_payload message position (room mtu id))
                    ∷ [])
                h (omega (arith, ltb→lt _ _ more)) (omega (arith, ltb→lt _ _ more)) in
            rw (more, le→ltb mtu (13 + length id) (omega arith))
              (rw
                (chunks_step fuel (room mtu id) (drop position message)
                  (omega (arith, length-drop position message, ltb→lt _ _ more)))
                (rw step (rw (drop-drop, append_assoc, next_payload-take))))
        | inr done ↦
            let end : drop position message ≡ [] = drop_all position message (ground arith) in
            rw (done, end, chunks_end, append-nil)
      ]

  -- With (room mtu id) in the MTU for the header and a byte of payload, a message is sent as its pieces,
  -- numbered from 1, in packets that all announce `announced` parts.
  pub format_message_lem :
      {announced : ℕ}
      → 13 + length id < mtu
      → 0 < length message
      → nr_messages mtu id message ≡ returned announced
      → format_message md5_hex message_type id message mtu
        ≡ returned (packets md5_hex message_type announced id 1 (pieces (room mtu id) message))
  unfolding format_message pieces chunks
  format_message_lem {announced} h pos e =
      let nonempty : (length message == 0) ≡ false = ground arith in
      rw (nonempty, e)
        (loop_packets announced (suc (length message)) 0 1 [] h (omega arith) (omega arith))
