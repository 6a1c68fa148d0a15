-- ===== src/Protocol/Parse/RoundTrip.antt =====
-- ParseMessage of src/protocol/parser.go reads what FormatMessage of src/protocol/formatter.go
-- writes.
use air_gap.Common.{
  Bytes, ℕ, ◌+◌, ◌≤◌, ◌<◌, [], ◌∷◌, ◌++◌, append_assoc, append-nil, ◌≡◌, ◌∙◌, refl, length,
  length-append, u16, ltb, ◌==◌, not, Option, some, arith, false,
}
use air_gap.Common.Slices.{slice, be16, put16, add16, sub16, slice_at, be16-put16, length-put16}
use air_gap.Protocol.Checksum.{IsDigest, calculate_checksum, length-calculate_checksum}
use air_gap.Protocol.Format.{packet}
use air_gap.Protocol.Parse.{Packet, good, decode_payload, decode_id, decode, ◌>>=◌}

-- Reading a number that put16 wrote.
read_put16 {ℓ} :
    {A : Type ℓ} (m a c : Bytes) (n lo hi : ℕ) (f : ℕ → Option A)
    → m ≡ a ++ (put16 n ++ c)
    → lo ≡ length a
    → hi ≡ lo + 2
    → n < 65536
    → (slice m lo hi >>= λ b. be16 b >>= f) ≡ f n
read_put16 m a c n lo hi f e l h w =
    rw (slice_at m a (put16 n) c lo hi e l (omega (arith, length-put16 n)), be16-put16 n w)

module _ (md5_hex : Bytes → Bytes) (digest : IsDigest md5_hex) (t n nr : ℕ) (id p : Bytes) where
  abbrev pub written : Packet
  written = record {
    message_type = t;
    message_number = n;
    nr_messages = nr;
    id = id;
    checksum = calculate_checksum md5_hex p;
    payload = p;
  }

  abbrev pub size : ℕ
  size = 13 + length id + length p

  -- The seven bytes before the id.
  abbrev head7 : Bytes
  head7 = t ∷ (put16 n ++ (put16 nr ++ put16 (u16 (length id))))

  abbrev pub csum : Bytes
  csum = calculate_checksum md5_hex p

  length-csum : length csum ≡ 4
  length-csum = length-calculate_checksum md5_hex p digest

  length-head7 : length head7 ≡ 7
  length-head7 = simp (length-append, length-put16)

  pub length-packet : length (packet md5_hex t n nr id p) ≡ size
  unfolding packet
  length-packet =
      simp (length-append, length-put16) (omega (arith, length-calculate_checksum md5_hex p digest))

  length-before_payload : length (head7 ++ (id ++ csum)) ≡ 11 + length id
  length-before_payload = simp (length-append, length-put16) (omega (arith, length-csum))

  payload_slice :
      size < 65536
      → slice
          (packet md5_hex t n nr id p)
          (add16 13 (length id))
          (add16 (add16 13 (length id)) (u16 (length p)))
        ≡ some p
  payload_slice w =
      slice_at (packet md5_hex t n nr id p) ((head7 ++ (id ++ csum)) ++ put16 (u16 (length p))) p []
        _ _ (unfold packet in simp (append_assoc, append-nil))
        (simp (length-append, length-put16) (omega (arith, length-csum)))
        (simp (length-append, length-put16) (omega (arith, length-csum)))

  decode_payload-packet :
      size < 65536
      → decode_payload (packet md5_hex t n nr id p) size t n nr (length id) id csum
        ≡ some (good written)
  unfolding decode_payload
  decode_payload-packet w =
      read_put16 (packet md5_hex t n nr id p) (head7 ++ (id ++ csum)) p (u16 (length p))
        (add16 11 (length id)) (add16 13 (length id)) _ (unfold packet in simp append_assoc)
        (omega (arith, length-before_payload)) (omega arith) (omega arith)
      ∙ (let fits : ltb (sub16 (sub16 size 13) (length id)) (u16 (length p)) ≡ false =
            ground arith in
          let whole : not (size == add16 (add16 (add16 (add16 7 (length id)) 4) 2) (u16 (length p)))
              ≡ false =
            ground arith in
          rw (fits, payload_slice w, whole))

  decode_id-packet :
      size < 65536 → decode_id (packet md5_hex t n nr id p) size t n nr ≡ some (good written)
  unfolding decode_id
  decode_id-packet w =
      read_put16 (packet md5_hex t n nr id p) (t ∷ (put16 n ++ put16 nr))
        (id ++ (csum ++ (put16 (u16 (length p)) ++ p))) (u16 (length id)) 5 7 _
        (unfold packet in simp append_assoc) (simp (length-append, length-put16)) (omega arith)
        (omega arith)
      ∙ (let same : u16 (length id) ≡ length id = omega arith in
          let fits : ltb (sub16 size 13) (length id) ≡ false = ground arith in
          let more : ltb size (add16 2 (add16 (add16 7 (length id)) 4)) ≡ false = ground arith in
          let id_slice : slice (packet md5_hex t n nr id p) 7 (add16 7 (length id)) ≡ some id =
            slice_at (packet md5_hex t n nr id p) head7 id (csum ++ (put16 (u16 (length p)) ++ p)) _
              _ (unfold packet in simp append_assoc) (omega (arith, length-head7))
              (omega (arith, length-head7)) in
          let checksum_slice : slice (packet md5_hex t n nr id p) (add16 7 (length id))
                (add16 11 (length id))
              ≡ some csum =
            slice_at (packet md5_hex t n nr id p) (head7 ++ id) csum (put16 (u16 (length p)) ++ p) _
              _ (unfold packet in simp append_assoc)
              (simp (length-append, length-put16) (omega arith))
              (simp (length-append, length-put16) (omega (arith, length-csum))) in
          rw (same, fits, id_slice, checksum_slice, more) (decode_payload-packet w))

  -- Decoding a packet that FormatMessage wrote gives back its fields.
  pub decode-packet :
      (max_nr : ℕ)
      → size < 65536
      → n < 65536
      → nr < 65536
      → nr ≤ max_nr
      → decode max_nr (packet md5_hex t n nr id p) ≡ some (good written)
  unfolding decode packet
  decode-packet max_nr w wn wnr few =
      let whole : u16 (length (packet md5_hex t n nr id p)) ≡ size = omega (arith, length-packet) in
      let long : ltb size 13 ≡ false = ground arith in
      let allowed : ltb max_nr nr ≡ false = ground arith in
      rw (whole, long)
        (read_put16 (packet md5_hex t n nr id p) (t ∷ [])
            (put16 nr
              ++ (put16 (u16 (length id)) ++ (id ++ (csum ++ (put16 (u16 (length p)) ++ p)))))
            n 1 3 _ refl refl refl wn
          ∙ (read_put16 (packet md5_hex t n nr id p) (t ∷ put16 n)
                (put16 (u16 (length id)) ++ (id ++ (csum ++ (put16 (u16 (length p)) ++ p)))) nr 3 5
                _ refl (omega (arith, length-put16 n)) refl wnr
              ∙ rw allowed (decode_id-packet w)))
