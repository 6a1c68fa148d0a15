-- ===== src/Protocol/Parse/Safety.antt =====
-- ParseMessage of src/protocol/parser.go never panics while it reads a packet, whatever bytes
-- arrive.
use air_gap.Common.{
  Bytes, ℕ, ◌+◌, ◌-◌, ◌≤◌, ◌<◌, [], ◌∷◌, ◌≡◌, refl, length, take, drop, get_elem?, Bool, u16, ltb,
  ◌==◌, not, if◌then◌else◌, Option, some, arith, true, false,
}
use air_gap.Common.Slices.{slice, be16, add16, sub16, slice_in_range, length-slice, be16_total}
use air_gap.Protocol.Parse.{Decoded, bad, good, decode_payload, decode_id, decode, ◌>>=◌}

-- `o` holds a value with the property `P`.
abbrev pub Succeeds {ℓ κ} : {A : Type ℓ} → (A → Type κ) → Option A → Type (ℓ ⊔ κ)
Succeeds {A = A} P o = (a : A) × (o ≡ some a) × P a

module _ {ℓ κ} {A : Type ℓ} (P : A → Type κ) where
  if_Succeeds :
      (b : Bool) (x : A) (o : Option A)
      → P x
      → (b ≡ false → Succeeds P o)
      → Succeeds P (if b then some x else o)
  if_Succeeds true x o p h = (x, refl, p)
  if_Succeeds false x o p h = h refl

  -- Two bytes are read where they are in range, and the rest goes on with their number.
  read16_bind :
      (m : Bytes) (lo hi : ℕ) (f : ℕ → Option A)
      → lo + 2 ≤ hi
      → hi ≤ length m
      → ((n : ℕ) → Succeeds P (f n))
      → Succeeds P (slice m lo hi >>= λ b. be16 b >>= f)
  read16_bind m lo hi f h k s =
      let (n, e) = be16_total (take (hi - lo) (drop lo m)) (omega (arith, length-slice m lo hi)) in
      rw (slice_in_range m lo hi (omega arith) k, e) (s n)

  slice_bind :
      (m : Bytes) (lo hi : ℕ) (f : Bytes → Option A)
      → lo ≤ hi
      → hi ≤ length m
      → ((b : Bytes) → Succeeds P (f b))
      → Succeeds P (slice m lo hi >>= f)
  slice_bind m lo hi f h k s = rw (slice_in_range m lo hi h k) (s (take (hi - lo) (drop lo m)))

  first_bind :
      (m : Bytes) (f : ℕ → Option A)
      → 0 < length m
      → ((t : ℕ) → Succeeds P (f t))
      → Succeeds P (get_elem? m 0 >>= f)
  first_bind [] f h s = absurd (omega arith)
  first_bind (x ∷ xs) f h s = s x

-- A packet announces no more parts than the limit.
abbrev pub Allowed : ℕ → Decoded → Type 0
Allowed max_nr (bad e) = Unit
Allowed max_nr (good p) = p.nr_messages ≤ max_nr

module _ (max_nr : ℕ) (m : Bytes) (len t n nr : ℕ) (within : len ≤ length m) (w : len < 65536)
    (few : nr ≤ max_nr) where
  decode_payload_total :
      (idl : ℕ) (id c : Bytes)
      → 13 + idl ≤ len
      → Succeeds (Allowed max_nr) (decode_payload m len t n nr idl id c)
  unfolding decode_payload
  decode_payload_total idl id c f =
      read16_bind (Allowed max_nr) m (add16 11 idl) (add16 13 idl) _ (omega arith) (omega arith)
        λ pl. if_Succeeds (Allowed max_nr) (ltb (sub16 (sub16 len 13) idl) pl) _ _ tt λ fits.
          slice_bind (Allowed max_nr) m (add16 13 idl) (add16 (add16 13 idl) pl) _ (ground arith)
            (ground arith)
            λ payload.
              if_Succeeds (Allowed max_nr) (not (len == add16 (add16 (add16 (add16 7 idl) 4) 2) pl))
                _ _ tt λ _. (_, refl, few)

  decode_id_total : 13 ≤ len → Succeeds (Allowed max_nr) (decode_id m len t n nr)
  unfolding decode_id
  decode_id_total f = read16_bind (Allowed max_nr) m 5 7 _ (omega arith) (omega arith) λ idl.
      if_Succeeds (Allowed max_nr) (ltb (sub16 len 13) idl) _ _ tt λ fits.
        slice_bind (Allowed max_nr) m 7 (add16 7 idl) _ (ground arith) (ground arith) λ id.
          slice_bind (Allowed max_nr) m (add16 7 idl) (add16 11 idl) _ (ground arith) (ground arith)
            λ c.
              if_Succeeds (Allowed max_nr) (ltb len (add16 2 (add16 (add16 7 idl) 4))) _ _ tt
                λ _. decode_payload_total idl id c (ground arith)

-- Every read of the header stays within the packet: for all bytes and every limit, decoding gives
-- an error or a packet within the limit, and does not panic.
pub decode_total : (max_nr : ℕ) (m : Bytes) → Succeeds (Allowed max_nr) (decode max_nr m)
unfolding decode
decode_total max_nr m = if_Succeeds (Allowed max_nr) (ltb (u16 (length m)) 13) _ _ tt λ fits.
    first_bind (Allowed max_nr) m _ (ground arith) λ t.
      read16_bind (Allowed max_nr) m 1 3 _ (omega arith) (ground arith) λ n.
        read16_bind (Allowed max_nr) m 3 5 _ (omega arith) (ground arith) λ nr.
          if_Succeeds (Allowed max_nr) (ltb max_nr nr) _ _ tt λ few.
            decode_id_total max_nr m (u16 (length m)) t n nr (omega arith) (omega arith)
              (ground arith) (ground arith)
