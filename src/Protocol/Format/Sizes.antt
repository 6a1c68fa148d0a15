-- ===== src/Protocol/Format/Sizes.antt =====
-- How many packets FormatMessage of src/protocol/formatter.go makes, how long they are, and what
-- NrMessages announces.
use air_gap.Common.{
  Bytes, ℕ, zero, suc, ◌+◌, ◌-◌, ◌*◌, ◌/◌, ◌%◌, ◌≤◌, ◌<◌, List, [], ◌∷◌, ◌≡◌, refl, ap, length,
  drop, All, take-append-drop, length-append, length-take, length-drop, u16, ◌==◌, if◌then◌else◌,
  arith,
}
use mathlib.Core.List.{flatten}
use native.Mathlib.Nat.{div-add-mod, mod-lt}
use air_gap.Common.Slices.{length-put16}
use air_gap.Protocol.Checksum.{IsDigest, length-calculate_checksum}
use air_gap.Protocol.Format.{packet}
use air_gap.Protocol.Format.Chunks.{chunks, pieces, packets}

-- The pieces hold the message, in order and complete.
flatten-chunks : (fuel k : ℕ) (m : Bytes) → 0 < k → length m ≤ fuel → flatten (chunks fuel k m) ≡ m
unfolding chunks flatten
flatten-chunks zero k [] pos f = refl
flatten-chunks zero k (x ∷ xs) pos f = absurd (omega arith)
flatten-chunks (suc fuel) k [] pos f = refl
flatten-chunks (suc fuel) k (x ∷ xs) pos f =
    rw (flatten-chunks fuel k (drop k (x ∷ xs)) pos (omega (arith, length-drop k (x ∷ xs))))
      (take-append-drop k (x ∷ xs))

pub flatten-pieces : (k : ℕ) (m : Bytes) → 0 < k → flatten (pieces k m) ≡ m
unfolding pieces
flatten-pieces k m pos = flatten-chunks (suc (length m)) k m pos (omega arith)

-- No piece is longer than `k`.
chunks_short : (fuel k : ℕ) (m : Bytes) → All (λ p. length p ≤ k) (chunks fuel k m)
unfolding chunks
chunks_short zero k m = tt
chunks_short (suc fuel) k [] = tt
chunks_short (suc fuel) k (x ∷ xs) =
    (omega (arith, length-take k (x ∷ xs)), chunks_short fuel k (drop k (x ∷ xs)))

pub pieces_short : (k : ℕ) (m : Bytes) → All (λ p. length p ≤ k) (pieces k m)
unfolding pieces
pieces_short k m = chunks_short (suc (length m)) k m

lt_of_mul_lt : (a b k : ℕ) → a * k < b * k → a < b
lt_of_mul_lt a b k h = grind arith

ceil_of_bounds :
    (l n k : ℕ) → 0 < k → l ≤ n * k → n * k < l + k → n ≡ (if l % k == 0 then l / k else 1 + l / k)
ceil_of_bounds l n k pos low high = grind (
  arith,
  div-add-mod l k,
  mod-lt,
  lt_of_mul_lt n (l / k + 1) k,
  lt_of_mul_lt n (l / k + 2) k,
  lt_of_mul_lt (l / k) (n + 1) k,
)

count_step :
    (l c k : ℕ)
    → 0 < k
    → 0 < l
    → l - k ≤ c * k
    → c * k < l - k + k
    → (l ≤ suc c * k) × (suc c * k < l + k)
count_step l c k pos some_left low high = ground (arith, lt_of_mul_lt c 1 k)

-- The number of pieces, between two multiples of `k`.
chunks_count :
    (fuel k : ℕ) (m : Bytes)
    → 0 < k
    → length m ≤ fuel
    → (length m ≤ length (chunks fuel k m) * k) × (length (chunks fuel k m) * k < length m + k)
unfolding chunks
chunks_count zero k [] pos f = ground arith
chunks_count zero k (x ∷ xs) pos f = absurd (omega arith)
chunks_count (suc fuel) k [] pos f = ground arith
chunks_count (suc fuel) k (x ∷ xs) pos f =
    let ih = chunks_count fuel k (drop k (x ∷ xs)) pos (omega (arith, length-drop k (x ∷ xs))) in
    count_step (suc (length xs)) _ k pos (omega arith) (omega (arith, length-drop k (x ∷ xs), ih.0))
      (omega (arith, length-drop k (x ∷ xs), ih.1))

pub length-pieces :
    (k : ℕ) (m : Bytes)
    → 0 < k
    → length (pieces k m) ≡ (if length m % k == 0 then length m / k else 1 + length m / k)
unfolding pieces
length-pieces k m pos =
    let c = chunks_count (suc (length m)) k m pos (omega arith) in
    ceil_of_bounds (length m) _ k pos c.0 c.1

pub length-packets :
    (md5_hex : Bytes → Bytes) (message_type nr_msgs : ℕ) (id : Bytes) (number : ℕ) (ps : List Bytes)
    → length (packets md5_hex message_type nr_msgs id number ps) ≡ length ps
unfolding packets
length-packets md5_hex message_type nr_msgs id number [] = refl
length-packets md5_hex message_type nr_msgs id number (p ∷ ps) =
    ap suc (length-packets md5_hex message_type nr_msgs id (u16 (number + 1)) ps)

pub length-packet :
    (md5_hex : Bytes → Bytes) (message_type number nr_msgs : ℕ) (id p : Bytes)
    → IsDigest md5_hex
    → length (packet md5_hex message_type number nr_msgs id p) ≡ 13 + length id + length p
unfolding packet
length-packet md5_hex message_type number nr_msgs id p d =
    simp (length-append, length-put16) (omega (arith, length-calculate_checksum md5_hex p d))
