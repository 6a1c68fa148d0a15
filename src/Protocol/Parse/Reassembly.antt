-- ===== src/Protocol/Parse/Reassembly.antt =====
-- ParseMessage of src/protocol/parser.go over the packets of one message, in any order of arrival.
use air_gap.Common.{
  Bytes, ℕ, suc, ◌+◌, ◌-◌, ◌≤◌, ◌<◌, none, List, [], ◌∷◌, ◌++◌, ◌≡◌, refl, length, replicate, true,
  false, ◌||◌, if◌then◌else◌, All, map, lt→ltb, le→leb, lt→leb, Outcome, returned, arith,
}
use air_gap.Common.Maps.{lookup, bytes_eq, bytes_beq, beq_refl}
use air_gap.Common.Results.{◌>>=◌}
use air_gap.Protocol.Types.{type_multipart}
use air_gap.Protocol.Checksum.{IsDigest, calculate_checksum}
use air_gap.Protocol.Format.{packet}
use air_gap.Protocol.Cache.{MessageCache, add_part_and_snapshot, remove_entry}
use air_gap.Protocol.Cache.Bounds.{remove_entry_gone}
use air_gap.Protocol.Cache.Fragments.{Holds, Stored, add_part-first, add_part-next}
use air_gap.Common.Members.{contains}
use air_gap.Protocol.Parse.{
  Reply, accepted, assemble_message, deliver, receive_packet, parse_message,
}
use air_gap.Protocol.Parse.RoundTrip.{decode-packet}
use air_gap.Protocol.Parse.Joining.{joined, assemble_message-joined}

-- The answer to a part that is kept.
abbrev pub kept : Reply
kept = accepted type_multipart [] []

-- The packets that arrive, each with its time, given to ParseMessage one after the other.
unfoldable pub receive_all :
    (Bytes → Bytes) → MessageCache → List (ℕ × Bytes) → Outcome (List Reply × MessageCache)
receive_all md5_hex c [] = returned ([], c)
receive_all md5_hex c ((now, m) ∷ ms) = do
  (r, c') ← parse_message md5_hex c now m
  (rs, c'') ← receive_all md5_hex c' ms
  returned (r ∷ rs, c'')

module _ {nr : ℕ} (j : ℕ) (seen : List ℕ) where
  contains_step :
      (rest : List ℕ)
      → ((k : ℕ) → 1 ≤ k → k ≤ nr → (contains k seen || contains k (j ∷ rest)) ≡ true)
      → (k : ℕ) → 1 ≤ k
      → k ≤ nr
      → (contains k (j ∷ seen) || contains k rest) ≡ true
  unfolding contains
  contains_step rest all k low high = ground (arith, all k low high)

  contains_last :
      ((k : ℕ) → 1 ≤ k → k ≤ nr → (contains k seen || contains k (j ∷ [])) ≡ true)
      → (k : ℕ) → 1 ≤ k
      → k ≤ nr
      → contains k (j ∷ seen) ≡ true
  unfolding contains
  contains_last all k low high = ground (arith, all k low high)

-- No number stands twice in the list, nor among those seen before.
abbrev pub Fresh : List ℕ → List ℕ → Type 0
Fresh seen [] = Unit
Fresh seen (j ∷ rest) = (contains j seen ≡ false) × Fresh (j ∷ seen) rest

-- `order` lists the numbers from 1 to `nr`, each once.
pub record IsArrival (nr : ℕ) (order : List ℕ) : Type 0 where
  pub once : Fresh [] order
  pub all : (k : ℕ) → 1 ≤ k → k ≤ nr → contains k order ≡ true
  pub range : All (λ j. (1 ≤ j) × (j ≤ nr)) order
  pub count : length order ≡ nr

module _ (md5_hex : Bytes → Bytes) (digest : IsDigest md5_hex) (t nr : ℕ) (id : Bytes)
    (part : ℕ → Bytes) where
  abbrev pub part_packet : ℕ → Bytes
  part_packet j = packet md5_hex t j nr id (part j)

  -- A packet of these is read and its part goes to the cache.
  receive_part :
      (c : MessageCache) (now j : ℕ)
      → 13 + length id + length (part j) < 65536
      → j < 65536
      → 1 < nr
      → nr < 65536
      → nr ≤ c.max_nr_messages
      → parse_message md5_hex c now (part_packet j) ≡ (
          let (snapshot, complete, c') = add_part_and_snapshot c now id j nr (part j) in
          if complete then deliver t id c' (assemble_message snapshot) else returned (kept, c'))
  unfolding parse_message receive_packet
  receive_part c now j w wj many wnr few =
      let same : bytes_beq (calculate_checksum md5_hex (part j))
            (calculate_checksum md5_hex (part j))
          ≡ true =
        beq_refl {K = Bytes} (calculate_checksum md5_hex (part j)) in
      rw (
        decode-packet md5_hex digest t j nr id (part j) c.max_nr_messages w wj wnr few,
        same,
        lt→ltb 1 nr many,
      )

  abbrev pub arrivals : (ℕ → ℕ) → List ℕ → List (ℕ × Bytes)
  arrivals clock order = map (λ j. (clock j, part_packet j)) order

  abbrev pub whole : Reply
  whole = accepted t id (joined part 1 nr)

  module _ (c : MessageCache) (now j : ℕ) (seen : List ℕ)
      (s : Stored nr part c id (j ∷ seen) (add_part_and_snapshot c now id j nr (part j)))
      (w : 13 + length id + length (part j) < 65536) (wj : j < 65536) (many : 1 < nr)
      (wnr : nr < 65536) (few : nr ≤ c.max_nr_messages) where
    part-kept :
        suc (length seen) < nr
        → parse_message md5_hex c now (part_packet j)
          ≡ returned (kept, (add_part_and_snapshot c now id j nr (part j)).2)
    part-kept h =
        rw (receive_part c now j w wj many wnr few, s.complete, lt→leb nr (suc (length seen)) h)

    part_last :
        suc (length seen) ≡ nr
        → nr < 65535
        → ((k : ℕ) → 1 ≤ k → k ≤ nr → contains k (j ∷ seen) ≡ true)
        → parse_message md5_hex c now (part_packet j)
          ≡ returned (whole, remove_entry (add_part_and_snapshot c now id j nr (part j)).2 id)
    unfolding deliver
    part_last h wn all = rw (
      receive_part c now j w wj many wnr few,
      s.complete,
      le→leb nr (suc (length seen)) (omega arith),
      assemble_message-joined nr part (j ∷ seen) _ s.snapshot all wn,
    )

  abbrev pub IsDelivered : MessageCache → Outcome (List Reply × MessageCache) → ℕ → Type 0
  IsDelivered c r k =
      (c' : MessageCache) × (r ≡ returned (replicate k kept ++ (whole ∷ []), c'))
      × (lookup id c'.entries ≡ none)

  module _ (clock : ℕ → ℕ) (many : 1 < nr) (wn : nr < 65535)
      (w : (j : ℕ) → 13 + length id + length (part j) < 65536) where
    -- The numbers still to come complete the message.
    collect :
        (c : MessageCache) (seen : List ℕ) (j : ℕ) (rest : List ℕ)
        → Holds id nr part seen c
        → Fresh seen (j ∷ rest)
        → All (λ i. (1 ≤ i) × (i ≤ nr)) (j ∷ rest)
        → ((k : ℕ) → 1 ≤ k → k ≤ nr → (contains k seen || contains k (j ∷ rest)) ≡ true)
        → length seen + suc (length rest) ≡ nr
        → nr ≤ c.max_nr_messages
        → IsDelivered c (receive_all md5_hex c (arrivals clock (j ∷ rest))) (length rest)
    unfolding receive_all
    collect c seen j [] h fresh range all count few =
        let s = add_part-next nr part c (clock j) id j seen h fresh.0 (omega arith) (omega arith) in
        (
          remove_entry (add_part_and_snapshot c (clock j) id j nr (part j)).2 id,
          rw (
              part_last c (clock j) j seen s (w j) (omega arith) many (omega arith) few
                (omega arith) wn (contains_last j seen all)),
          remove_entry_gone _ id,
        )
    collect c seen j (i ∷ rest) h fresh range all count few =
        let s = add_part-next nr part c (clock j) id j seen h fresh.0 (omega arith) (omega arith) in
        let (c', e, gone) =
          collect (add_part_and_snapshot c (clock j) id j nr (part j)).2 (j ∷ seen) i rest s.holds
            fresh.1 range.1 (contains_step j seen (i ∷ rest) all) (omega arith)
            (omega (arith, s.limit)) in
        (
          c',
          rw (
            part-kept c (clock j) j seen s (w j) (omega arith) many (omega arith) few (omega arith),
            e,
          ),
          gone,
        )

    -- The packets of a message, each arriving once and in any order at a cache that has room and
    -- does not know the id: all but the last are kept, the last delivers the parts joined in the
    -- order of their numbers, and the entry of the id is gone.
    pub receive_all-any_order :
        (c : MessageCache) (order : List ℕ)
        → IsArrival nr order
        → lookup id c.entries ≡ none
        → length c.entries < c.max_entries
        → nr ≤ c.max_nr_messages
        → IsDelivered c (receive_all md5_hex c (arrivals clock order)) (nr - 1)
    unfolding receive_all contains
    receive_all-any_order c [] a unknown space few = absurd (omega (arith, a.count))
    receive_all-any_order c (j ∷ []) a unknown space few = absurd (omega (arith, a.count))
    receive_all-any_order c (j ∷ i ∷ rest) a unknown space few =
        let s = add_part-first nr part c (clock j) id j unknown space (omega arith) in
        let (c', e, gone) =
          collect (add_part_and_snapshot c (clock j) id j nr (part j)).2 (j ∷ []) i rest s.holds
            a.once.1 a.range.1 (contains_step j [] (i ∷ rest) a.all) (omega (arith, a.count))
            (omega (arith, s.limit)) in
        let left : nr - 1 ≡ suc (length rest) = omega (arith, a.count) in
        (
          c',
          rw (
            left,
            part-kept c (clock j) j [] s (w j) (omega (arith, a.range)) many (omega arith) few
                (omega arith),
            e,
          ),
          gone,
        )

    unfinished :
        (c : MessageCache) (seen rest : List ℕ)
        → Holds id nr part seen c
        → Fresh seen rest
        → All (λ i. i < 65536) rest
        → length seen + length rest < nr
        → nr ≤ c.max_nr_messages
        → (c' : MessageCache) × (receive_all md5_hex c (arrivals clock rest)
            ≡ returned (replicate (length rest) kept, c'))
    unfolding receive_all
    unfinished c seen [] h fresh range count few = (c, refl)
    unfinished c seen (j ∷ rest) h fresh range count few =
        let s = add_part-next nr part c (clock j) id j seen h fresh.0 (omega arith) (omega arith) in
        let (c', e) =
          unfinished (add_part_and_snapshot c (clock j) id j nr (part j)).2 (j ∷ seen) rest s.holds
            fresh.1 range.1 (omega arith) (omega (arith, s.limit)) in
        (
          c',
          rw (part-kept c (clock j) j seen s (w j) range.0 many (omega arith) few (omega arith), e),
        )

    -- While fewer packets of a message have come than they announce, each once, every one of them
    -- is kept and nothing is delivered.
    pub receive_all-incomplete :
        (c : MessageCache) (order : List ℕ)
        → Fresh [] order
        → All (λ i. i < 65536) order
        → length order < nr
        → lookup id c.entries ≡ none
        → length c.entries < c.max_entries
        → nr ≤ c.max_nr_messages
        → (c' : MessageCache) × (receive_all md5_hex c (arrivals clock order)
            ≡ returned (replicate (length order) kept, c'))
    unfolding receive_all
    receive_all-incomplete c [] fresh range count unknown space few = (c, refl)
    receive_all-incomplete c (j ∷ rest) fresh range count unknown space few =
        let s = add_part-first nr part c (clock j) id j unknown space (omega arith) in
        let (c', e) =
          unfinished (add_part_and_snapshot c (clock j) id j nr (part j)).2 (j ∷ []) rest s.holds
            fresh.1 range.1 (omega arith) (omega (arith, s.limit)) in
        (
          c',
          rw (part-kept c (clock j) j [] s (w j) range.0 many (omega arith) few (omega arith), e),
        )
