-- ===== src/Protocol/Parse/Totality.antt =====
-- ParseMessage of src/protocol/parser.go returns, whatever bytes arrive, and keeps the cache in
-- bounds.
use air_gap.Common.{
  Bytes, ℕ, ◌≤◌, ◌<◌, Option, none, some, List, ◌≡◌, ◌≢◌, refl, length, ltb, not, Bool, Bool-cases,
  inl, inr, leb, Outcome, returned, arith,
}
use air_gap.Common.Maps.{lookup, insert, bytes_eq, bytes_beq, lookup-insert}
use air_gap.Protocol.Checksum.{calculate_checksum}
use air_gap.Protocol.Cache.{
  MessageCache, MessageCacheEntry, add_part_to, store_part, add_part_and_snapshot, remove_entry,
  put_part,
}
use air_gap.Protocol.Cache.Bounds.{
  IsBounded, add_part-IsBounded, remove_entry-IsBounded, lookup-remove_entry,
}
use air_gap.Protocol.Parse.{
  Reply, Packet, bad, good, assembled, missing, endless, Assembly, assemble_message, deliver,
  receive_packet, parse_message, decode,
}
use air_gap.Protocol.Parse.Joining.{assemble_message_ends}
use air_gap.Protocol.Parse.Safety.{Succeeds, decode_total, Allowed}

-- The entries announce fewer than 65535 parts, so that the counter of assembleMessage does not
-- wrap, and there are no more of them than the cache allows.
pub record IsSound (m : MessageCache) : Type 0 where
  pub short : (id : Bytes) (e : MessageCacheEntry) → lookup id m.entries ≡ some e → e.len < 65535
  pub bounded : IsBounded m

abbrev AreShort : List (Bytes × MessageCacheEntry) → Type 0
AreShort es = (id : Bytes) (e : MessageCacheEntry) → lookup id es ≡ some e → e.len < 65535

insert-AreShort :
    (es : List (Bytes × MessageCacheEntry)) (id : Bytes) (new : MessageCacheEntry)
    → AreShort es
    → new.len < 65535
    → AreShort (insert id new es)
insert-AreShort es id new s short j e = rw lookup-insert (λ h. ground (arith, s j e))

-- What AddPartAndSnapshot returns for a part that announces fewer than 65535 parts.
record IsSoundResult (m : MessageCache) (r : MessageCacheEntry × Bool × MessageCache) : Type 0 where
  snapshot : r.0.len < 65535
  entries : AreShort r.2.entries
  limit : r.2.max_nr_messages ≡ m.max_nr_messages

module _ (m : MessageCache) (now : ℕ) (id : Bytes) (n nr : ℕ) (payload : Bytes)
    (few : nr < 65535) where
  store_part-IsSoundResult :
      (e : MessageCacheEntry)
      → AreShort m.entries
      → e.len < 65535
      → IsSoundResult m (store_part m id n payload e)
  unfolding store_part put_part
  store_part-IsSoundResult e s short = record {
    snapshot = short;
    entries = insert-AreShort m.entries id (put_part e n payload) s short;
    limit = refl;
  }

  add_part_to-IsSoundResult :
      (o : Option MessageCacheEntry)
      → lookup id m.entries ≡ o
      → AreShort m.entries
      → IsSoundResult m (add_part_to m now id n nr payload o)
  unfolding add_part_to
  add_part_to-IsSoundResult (some old) known s =
      store_part-IsSoundResult _ s (ground (arith, s id old known))
  add_part_to-IsSoundResult none unknown s =
      elim (Bool-cases (leb m.max_entries (length m.entries))) [
        | inl full ↦ rw full (record { snapshot = omega arith; entries = s; limit = refl })
        | inr space ↦ rw space (store_part-IsSoundResult _ s few)
      ]

  add_part-IsSoundResult :
      AreShort m.entries → IsSoundResult m (add_part_and_snapshot m now id n nr payload)
  unfolding add_part_and_snapshot
  add_part-IsSoundResult s = add_part_to-IsSoundResult (lookup id m.entries) refl s

remove_entry-IsSound : (m : MessageCache) (id : Bytes) → IsSound m → IsSound (remove_entry m id)
remove_entry-IsSound m id s = record {
  short = λ j e. rw lookup-remove_entry (λ h. ground (arith, s.short j e));
  bounded = remove_entry-IsBounded m id s.bounded;
}

-- A call returns, with a cache that is sound again and has the same limit.
abbrev pub ReturnsSound : MessageCache → Outcome (Reply × MessageCache) → Type 0
ReturnsSound m o =
    (r : Reply) × (m' : MessageCache) × (o ≡ returned (r, m'))
    × IsSound m'
    × (m'.max_nr_messages ≡ m.max_nr_messages)

deliver-ReturnsSound :
    (m m' : MessageCache) (t : ℕ) (id : Bytes) (a : Assembly)
    → a ≢ endless
    → IsSound m'
    → m'.max_nr_messages ≡ m.max_nr_messages
    → ReturnsSound m (deliver t id m' a)
unfolding deliver
deliver-ReturnsSound m m' t id (assembled b) ends s e =
    (_, remove_entry m' id, refl, remove_entry-IsSound m' id s, unfold remove_entry in e)
deliver-ReturnsSound m m' t id (missing i) ends s e = (_, m', refl, s, e)
deliver-ReturnsSound m m' t id endless ends s e = absurd (ends refl)

module _ (md5_hex : Bytes → Bytes) (m : MessageCache) (now : ℕ) (s : IsSound m)
    (few : m.max_nr_messages < 65535) where
  receive_packet-ReturnsSound :
      (p : Packet)
      → p.nr_messages ≤ m.max_nr_messages
      → ReturnsSound m (receive_packet md5_hex m now p)
  unfolding receive_packet
  receive_packet-ReturnsSound p allowed =
      let r =
        add_part-IsSoundResult m now p.id p.message_number p.nr_messages p.payload (omega arith)
          s.short in
      let added = add_part_and_snapshot m now p.id p.message_number p.nr_messages p.payload in
      let s' : IsSound added.2 = record {
        short = r.entries;
        bounded = add_part-IsBounded m now p.id p.message_number p.nr_messages p.payload s.bounded;
      } in
      elim (Bool-cases (not (bytes_beq (calculate_checksum md5_hex p.payload) p.checksum))) [
        | inl wrong ↦ rw wrong (_, m, refl, s, refl)
        | inr right ↦ elim (Bool-cases (ltb 1 p.nr_messages)) [
          | inl several ↦ elim (Bool-cases added.1) [
            | inl complete ↦
                rw (right, several, complete)
                  (deliver-ReturnsSound m added.2 p.message_type p.id (assemble_message added.0)
                    (assemble_message_ends added.0 r.snapshot) s' r.limit)
            | inr partial ↦ rw (right, several, partial) (_, added.2, refl, s', r.limit)
          ]
          | inr single ↦ rw (right, single) (_, m, refl, s, refl)
        ]
      ]

  -- With a limit of fewer than 65535 parts, ParseMessage returns for every sequence of bytes: it
  -- does not panic and its loop ends. The cache stays within its number of entries, its entries
  -- announce fewer than 65535 parts, and its limit stays, so the same holds of the next packet.
  pub parse_message_returns :
      (message : Bytes) → ReturnsSound m (parse_message md5_hex m now message)
  unfolding parse_message
  parse_message_returns message = go (decode_total m.max_nr_messages message)
    where
      go :
          Succeeds (Allowed m.max_nr_messages) (decode m.max_nr_messages message)
          → ReturnsSound m (parse_message md5_hex m now message)
      go (bad e, h, a) = rw h (_, m, refl, s, refl)
      go (good p, h, a) = rw h (receive_packet-ReturnsSound p a)
