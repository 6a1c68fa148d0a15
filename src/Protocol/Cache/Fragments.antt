-- ===== src/Protocol/Cache/Fragments.antt =====
-- What AddPartAndSnapshot of src/protocol/cache.go has collected of one message.
use air_gap.Common.{
  Bytes, ℕ, suc, ◌<◌, none, some, List, [], ◌∷◌, ◌≡◌, refl, length, u16, leb, ◌==◌, ==_iff, Bool,
  false, if◌then◌else◌, lt→ltb, lt→leb, arith,
}
use air_gap.Common.Members.{contains}
use air_gap.Common.Maps.{lookup, nat_eq, bytes_eq, lookup-insert, length-insert_new, beq_refl}
use air_gap.Protocol.Cache.{
  MessageCache, MessageCacheEntry, put_part, store_part, is_complete, add_part_to,
  add_part_and_snapshot,
}

-- An entry that announces `nr` parts and holds those with the numbers `seen`, each once.
pub record Collected (nr : ℕ) (part : ℕ → Bytes) (seen : List ℕ) (e : MessageCacheEntry)
    : Type 0 where
  pub len : e.len ≡ nr
  pub parts : (j : ℕ) → lookup j e.val ≡ (if contains j seen then some (part j) else none)
  pub count : length e.val ≡ length seen

-- The cache holds such an entry for `id`.
pub record Holds (id : Bytes) (nr : ℕ) (part : ℕ → Bytes) (seen : List ℕ) (m : MessageCache)
    : Type 0 where
  pub entry : MessageCacheEntry
  pub found : lookup id m.entries ≡ some entry
  pub collected : Collected nr part seen entry

module _ (nr : ℕ) (part : ℕ → Bytes) where
  put_part-Collected :
      (seen : List ℕ) (e : MessageCacheEntry) (j : ℕ)
      → Collected nr part seen e
      → contains j seen ≡ false
      → Collected nr part (j ∷ seen) (put_part e j (part j))
  unfolding put_part contains
  put_part-Collected seen e j c fresh = record {
    len = c.len;
    parts = λ k. rw lookup-insert (ground (arith, c.parts k, ==_iff j k));
    count = omega (arith, length-insert_new j (part j) e.val (rw (c.parts j, fresh)), c.count);
  }

  is_complete-Collected :
      (seen : List ℕ) (e : MessageCacheEntry)
      → Collected nr part seen e
      → 0 < nr
      → length seen < 65536
      → is_complete e ≡ leb nr (length seen)
  unfolding is_complete
  is_complete-Collected seen e c pos few =
      let same : u16 (length seen) ≡ length seen = omega arith in
      rw (c.len, c.count, same, lt→ltb 0 nr pos)

  -- What a call of AddPartAndSnapshot returns once the parts `seen` are collected.
  pub record Stored (m : MessageCache) (id : Bytes) (seen : List ℕ)
      (r : MessageCacheEntry × Bool × MessageCache) : Type 0 where
    pub snapshot : Collected nr part seen r.0
    pub complete : r.1 ≡ leb nr (length seen)
    pub holds : Holds id nr part seen r.2
    pub limit : r.2.max_nr_messages ≡ m.max_nr_messages

  store_part-Stored :
      (m : MessageCache) (id : Bytes) (seen : List ℕ) (e : MessageCacheEntry) (j : ℕ)
      → Collected nr part seen e
      → contains j seen ≡ false
      → 0 < nr
      → suc (length seen) < 65536
      → Stored m id (j ∷ seen) (store_part m id j (part j) e)
  unfolding store_part
  store_part-Stored m id seen e j c fresh pos few =
      let c' = put_part-Collected seen e j c fresh in
      record {
        snapshot = c';
        complete = is_complete-Collected (j ∷ seen) _ c' pos few;
        holds = record {
          entry = put_part e j (part j);
          found = rw (lookup-insert, beq_refl id);
          collected = c';
        };
        limit = refl;
      }

  -- The first part of an id that the cache does not know.
  pub add_part-first :
      (m : MessageCache) (now : ℕ) (id : Bytes) (j : ℕ)
      → lookup id m.entries ≡ none
      → length m.entries < m.max_entries
      → 0 < nr
      → Stored m id (j ∷ []) (add_part_and_snapshot m now id j nr (part j))
  unfolding add_part_and_snapshot
  add_part-first m now id j unknown space pos =
      rw (unknown, add_part_to, lt→leb m.max_entries (length m.entries) space)
        (store_part-Stored m id [] _ j
          (record { len = refl; parts = λ k. unfold contains lookup in refl; count = refl })
          (unfold contains in refl) pos (omega arith))

  -- A further part, with a number that has not come before.
  pub add_part-next :
      (m : MessageCache) (now : ℕ) (id : Bytes) (j : ℕ) (seen : List ℕ)
      → Holds id nr part seen m
      → contains j seen ≡ false
      → 0 < nr
      → suc (length seen) < 65536
      → Stored m id (j ∷ seen) (add_part_and_snapshot m now id j nr (part j))
  unfolding add_part_and_snapshot
  add_part-next m now id j seen h fresh pos few =
      let announced : (h.entry.len == 0) ≡ false = ground (arith, h.collected.len) in
      rw (h.found, add_part_to, announced)
        (store_part-Stored m id seen h.entry j h.collected fresh pos few)
