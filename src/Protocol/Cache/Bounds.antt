-- ===== src/Protocol/Cache/Bounds.antt =====
-- src/protocol/cache.go: the number of entries stays within its limit, and cleaning removes
-- exactly what has expired.
use air_gap.Common.{
  Bytes, ℕ, ◌≤◌, ◌<◌, none, some, List, [], ◌∷◌, ◌≡◌, length, leb, false, if◌then◌else◌, le→leb,
  inl, inr, Option-cases, Bool-cases, arith,
}
use air_gap.Common.Maps.{
  lookup, insert, bytes_eq, bytes_beq, beq_refl, lookup-delete, length-insert_new,
  length-insert_known, length-delete,
}
use air_gap.Protocol.Cache.{
  MessageCache, MessageCacheEntry, empty_entry, add_part_to, add_part_and_snapshot, remove_entry,
  clean_entries, clean_list,
}

-- RemoveEntry forgets its id, and no other.
pub lookup-remove_entry :
    (m : MessageCache) (id j : Bytes)
    → lookup j (remove_entry m id).entries ≡ (if bytes_beq id j then none else lookup j m.entries)
unfolding remove_entry
lookup-remove_entry m id j = lookup-delete id j m.entries

pub remove_entry_gone :
    (m : MessageCache) (id : Bytes) → lookup id (remove_entry m id).entries ≡ none
remove_entry_gone m id = rw (lookup-remove_entry, beq_refl id)

abbrev pub IsBounded : MessageCache → Type 0
IsBounded m = length m.entries ≤ m.max_entries

insert_unknown_le :
    (id : Bytes) (e : MessageCacheEntry) (m : MessageCache)
    → lookup id m.entries ≡ none
    → length m.entries < m.max_entries
    → length (insert id e m.entries) ≤ m.max_entries
insert_unknown_le id e m unknown h = omega (arith, length-insert_new id e m.entries unknown)

insert_known_le :
    (id : Bytes) (e : MessageCacheEntry) (m : MessageCache) {f : MessageCacheEntry}
    → lookup id m.entries ≡ some f
    → IsBounded m
    → length (insert id e m.entries) ≤ m.max_entries
insert_known_le id e m {f} known h = omega (arith, length-insert_known id e f m.entries known)

-- AddPartAndSnapshot never lets the cache grow past its limit, whatever arrives.
pub add_part-IsBounded :
    (m : MessageCache) (now : ℕ) (id : Bytes) (message_id max_message_id : ℕ) (payload : Bytes)
    → IsBounded m
    → IsBounded (add_part_and_snapshot m now id message_id max_message_id payload).2
unfolding add_part_and_snapshot
add_part-IsBounded m now id message_id max_message_id payload h =
    elim (Option-cases (lookup id m.entries)) [
      | inl unknown ↦ elim (Bool-cases (leb m.max_entries (length m.entries))) [
        | inl full ↦ rw (unknown, add_part_to, full) h
        | inr space ↦
            rw (unknown, add_part_to, space) (insert_unknown_le id _ m unknown (ground arith))
      ]
      | inr (entry, known) ↦ rw (known, add_part_to) (insert_known_le id _ m known h)
    ]

pub remove_entry-IsBounded :
    (m : MessageCache) (id : Bytes) → IsBounded m → IsBounded (remove_entry m id)
unfolding remove_entry
remove_entry-IsBounded m id h = omega (arith, length-delete id m.entries)

-- With a full cache, a part of an unknown message is dropped and nothing changes.
pub add_part_full :
    (m : MessageCache) (now : ℕ) (id : Bytes) (message_id max_message_id : ℕ) (payload : Bytes)
    → lookup id m.entries ≡ none
    → m.max_entries ≤ length m.entries
    → add_part_and_snapshot m now id message_id max_message_id payload ≡ (empty_entry, false, m)
unfolding add_part_and_snapshot
add_part_full m now id message_id max_message_id payload unknown full =
    rw (unknown, add_part_to, le→leb m.max_entries (length m.entries) full)

clean_entries_fresh :
    (now : ℕ) (es : List (Bytes × MessageCacheEntry)) (id : Bytes) (e : MessageCacheEntry)
    → lookup id (clean_entries now es) ≡ some e
    → now ≤ e.end
unfolding clean_entries lookup
clean_entries_fresh now [] id e h = cc
clean_entries_fresh now ((j, f) ∷ es) id e h = ground (arith, clean_entries_fresh now es id e)

clean_entries_kept :
    (now : ℕ) (es : List (Bytes × MessageCacheEntry)) (id : Bytes) (e : MessageCacheEntry)
    → lookup id es ≡ some e
    → now ≤ e.end
    → lookup id (clean_entries now es) ≡ some e
unfolding clean_entries lookup
clean_entries_kept now [] id e h k = cc
clean_entries_kept now ((j, f) ∷ es) id e h k = ground (arith, clean_entries_kept now es id e)

-- After CleanList at a time, an entry that is still found had not ended before that time; and an
-- entry that had not ended is found as it was.
pub clean_list_exact :
    (m : MessageCache) (now : ℕ) (id : Bytes) (e : MessageCacheEntry)
    → (lookup id (clean_list m now).entries ≡ some e → now ≤ e.end)
      × (lookup id m.entries ≡ some e → now ≤ e.end → lookup id (clean_list m now).entries ≡ some e)
unfolding clean_list
clean_list_exact m now id e =
    (clean_entries_fresh now m.entries id e, clean_entries_kept now m.entries id e)
