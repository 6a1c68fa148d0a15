-- ===== src/Protocol/Cache.antt =====
-- src/protocol/cache.go: the fragments of messages that are not complete.
-- The clock is an argument, in milliseconds. The mutex makes each operation one step.
pub mod Bounds
pub mod Fragments
use air_gap.Common.{
  Bytes, ℕ, ◌+◌, Option, none, some, List, [], ◌∷◌, length, u16, ltb, leb, ◌==◌, Bool, true, false,
  ◌&&◌, if◌then◌else◌,
}
use air_gap.Common.Maps.{Eq, lookup, insert, delete, bytes_eq, nat_eq}

abbrev pub ttl : ℕ
ttl = 30000

abbrev pub default_max_cache_entries : ℕ
default_max_cache_entries = 100000

abbrev pub default_max_nr_messages : ℕ
default_max_nr_messages = 4096

pub record MessageCacheEntry : Type 0 where
  pub end : ℕ
  pub len : ℕ
  pub val : List (ℕ × Bytes)

pub record MessageCache : Type 0 where
  pub entries : List (Bytes × MessageCacheEntry)
  pub max_entries : ℕ
  pub max_nr_messages : ℕ

-- createMessageCacheEntry
abbrev pub create_message_cache_entry : ℕ → MessageCacheEntry
create_message_cache_entry now = record { end = now + (1 + ttl); len = 0; val = [] }

-- CreateMessageCache, without the ticker that calls CleanList.
unfoldable pub create_message_cache : MessageCache
create_message_cache = record {
  entries = [];
  max_entries = default_max_cache_entries;
  max_nr_messages = default_max_nr_messages;
}

-- The zero value of MessageCacheEntry, returned when the cache is full.
abbrev pub empty_entry : MessageCacheEntry
empty_entry = record { end = 0; len = 0; val = [] }

-- entry.val[messageId] = payload
unfoldable pub put_part : MessageCacheEntry → ℕ → Bytes → MessageCacheEntry
put_part entry message_id payload = record entry { val = insert message_id payload entry.val }

-- isComplete of a snapshot.
unfoldable pub is_complete : MessageCacheEntry → Bool
is_complete snapshot = ltb 0 snapshot.len && leb snapshot.len (u16 (length snapshot.val))

-- The tail of AddPartAndSnapshot: write the part, store the entry, copy it and test it.
unfoldable pub store_part :
    MessageCache → Bytes → ℕ → Bytes → MessageCacheEntry → MessageCacheEntry × Bool × MessageCache
store_part m id message_id payload entry =
    let snapshot = put_part entry message_id payload in
    (snapshot, is_complete snapshot, record m { entries = insert id snapshot m.entries })

abbrev set_len : MessageCacheEntry → ℕ → MessageCacheEntry
set_len entry n = if entry.len == 0 then record entry { len = n } else entry

unfoldable pub add_part_to :
    MessageCache
    → ℕ
    → Bytes
    → ℕ
    → ℕ
    → Bytes
    → Option MessageCacheEntry
    → MessageCacheEntry × Bool × MessageCache
add_part_to m now id message_id max_message_id payload (some entry) =
    store_part m id message_id payload (set_len entry max_message_id)
add_part_to m now id message_id max_message_id payload none =
    if leb m.max_entries (length m.entries)
    then (empty_entry, false, m)
    else store_part m id message_id payload
        (record (create_message_cache_entry now) { len = max_message_id })

-- AddPartAndSnapshot
unfoldable pub add_part_and_snapshot :
    MessageCache → ℕ → Bytes → ℕ → ℕ → Bytes → MessageCacheEntry × Bool × MessageCache
unfolding add_part_to store_part
add_part_and_snapshot m now id message_id max_message_id payload =
    add_part_to m now id message_id max_message_id payload (lookup id m.entries)

-- GetEntry: the flag is false for the error "no such key".
unfoldable pub get_entry : MessageCache → ℕ → Bytes → MessageCacheEntry × Bool
get_entry m now id = elim (lookup id m.entries) [
  | some entry ↦ (entry, true)
  | none ↦ (create_message_cache_entry now, false)
]

-- GetCacheSize
unfoldable pub get_cache_size : MessageCache → ℕ
get_cache_size m = length m.entries

abbrev entry_or_new : Option MessageCacheEntry → ℕ → ℕ → MessageCacheEntry
entry_or_new (some entry) now max_message_id = entry
entry_or_new none now max_message_id = record (create_message_cache_entry now) {
  len = max_message_id;
}

-- AddEntry
unfoldable pub add_entry : MessageCache → ℕ → Bytes → ℕ → ℕ → Bytes → MessageCache
unfolding put_part
add_entry m now id message_id max_message_id payload =
    let entry = entry_or_new (lookup id m.entries) now max_message_id in
    record m { entries = insert id (put_part entry message_id payload) m.entries }

-- AddEntryValue
unfoldable pub add_entry_value : MessageCache → ℕ → Bytes → ℕ → ℕ → Bytes → MessageCache
unfolding put_part get_entry
add_entry_value m now id message_id max_message_id payload = record m {
  entries = insert id (put_part (get_entry m now id).0 message_id payload) m.entries;
}

-- RemoveEntry
unfoldable pub remove_entry : MessageCache → Bytes → MessageCache
remove_entry m id = record m { entries = delete id m.entries }

-- SetLimits
unfoldable pub set_limits : MessageCache → ℕ → ℕ → MessageCache
set_limits m max_entries max_nr_messages = record m {
  max_entries = max_entries;
  max_nr_messages = max_nr_messages;
}

-- The loop of CleanList: an entry goes if it ended before the time of the call.
unfoldable pub clean_entries :
    ℕ → List (Bytes × MessageCacheEntry) → List (Bytes × MessageCacheEntry)
clean_entries now [] = []
clean_entries now ((id, entry) ∷ rest) =
    let kept = clean_entries now rest in if ltb entry.end now then kept else (id, entry) ∷ kept

-- CleanList
unfoldable pub clean_list : MessageCache → ℕ → MessageCache
unfolding clean_entries
clean_list m now = record m { entries = clean_entries now m.entries }
