-- ===== src/Upstream/MessageId.antt =====
-- splitMessageID of src/upstream/ale.go: the topic, partition and offset of a message id.
pub mod Joining
use air_gap.Common.{Bytes, ℕ, ◌+◌, Option, none, some, [], take, drop}
use air_gap.Common.Text.{last_index}

abbrev pub Parts : Type 0
Parts = Bytes × (Bytes × Bytes)

-- The part in front of the last underscore, cut again.
abbrev pub front_parts : Bytes → Bytes → Option ℕ → Parts
front_parts rest offset none = (rest, ([], offset))
front_parts rest offset (some i) = (take i rest, (drop (i + 1) rest, offset))

abbrev pub parts_at : Bytes → Option ℕ → Parts
parts_at id none = (id, ([], []))
parts_at id (some i) = front_parts (take i id) (drop (i + 1) id) (last_index b'_' (take i id))

-- splitMessageID
unfoldable pub split_message_id : Bytes → Parts
split_message_id id = parts_at id (last_index b'_' id)
