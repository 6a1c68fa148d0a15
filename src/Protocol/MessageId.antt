-- ===== src/Protocol/MessageId.antt =====
-- ParseMessageId of src/protocol/parser.go.
use air_gap.Common.{Bytes, List, [], ◌∷◌, Option, none, some}
use air_gap.Common.Text.{split}

abbrev three_parts : List Bytes → Option (Bytes × (Bytes × Bytes))
three_parts (topic ∷ (partition ∷ (offset ∷ []))) = some (topic, (partition, offset))
three_parts _ = none

-- ParseMessageId: the topic, the partition and the offset.
unfoldable pub parse_message_id : Bytes → Option (Bytes × (Bytes × Bytes))
parse_message_id id = three_parts (split b'_' id)
