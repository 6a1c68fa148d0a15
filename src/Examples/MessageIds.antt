-- ===== src/Examples/MessageIds.antt =====
-- A message id whose topic holds an underscore.
use air_gap.Common.{Bytes, ◌≡◌, refl, [], ◌∷◌, ◌++◌, false}
use air_gap.Common.Members.{contains}
use air_gap.Upstream.MessageId.{split_message_id}
use air_gap.Upstream.MessageId.Joining.{split_message_id_joined}

abbrev topic : Bytes
topic = b'a' ∷ b'_' ∷ b'b' ∷ []

no_underscore : contains b'_' (b'1' ∷ b'2' ∷ []) ≡ false
unfolding contains
no_underscore = refl

split_message_id_joined_example :
    split_message_id ((topic ++ (b'_' ∷ b'1' ∷ b'2' ∷ [])) ++ (b'_' ∷ b'1' ∷ b'2' ∷ []))
    ≡ (topic, (b'1' ∷ b'2' ∷ [], b'1' ∷ b'2' ∷ []))
split_message_id_joined_example =
    split_message_id_joined topic (b'1' ∷ b'2' ∷ []) (b'1' ∷ b'2' ∷ []) no_underscore no_underscore
