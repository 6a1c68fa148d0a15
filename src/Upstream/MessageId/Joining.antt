-- ===== src/Upstream/MessageId/Joining.antt =====
-- splitMessageID of src/upstream/ale.go gives back the parts that an id was joined of.
use air_gap.Common.{
  Bytes, ℕ, suc, ◌+◌, ◌≡◌, refl, ap, ap₂, ◌∙◌, none, some, [], ◌∷◌, ◌++◌, true, false, arith,
  length, drop, take-append, ◌==◌,
}
use air_gap.Common.Members.{contains}
use air_gap.Common.Text.{last_index}
use air_gap.Upstream.MessageId.{front_parts, parts_at, split_message_id}

last_index-none : (b : ℕ) (text : Bytes) → contains b text ≡ false → last_index b text ≡ none
unfolding last_index contains
last_index-none b [] h = refl
last_index-none b (x ∷ text) h =
    let here : (x == b) ≡ false = ground arith in
    let rest = last_index-none b text (ground arith) in rw (rest, here) refl

last_index-append :
    (sep : ℕ) (a b : Bytes)
    → contains sep b ≡ false
    → last_index sep (a ++ (sep ∷ b)) ≡ some (length a)
unfolding last_index
last_index-append sep [] b h =
    let here : (sep == sep) ≡ true = ground arith in rw (last_index-none sep b h, here) refl
last_index-append sep (x ∷ a) b h = rw (last_index-append sep a b h) (ap some (omega arith))

drop_past : (x : ℕ) (a b : Bytes) → drop (suc (length a)) (a ++ (x ∷ b)) ≡ b
drop_past x [] b = refl
drop_past x (y ∷ a) b = drop_past x a b

drop_front : (x : ℕ) (a b : Bytes) → drop (length a + 1) (a ++ (x ∷ b)) ≡ b
drop_front x a b =
    let e : length a + 1 ≡ suc (length a) = omega arith in
    ap (λ n. drop n (a ++ (x ∷ b))) e ∙ drop_past x a b

-- An id joined of a topic, a partition and an offset with underscores between them splits into these
-- parts again if the partition and the offset hold no underscore; the topic may.
pub split_message_id_joined :
    (topic partition offset : Bytes)
    → contains b'_' partition ≡ false
    → contains b'_' offset ≡ false
    → split_message_id ((topic ++ (b'_' ∷ partition)) ++ (b'_' ∷ offset))
      ≡ (topic, (partition, offset))
unfolding split_message_id
split_message_id_joined topic partition offset p o =
    let front = topic ++ (b'_' ∷ partition) in
    ap (parts_at (front ++ (b'_' ∷ offset))) (last_index-append b'_' front offset o)
    ∙ ap₂ (λ f r. front_parts f r (last_index b'_' f)) (take-append front (b'_' ∷ offset))
        (drop_front b'_' front offset)
    ∙ ap (front_parts front offset) (last_index-append b'_' topic partition p)
    ∙ ap₂ (λ t q. (t, (q, offset))) (take-append topic (b'_' ∷ partition))
        (drop_front b'_' topic partition)
