-- ===== src/Upstream/Sending/MessageIds.antt =====
-- transformMessageID of src/upstream/upstream.go and ParseMessageId of src/protocol/parser.go.
use air_gap.Common.{
  Bytes, ℕ, ◌+◌, ◌*◌, ◌/◌, ◌%◌, ◌≤◌, ◌<◌, suc, if_cases, Bool-cases, inl, inr, le→leb, ◌&&◌, ◌-◌,
  [], ◌∷◌, ◌++◌, ◌≡◌, refl, ap, ◌∙◌, none, some, All, arith, true, false, ◌==◌, ltb, leb, le→ltb,
}
use mathlib.Core.Path.{subst}
use air_gap.Common.Integers.{ℤ, pos, ◌+ℤ◌}
use air_gap.Common.Text.{
  digit, push_digit, codes, split, join, parse_int, format_int, digits, digits_onto, decimal_onto,
  max_int64,
}
use air_gap.Protocol.MessageId.{parse_message_id}
use air_gap.Upstream.Sending.{Settings, translate_topic, transform_message_id}

-- A field without an underscore.
abbrev pub IsField : Bytes → Type 0
IsField field = All (λ b. (b == b'_') ≡ false) field

split-field :
    (field rest : Bytes)
    → IsField field
    → split b'_' (field ++ (b'_' ∷ rest)) ≡ field ∷ split b'_' rest
unfolding split
split-field [] rest h = refl
split-field (b ∷ field) rest h = rw (h.0, split-field field rest h.1)

split-last : (field : Bytes) → IsField field → split b'_' field ≡ field ∷ []
unfolding split
split-last [] h = refl
split-last (b ∷ field) h = rw (h.0, split-last field h.1)

abbrev joined3 : Bytes → Bytes → Bytes → Bytes
joined3 a b c = join (codes "_") (a ∷ b ∷ c ∷ [])

split-joined3 :
    (a b c : Bytes)
    → IsField a
    → IsField b
    → IsField c
    → split b'_' (joined3 a b c) ≡ a ∷ b ∷ c ∷ []
unfolding join
split-joined3 a b c ha hb hc =
    rw (split-field a (b ++ (b'_' ∷ c)) ha, split-field b c hb, split-last c hc)

decimal_onto-IsField :
    (rounds n : ℕ) (text : Bytes) → IsField text → IsField (decimal_onto rounds n text)
unfolding decimal_onto
decimal_onto-IsField ℕ.zero n text h = h
decimal_onto-IsField (suc rounds) n text h =
    if_cases IsField (ltb n 10) (λ small. (ground arith, h))
      (λ _. decimal_onto-IsField rounds (n / 10) ((n % 10 + b'0') ∷ text) (ground arith, h))

digit-of : (d : ℕ) → d < 10 → digit (d + b'0') ≡ some d
digit-of d h =
    let is_digit : (leb b'0' (d + b'0') && leb (d + b'0') b'9') ≡ true = ground arith in
    let value : d + b'0' - b'0' ≡ d = omega arith in rw (is_digit, value)

-- A digit in front of a text is read as that digit.
digits_onto-digit :
    (a d : ℕ) (text : Bytes)
    → d < 10
    → digits_onto (some a) ((d + b'0') ∷ text) ≡ digits_onto (some (a * 10 + d)) text
digits_onto-digit a d text h = ap (λ o. digits_onto (push_digit a o) text) (digit-of d h)

-- The digits of a number in front of a text are read as that number.
digits_onto-decimal_onto :
    (rounds n : ℕ) (text : Bytes)
    → n < rounds
    → digits_onto (some 0) (decimal_onto rounds n text) ≡ digits_onto (some n) text
unfolding decimal_onto
digits_onto-decimal_onto ℕ.zero n text h = absurd (omega arith)
digits_onto-decimal_onto (suc rounds) n text h = elim (Bool-cases (ltb n 10)) [
  | inl small ↦
      let alone : 0 * 10 + n ≡ n = omega arith in
      rw small
        (digits_onto-digit 0 n text (ground arith) ∙ ap (λ k. digits_onto (some k) text) alone)
  | inr large ↦
      let same : n / 10 * 10 + n % 10 ≡ n = omega arith in
      rw large (
        digits_onto-decimal_onto rounds (n / 10) ((n % 10 + b'0') ∷ text) (ground arith)
        ∙ digits_onto-digit (n / 10) (n % 10) text (omega arith)
        ∙ ap (λ k. digits_onto (some k) text) same)
]

abbrev StartsWithDigit : Bytes → Type 0
StartsWithDigit text = (b : ℕ) × (rest : Bytes) × (text ≡ b ∷ rest) × (b'0' ≤ b)

decimal_onto-StartsWithDigit :
    (rounds n : ℕ) (text : Bytes) → n < rounds → StartsWithDigit (decimal_onto rounds n text)
unfolding decimal_onto
decimal_onto-StartsWithDigit ℕ.zero n text h = absurd (omega arith)
decimal_onto-StartsWithDigit (suc rounds) n text h = elim (Bool-cases (ltb n 10)) [
  | inl small ↦ rw small (n + b'0', text, refl, omega arith)
  | inr large ↦
      rw large
        (decimal_onto-StartsWithDigit rounds (n / 10) ((n % 10 + b'0') ∷ text) (ground arith))
]

parse_int-digits :
    (text : Bytes) (n : ℕ)
    → StartsWithDigit text
    → digits_onto (some 0) text ≡ some n
    → n ≤ max_int64
    → parse_int text ≡ (pos n, none)
unfolding parse_int digits
parse_int-digits text n (b, rest, e, d) value h =
    let no_minus : (b == b'-') ≡ false = ground arith in
    let no_plus : (b == b'+') ≡ false = ground arith in
    let read : digits_onto (some 0) (b ∷ rest) ≡ some n =
      subst (λ t. digits_onto (some 0) t ≡ some n) e value in
    rw e (rw (no_minus, no_plus, read, le→leb n max_int64 h))

-- strconv.Atoi reads what strconv.Itoa writes.
pub parse_int-format_int : (n : ℕ) → n ≤ max_int64 → parse_int (format_int (pos n)) ≡ (pos n, none)
unfolding format_int
parse_int-format_int n h =
    parse_int-digits (decimal_onto (n + 1) n []) n
      (decimal_onto-StartsWithDigit (n + 1) n [] (omega arith))
      (digits_onto-decimal_onto (n + 1) n [] (omega arith)) h

-- An id of three fields without underscores whose partition is a number: transformMessageID
-- translates its topic and adds the start value to its partition, ParseMessageId reads the changed
-- id back as these and the old offset, and the partition is read as the sum. The translated topic has
-- no underscore, and the sum is an int32.
pub transform-parse_message_id {ℓ} :
    {R : Type ℓ} (config : Settings R) (topic partition offset : Bytes) (p : ℤ) (n : ℕ)
    → IsField topic
    → IsField partition
    → IsField offset
    → IsField (translate_topic config topic)
    → parse_int partition ≡ (p, none)
    → p +ℤ config.partition_start_value ≡ pos n
    → n ≤ 2147483647
    → (id' : Bytes) × (transform_message_id config (joined3 topic partition offset) ≡ some id')
      × (parse_message_id id' ≡ some (translate_topic config topic, (format_int (pos n), offset)))
      × (parse_int (format_int (pos n)) ≡ (pos n, none))
unfolding transform_message_id parse_message_id format_int
transform-parse_message_id config topic partition offset p n ht hp ho htt number sum h =
    let new_id = joined3 (translate_topic config topic) (format_int (pos n)) offset in
    (
      new_id,
      rw (split-joined3 topic partition offset ht hp ho, number, sum, le→ltb 2147483647 n h),
      rw (
          split-joined3 (translate_topic config topic) (format_int (pos n)) offset htt
            (decimal_onto-IsField (n + 1) n [] tt) ho),
      parse_int-format_int n (omega arith),
    )
