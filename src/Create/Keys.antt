-- ===== src/Create/Keys.antt =====
-- writeResults of src/create/create.go: the key of a group tells its topic and its partition.
use mathlib.Core.Path.{subst}
use air_gap.Common.{
  Bytes, ℕ, ◌+◌, ◌%◌, ◌/◌, ◌≤◌, ◌≡◌, refl, ap, ap₂, [], ◌∷◌, ◌++◌, ltb, arith, if_cases, All,
}
use air_gap.Common.Integers.{pos}
use air_gap.Common.Text.{format_int, decimal_onto, max_int64, parse_int}
use air_gap.Upstream.Sending.MessageIds.{parse_int-format_int}
use air_gap.Create.{group_key}

abbrev IsDigits : Bytes → Type 0
IsDigits text = All (λ b. b'0' ≤ b) text

decimal_onto-IsDigits :
    (rounds n : ℕ) (text : Bytes) → IsDigits text → IsDigits (decimal_onto rounds n text)
unfolding decimal_onto
decimal_onto-IsDigits ℕ.zero n text h = h
decimal_onto-IsDigits (ℕ.suc rounds) n text h =
    if_cases IsDigits (ltb n 10) (λ _. (omega arith, h))
      (λ _. decimal_onto-IsDigits rounds (n / 10) ((n % 10 + b'0') ∷ text) (omega arith, h))

format_int-IsDigits : (n : ℕ) → IsDigits (format_int (pos n))
unfolding format_int
format_int-IsDigits n = decimal_onto-IsDigits (n + 1) n [] tt

-- A dash is no digit.
no_dash : (u e : Bytes) → IsDigits (u ++ (b'-' ∷ e)) → ⊥
no_dash [] e h = omega (arith, h.0)
no_dash (x ∷ u) e h = no_dash u e h.1

-- A text ends at its last dash before digits.
cut_at_dash :
    (t u d e : Bytes)
    → IsDigits d
    → IsDigits e
    → t ++ (b'-' ∷ d) ≡ u ++ (b'-' ∷ e)
    → (t ≡ u) × (d ≡ e)
cut_at_dash [] [] d e hd he h = (refl, cc)
cut_at_dash [] (x ∷ u) d e hd he h =
    let tail : d ≡ u ++ (b'-' ∷ e) = cc in absurd (no_dash u e (subst IsDigits tail hd))
cut_at_dash (x ∷ t) [] d e hd he h =
    let tail : e ≡ t ++ (b'-' ∷ d) = cc in absurd (no_dash t d (subst IsDigits tail he))
cut_at_dash (x ∷ t) (y ∷ u) d e hd he h =
    let head : x ≡ y = cc in
    let tail : t ++ (b'-' ∷ d) ≡ u ++ (b'-' ∷ e) = cc in
    let (front, back) = cut_at_dash t u d e hd he tail in
    (ap₂ (λ b text. b ∷ text) head front, back)

pub group_key_injective :
    (t u : Bytes) (p q : ℕ)
    → p ≤ max_int64
    → q ≤ max_int64
    → group_key t (pos p) ≡ group_key u (pos q)
    → (t ≡ u) × (p ≡ q)
unfolding group_key
group_key_injective t u p q hp hq h =
    let (same, digits) =
      cut_at_dash t u (format_int (pos p)) (format_int (pos q)) (format_int-IsDigits p)
        (format_int-IsDigits q) h in
    let read : parse_int (format_int (pos p)) ≡ parse_int (format_int (pos q)) =
      ap parse_int digits in
    (same, cc (parse_int-format_int p hp, parse_int-format_int q hq))
