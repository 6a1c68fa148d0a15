-- ===== src/Examples/Filters.antt =====
-- src/filter at concrete expressions.
use air_gap.Common.{Bytes, ℕ, ◌≤◌, [], ◌∷◌, not, ◌≡◌, refl, arith, returned}
use air_gap.Common.Integers.{pos, negℤ, difference, abs}
use air_gap.Common.Text.{split, parse_int, digits}
use air_gap.Filter.{
  Filter, created, check, in_group, new_filter, is_member, create, group, at, do_self_test, last_of,
  self_test_loop, is_valid_number, pos_mod,
}
use air_gap.Filter.SelfTest.{new_filter-check}

-- 1,3,5: every other message, and 2,4,6 for the other sender.
abbrev odd_text : Bytes
odd_text = b'1' ∷ b',' ∷ b'3' ∷ b',' ∷ b'5' ∷ []

abbrev odd : Filter
odd = record {
  groups = record { first = pos 1 ∷ []; second = pos 3 ∷ []; third = pos 5 ∷ [] };
  k = pos 2;
}

abbrev even : Filter
even = record {
  groups = record { first = pos 2 ∷ []; second = pos 4 ∷ []; third = pos 6 ∷ [] };
  k = pos 2;
}

new_filter-odd : new_filter odd_text ≡ returned (created odd)
unfolding new_filter create group at do_self_test last_of self_test_loop is_valid_number pos_mod
    in_group is_member split parse_int digits negℤ difference abs
new_filter-odd = refl

last-odd : last_of odd.groups.third ≡ returned (pos 5)
unfolding last_of
last-odd = refl

new_filter-check_example : check odd (pos 4) ≡ returned (in_group (pos 4) odd.groups)
new_filter-check_example =
    new_filter-check odd_text odd 5 4 new_filter-odd last-odd (omega arith) (omega arith)

complementary :
    (p : ℕ)
    → 1 ≤ p
    → p ≤ 2
    → is_member (pos p) even.groups.first ≡ not (is_member (pos p) odd.groups.first)
unfolding is_member
complementary p a b = ground arith

abbrev letters : Bytes
letters = b'a' ∷ b',' ∷ b'b' ∷ b',' ∷ b'c' ∷ []

letters_parts : split b',' letters ≡ (b'a' ∷ []) ∷ (b'b' ∷ []) ∷ (b'c' ∷ []) ∷ []
unfolding split
letters_parts = refl
