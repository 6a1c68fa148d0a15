-- ===== src/Examples/Rules.antt =====
-- src/inputfilter with a toy engine: an expression is its pattern, which matches the equal payload
-- after a millisecond, and the empty pattern never ends.
use air_gap.Common.{Bytes, ◌≡◌, refl, [], ◌∷◌, ◌++◌, true, false, Option, none, some}
use air_gap.Common.Maps.{bytes_beq}
use air_gap.Common.Text.{split_n, trim_space, trim_left, trim_right}
use air_gap.InputFilter.{
  FilterRule, InputFilter, Matching, answered, match_timeout, match_with_timeout, should_filter_out,
  load_filter_rules, is_skipped, allow, deny, apply_rules,
}
use air_gap.InputFilter.Deciding.{Passes, first_match_decides}
use air_gap.InputFilter.Loading.{ResultChecked, load_filter_rules-ResultChecked}

abbrev toy_matching : Bytes → Bytes → Matching
toy_matching [] payload = answered 1000 false
toy_matching (b ∷ pattern) payload = answered 1 (bytes_beq (b ∷ pattern) payload)

abbrev deny_rule : FilterRule Bytes
deny_rule = record { action = deny; pattern = b'x' ∷ []; raw = b'x' ∷ [] }

abbrev allow_rule : FilterRule Bytes
allow_rule = record { action = allow; pattern = b'y' ∷ []; raw = b'y' ∷ [] }

abbrev slow_rule : FilterRule Bytes
slow_rule = record { action = deny; pattern = []; raw = [] }

passes : Passes toy_matching (b'x' ∷ []) 50 allow_rule
unfolding match_with_timeout bytes_beq
passes = refl

matches : match_with_timeout (toy_matching deny_rule.pattern (b'x' ∷ [])) 50 ≡ (none, true)
unfolding match_with_timeout bytes_beq
matches = refl

first_match_decides_example :
    should_filter_out toy_matching
      (some (record {
        rules = (allow_rule ∷ []) ++ (deny_rule ∷ slow_rule ∷ []);
        default_action = allow;
        timeout = 50;
      }))
      (b'x' ∷ [])
    ≡ (bytes_beq deny deny, none)
first_match_decides_example =
    first_match_decides toy_matching (allow_rule ∷ []) (slow_rule ∷ []) deny_rule allow 50
      (b'x' ∷ []) (passes, tt) matches

abbrev slow_filter : Option (InputFilter Bytes)
slow_filter = some (record { rules = slow_rule ∷ []; default_action = deny; timeout = 50 })

slow_timeout : (should_filter_out toy_matching slow_filter (b'x' ∷ [])).1 ≡ some match_timeout
unfolding should_filter_out apply_rules match_with_timeout
slow_timeout = refl

abbrev two_rules : Bytes
two_rules =
    b'a' ∷ b'l' ∷ b'l' ∷ b'o' ∷ b'w' ∷ b':' ∷ b'y' ∷ b',' ∷ b'd' ∷ b'e' ∷ b'n' ∷ b'y' ∷ b':' ∷ b'x'
    ∷ []

load_filter_rules-ResultChecked_example :
    ResultChecked some (load_filter_rules some (λ path. none) two_rules [] 50)
load_filter_rules-ResultChecked_example =
    load_filter_rules-ResultChecked some (λ path. none) two_rules [] 50

-- deny:1{2,3} cut at its comma.
abbrev cut_line : Bytes
cut_line = b'3' ∷ b'}' ∷ []

cut_kept : is_skipped (trim_space cut_line) ≡ false
unfolding trim_left trim_right
cut_kept = refl

cut_fields : split_n 2 b':' (trim_space cut_line) ≡ cut_line ∷ []
unfolding split_n trim_left trim_right
cut_fields = refl
