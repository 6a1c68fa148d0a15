-- ===== src/InputFilter.antt =====
-- src/inputfilter/inputfilter.go: the allow and deny rules for payloads. The file reader and the
-- regular expressions are parameters: compile makes an expression of a pattern, and matching says
-- when a match on a payload ends and how. Texts hold no spaces outside ASCII.
pub mod Loading
pub mod Deciding
use air_gap.Common.{
  Bytes, ℕ, zero, suc, ◌+◌, List, [], ◌∷◌, ◌++◌, Bool, true, false, not, ◌&&◌, ◌||◌, ltb, leb, ◌==◌,
  if◌then◌else◌, Option, none, some, length, ◌⊎◌, inl, inr,
}
use air_gap.Common.Maps.{bytes_beq}
use air_gap.Common.Text.{
  split, split_n, trim_space, to_lower, has_prefix, has_suffix, contains_text,
}

abbrev pub allow : Bytes
allow = b'a' ∷ b'l' ∷ b'l' ∷ b'o' ∷ b'w' ∷ []

abbrev pub deny : Bytes
deny = b'd' ∷ b'e' ∷ b'n' ∷ b'y' ∷ []

-- FilterRule
pub record FilterRule {ℓ} (R : Type ℓ) : Type ℓ where
  pub action : Bytes
  pub pattern : R
  pub raw : Bytes

-- InputFilter; the timeout is in milliseconds, and 0 stands for any that is not positive.
pub record InputFilter {ℓ} (R : Type ℓ) : Type ℓ where
  pub rules : List (FilterRule R)
  pub default_action : Bytes
  pub timeout : ℕ

pub data LoadError : Type 0 where
  unreadable_file invalid_format invalid_action too_long dangerous invalid_regex : LoadError
  invalid_default : LoadError

abbrev dangerous_patterns : List Bytes
dangerous_patterns =
    (b'(' ∷ 92 ∷ b'w' ∷ b'+' ∷ b')' ∷ b'*' ∷ [])
    ∷ (b'(' ∷ b'a' ∷ b'+' ∷ b')' ∷ b'+' ∷ [])
    ∷ (b'(' ∷ b'.' ∷ b'*' ∷ b')' ∷ b'*' ∷ [])
    ∷ (b'(' ∷ 92 ∷ b'w' ∷ b'*' ∷ b')' ∷ b'*' ∷ [])
    ∷ (b'(' ∷ 92 ∷ b'd' ∷ b'+' ∷ b')' ∷ b'*' ∷ [])
    ∷ (b'(' ∷ b'.' ∷ b'+' ∷ b')' ∷ b'+' ∷ [])
    ∷ (b'(' ∷ 92 ∷ b'S' ∷ b'+' ∷ b')' ∷ b'*' ∷ [])
    ∷ []

-- checkDangerousPattern
unfoldable pub contains_any : List Bytes → Bytes → Bool
contains_any [] pattern = false
contains_any (d ∷ ds) pattern = contains_text pattern d || contains_any ds pattern

abbrev pub is_dangerous_pattern : Bytes → Bool
is_dangerous_pattern pattern = contains_any dangerous_patterns pattern

abbrev pub is_action : Bytes → Bool
is_action action = bytes_beq action allow || bytes_beq action deny

-- The test for a file path.
abbrev is_path : Bytes → Bool
is_path text =
    has_prefix text (b'c' ∷ b'o' ∷ b'n' ∷ b'f' ∷ b'i' ∷ b'g' ∷ b'/' ∷ [])
    || (has_prefix text (b'/' ∷ []) || has_suffix text (b'.' ∷ b't' ∷ b'x' ∷ b't' ∷ []))

abbrev pub is_skipped : Bytes → Bool
is_skipped [] = true
is_skipped (b ∷ line) = b == b'#'

-- The lower case of an action.
abbrev pub normal : Bytes → Bytes
normal text = to_lower (trim_space text)

abbrev pub or_allow : Bytes → Bytes
or_allow [] = allow
or_allow (b ∷ text) = b ∷ text

-- How a match ends: with an answer or a panic, after some milliseconds.
pub data Matching : Type 0 where
  answered : ℕ → Bool → Matching
  crashed : ℕ → Matching

pub data MatchError : Type 0 where
  match_panic match_timeout : MatchError

-- matchWithTimeout
unfoldable pub match_with_timeout : Matching → ℕ → Option MatchError × Bool
match_with_timeout m timeout =
    let limit = if timeout == 0 then 100 else timeout in
    elim m [
      | answered time result ↦
          if ltb time limit then (none, result) else (some match_timeout, false)
      | crashed time ↦
          if ltb time limit then (some match_panic, false) else (some match_timeout, false)
    ]

module _ {ℓ} {R : Type ℓ} (compile : Bytes → Option R) where
  abbrev Line : Type ℓ
  Line = LoadError ⊎ Option (FilterRule R)

  abbrev pub with_regex : Bytes → Bytes → Option R → LoadError ⊎ FilterRule R
  with_regex action pattern none = inl invalid_regex
  with_regex action pattern (some regex) =
      inr (record { action = action; pattern = regex; raw = pattern })

  -- The fields of a line that is neither empty nor a comment.
  unfoldable pub parse_fields : List Bytes → LoadError ⊎ FilterRule R
  parse_fields (first ∷ (second ∷ [])) =
      let action = normal first in
      let pattern = trim_space second in
      if not (is_action action)
      then inl invalid_action
      else if ltb 1000 (length pattern)
      then inl too_long
      else if is_dangerous_pattern pattern
      then inl dangerous
      else with_regex action pattern (compile pattern)
  parse_fields _ = inl invalid_format

  abbrev pub push_rule :
      LoadError ⊎ FilterRule R → LoadError ⊎ List (FilterRule R) → LoadError ⊎ List (FilterRule R)
  push_rule (inl e) rest = inl e
  push_rule (inr r) (inl e) = inl e
  push_rule (inr r) (inr rules) = inr (r ∷ rules)

  -- The loop of LoadFilterRules over the lines.
  unfoldable pub load_lines : List Bytes → LoadError ⊎ List (FilterRule R)
  load_lines [] = inr []
  load_lines (line ∷ lines) =
      let rest = load_lines lines in
      if is_skipped (trim_space line)
      then rest
      else push_rule (parse_fields (split_n 2 b':' (trim_space line))) rest

  -- The end of LoadFilterRules: the default action is checked last.
  unfoldable pub with_default :
      Bytes → ℕ → LoadError ⊎ List (FilterRule R) → LoadError ⊎ InputFilter R
  with_default default_action timeout (inl e) = inl e
  with_default default_action timeout (inr rules) =
      let action = or_allow (normal default_action) in
      if is_action action
      then inr (record { rules = rules; default_action = action; timeout = timeout })
      else inl invalid_default

  abbrev lines_of_file : Option Bytes → LoadError ⊎ List Bytes
  lines_of_file none = inl unreadable_file
  lines_of_file (some text) = inr (split b'\n' text)

  abbrev pub load_from : Bytes → ℕ → LoadError ⊎ List Bytes → LoadError ⊎ InputFilter R
  load_from default_action timeout (inl e) = inl e
  load_from default_action timeout (inr lines) =
      with_default default_action timeout (load_lines lines)

  abbrev pub optional : LoadError ⊎ InputFilter R → LoadError ⊎ Option (InputFilter R)
  optional (inl e) = inl e
  optional (inr f) = inr (some f)

  -- LoadFilterRules: none is no filter.
  unfoldable pub load_filter_rules :
      (Bytes → Option Bytes) → Bytes → Bytes → ℕ → LoadError ⊎ Option (InputFilter R)
  load_filter_rules read_file [] default_action timeout = inr none
  load_filter_rules read_file (b ∷ text) default_action timeout =
      let lines =
        if is_path (b ∷ text)
        then lines_of_file (read_file (b ∷ text))
        else inr (split b',' (b ∷ text)) in
      optional (load_from default_action timeout lines)

module _ {ℓ} {R : Type ℓ} (matching : R → Bytes → Matching) where
  -- One rule of ShouldFilterOut, and the answer of the rules behind it.
  abbrev pub decide :
      FilterRule R → Option MatchError × Bool → Bool × Option MatchError → Bool × Option MatchError
  decide rule (some e, matched) rest = (false, some e)
  decide rule (none, true) rest = (bytes_beq rule.action deny, none)
  decide rule (none, false) rest = rest

  unfoldable pub apply_rules : List (FilterRule R) → Bytes → ℕ → Bytes → Bool × Option MatchError
  apply_rules [] default_action timeout payload = (bytes_beq default_action deny, none)
  apply_rules (rule ∷ rules) default_action timeout payload =
      decide rule (match_with_timeout (matching rule.pattern payload) timeout)
        (apply_rules rules default_action timeout payload)

  abbrev pub by_rules : List (FilterRule R) → Bytes → ℕ → Bytes → Bool × Option MatchError
  by_rules [] default_action timeout payload = (false, none)
  by_rules (rule ∷ rules) default_action timeout payload =
      apply_rules (rule ∷ rules) default_action timeout payload

  -- ShouldFilterOut: a filter without rules lets everything pass.
  unfoldable pub should_filter_out : Option (InputFilter R) → Bytes → Bool × Option MatchError
  should_filter_out none payload = (false, none)
  should_filter_out (some f) payload = by_rules f.rules f.default_action f.timeout payload
