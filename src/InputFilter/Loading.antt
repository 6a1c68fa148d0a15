-- ===== src/InputFilter/Loading.antt =====
-- LoadFilterRules of src/inputfilter/inputfilter.go: what is known of rules that were loaded.
use air_gap.Common.{
  Bytes, ℕ, ◌≤◌, ◌≡◌, refl, List, [], ◌∷◌, ◌++◌, true, false, All, Option, none, some, arith,
  Bool-cases, inl, inr, ltb, ◌⊎◌, length,
}
use air_gap.Common.Text.{split_n, trim_space}
use air_gap.InputFilter.{
  FilterRule, InputFilter, LoadError, is_action, is_dangerous_pattern, parse_fields, push_rule,
  load_lines, with_default, load_filter_rules, is_skipped, normal, with_regex, load_from, or_allow,
  optional, invalid_format,
}

module _ {ℓ} {R : Type ℓ} (compile : Bytes → Option R) where
  -- A rule that the checks let through.
  pub record IsChecked (r : FilterRule R) : Type ℓ where
    pub action : is_action r.action ≡ true
    pub short : length r.raw ≤ 1000
    pub tame : is_dangerous_pattern r.raw ≡ false
    pub compiled : compile r.raw ≡ some r.pattern

  abbrev pub AllChecked : LoadError ⊎ List (FilterRule R) → Type ℓ
  AllChecked (inl e) = Unit
  AllChecked (inr rules) = All IsChecked rules

  abbrev FieldChecked : LoadError ⊎ FilterRule R → Type ℓ
  FieldChecked (inl e) = Unit
  FieldChecked (inr r) = IsChecked r

  with_regex-FieldChecked :
      (action pattern : Bytes) (o : Option R)
      → compile pattern ≡ o
      → is_action action ≡ true
      → length pattern ≤ 1000
      → is_dangerous_pattern pattern ≡ false
      → FieldChecked (with_regex compile action pattern o)
  with_regex-FieldChecked action pattern none c a l d = tt
  with_regex-FieldChecked action pattern (some r) c a l d = record {
    action = a;
    short = l;
    tame = d;
    compiled = c;
  }

  parse_fields-FieldChecked : (fields : List Bytes) → FieldChecked (parse_fields compile fields)
  unfolding parse_fields
  parse_fields-FieldChecked [] = tt
  parse_fields-FieldChecked (first ∷ []) = tt
  parse_fields-FieldChecked (first ∷ (second ∷ (third ∷ rest))) = tt
  parse_fields-FieldChecked (first ∷ (second ∷ [])) =
      let pattern = trim_space second in
      elim (Bool-cases (is_action (normal first))) [
        | inr wrong ↦ rw wrong tt
        | inl known ↦ elim (Bool-cases (ltb 1000 (length pattern))) [
          | inl long ↦ rw (known, long) tt
          | inr short ↦ elim (Bool-cases (is_dangerous_pattern pattern)) [
            | inl bad ↦ rw (known, short, bad) tt
            | inr tame ↦
                rw (known, short, tame)
                  (with_regex-FieldChecked (normal first) pattern (compile pattern) refl known
                    (ground arith) tame)
          ]
        ]
      ]

  push_rule-AllChecked :
      (r : LoadError ⊎ FilterRule R) (rest : LoadError ⊎ List (FilterRule R))
      → FieldChecked r
      → AllChecked rest
      → AllChecked (push_rule compile r rest)
  push_rule-AllChecked (inl e) rest h k = tt
  push_rule-AllChecked (inr r) (inl e) h k = tt
  push_rule-AllChecked (inr r) (inr rules) h k = (h, k)

  load_lines-AllChecked : (lines : List Bytes) → AllChecked (load_lines compile lines)
  unfolding load_lines
  load_lines-AllChecked [] = tt
  load_lines-AllChecked (line ∷ lines) = elim (Bool-cases (is_skipped (trim_space line))) [
    | inl skipped ↦ rw skipped (load_lines-AllChecked lines)
    | inr rule ↦ rw rule (
        push_rule-AllChecked (parse_fields compile (split_n 2 b':' (trim_space line))) _
          (parse_fields-FieldChecked (split_n 2 b':' (trim_space line)))
          (load_lines-AllChecked lines))
  ]

  -- A filter that was loaded: its rules are checked, and its default is an action.
  abbrev pub FilterChecked : LoadError ⊎ InputFilter R → Type ℓ
  FilterChecked (inl e) = Unit
  FilterChecked (inr f) = All IsChecked f.rules × (is_action f.default_action ≡ true)

  with_default-FilterChecked :
      (default_action : Bytes) (timeout : ℕ) (rules : LoadError ⊎ List (FilterRule R))
      → AllChecked rules
      → FilterChecked (with_default compile default_action timeout rules)
  unfolding with_default
  with_default-FilterChecked default_action timeout (inl e) h = tt
  with_default-FilterChecked default_action timeout (inr rules) h =
      elim (Bool-cases (is_action (or_allow (normal default_action)))) [
        | inl known ↦ rw known (h, known)
        | inr wrong ↦ rw wrong tt
      ]

  load_from-FilterChecked :
      (default_action : Bytes) (timeout : ℕ) (lines : LoadError ⊎ List Bytes)
      → FilterChecked (load_from compile default_action timeout lines)
  load_from-FilterChecked default_action timeout (inl e) = tt
  load_from-FilterChecked default_action timeout (inr lines) =
      with_default-FilterChecked default_action timeout _ (load_lines-AllChecked lines)

  abbrev pub ResultChecked : LoadError ⊎ Option (InputFilter R) → Type ℓ
  ResultChecked (inl e) = Unit
  ResultChecked (inr none) = Unit
  ResultChecked (inr (some f)) = FilterChecked (inr f)

  optional-ResultChecked :
      (r : LoadError ⊎ InputFilter R) → FilterChecked r → ResultChecked (optional compile r)
  optional-ResultChecked (inl e) h = tt
  optional-ResultChecked (inr f) h = h

  -- Whatever LoadFilterRules reads, each rule of the filter it returns has the action allow or deny
  -- and a pattern of at most 1000 bytes without a dangerous part, of which the expression of the
  -- rule was compiled, and the default is an action.
  pub load_filter_rules-ResultChecked :
      (read_file : Bytes → Option Bytes) (text default_action : Bytes) (timeout : ℕ)
      → ResultChecked (load_filter_rules compile read_file text default_action timeout)
  unfolding load_filter_rules
  load_filter_rules-ResultChecked read_file [] default_action timeout = tt
  load_filter_rules-ResultChecked read_file (b ∷ text) default_action timeout =
      optional-ResultChecked _ (load_from-FilterChecked default_action timeout _)

  push_rule-error :
      (r : LoadError ⊎ FilterRule R) (rest : LoadError ⊎ List (FilterRule R))
      → (e : LoadError) × (rest ≡ inl e)
      → (e : LoadError) × (push_rule compile r rest ≡ inl e)
  push_rule-error (inl x) rest h = (x, refl)
  push_rule-error (inr r) rest h = (h.0, rw h.1 refl)

  -- A line that is no comment and has no colon makes LoadFilterRules fail; so does the rest of an
  -- inline rule whose pattern holds a comma.
  pub load_lines_refuses :
      (front rest : List Bytes) (line field : Bytes)
      → is_skipped (trim_space line) ≡ false
      → split_n 2 b':' (trim_space line) ≡ field ∷ []
      → (e : LoadError) × (load_lines compile (front ++ (line ∷ rest)) ≡ inl e)
  unfolding load_lines parse_fields
  load_lines_refuses [] rest line field rule fields = (invalid_format, rw (rule, fields) refl)
  load_lines_refuses (l ∷ front) rest line field rule fields =
      let later = load_lines_refuses front rest line field rule fields in
      elim (Bool-cases (is_skipped (trim_space l))) [
        | inl skipped ↦ (later.0, rw skipped later.1)
        | inr known ↦
            let r =
              push_rule-error (parse_fields compile (split_n 2 b':' (trim_space l))) _ later in
            (r.0, rw known r.1)
      ]
