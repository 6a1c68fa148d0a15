-- ===== src/InputFilter/Deciding.antt =====
-- ShouldFilterOut of src/inputfilter/inputfilter.go: the first match decides, and errors let pass.
use air_gap.Common.{
  Bytes, ℕ, ◌≡◌, refl, List, [], ◌∷◌, ◌++◌, Bool, true, false, All, Option, none, some,
}
use air_gap.Common.Maps.{bytes_beq}
use air_gap.InputFilter.{
  FilterRule, InputFilter, Matching, MatchError, match_with_timeout, decide, apply_rules, by_rules,
  should_filter_out, deny,
}

module _ {ℓ} {R : Type ℓ} (matching : R → Bytes → Matching) (payload : Bytes) (timeout : ℕ) where
  -- A rule that does not match in time.
  abbrev pub Passes : FilterRule R → Type 0
  Passes r = match_with_timeout (matching r.pattern payload) timeout ≡ (none, false)

  apply_rules_first :
      (before rest : List (FilterRule R)) (rule : FilterRule R) (default_action : Bytes)
      → All Passes before
      → match_with_timeout (matching rule.pattern payload) timeout ≡ (none, true)
      → apply_rules matching (before ++ (rule ∷ rest)) default_action timeout payload
        ≡ (bytes_beq rule.action deny, none)
  unfolding apply_rules
  apply_rules_first [] rest rule default_action h m = rw m refl
  apply_rules_first (r ∷ before) rest rule default_action h m =
      rw h.0 (apply_rules_first before rest rule default_action h.1 m)

  apply_rules_default :
      (rules : List (FilterRule R)) (default_action : Bytes)
      → All Passes rules
      → apply_rules matching rules default_action timeout payload
        ≡ (bytes_beq default_action deny, none)
  unfolding apply_rules
  apply_rules_default [] default_action h = refl
  apply_rules_default (r ∷ rules) default_action h =
      rw h.0 (apply_rules_default rules default_action h.1)

  decided :
      (r : FilterRule R) (m : Option MatchError × Bool) (rest : Bool × Option MatchError)
      (e : MatchError)
      → (rest.1 ≡ some e → rest.0 ≡ false)
      → (decide matching r m rest).1 ≡ some e
      → (decide matching r m rest).0 ≡ false
  decided r (some x, matched) rest e ih h = refl
  decided r (none, true) rest e ih h = cc
  decided r (none, false) rest e ih h = ih h

  apply_rules_open :
      (rules : List (FilterRule R)) (default_action : Bytes) (e : MatchError)
      → (apply_rules matching rules default_action timeout payload).1 ≡ some e
      → (apply_rules matching rules default_action timeout payload).0 ≡ false
  unfolding apply_rules
  apply_rules_open [] default_action e h = cc
  apply_rules_open (r ∷ rules) default_action e h =
      decided r (match_with_timeout (matching r.pattern payload) timeout) _ e
        (apply_rules_open rules default_action e) h

-- The first rule that matches decides: the payload is dropped exactly if its action is deny, as long
-- as the rules before it end in time without a match.
pub first_match_decides {ℓ} :
    {R : Type ℓ} (matching : R → Bytes → Matching) (before rest : List (FilterRule R))
    (rule : FilterRule R) (default_action : Bytes) (timeout : ℕ) (payload : Bytes)
    → All (Passes matching payload timeout) before
    → match_with_timeout (matching rule.pattern payload) timeout ≡ (none, true)
    → should_filter_out matching
        (some (record {
          rules = before ++ (rule ∷ rest);
          default_action = default_action;
          timeout = timeout;
        }))
        payload
      ≡ (bytes_beq rule.action deny, none)
unfolding should_filter_out
first_match_decides matching [] rest rule default_action timeout payload h m =
    apply_rules_first matching payload timeout [] rest rule default_action h m
first_match_decides matching (r ∷ before) rest rule default_action timeout payload h m =
    apply_rules_first matching payload timeout (r ∷ before) rest rule default_action h m

by_rules_open {ℓ} :
    {R : Type ℓ} (matching : R → Bytes → Matching) (rules : List (FilterRule R))
    (default_action : Bytes) (timeout : ℕ) (payload : Bytes) (e : MatchError)
    → (by_rules matching rules default_action timeout payload).1 ≡ some e
    → (by_rules matching rules default_action timeout payload).0 ≡ false
by_rules_open matching [] default_action timeout payload e h = cc
by_rules_open matching (r ∷ rules) default_action timeout payload e h =
    apply_rules_open matching payload timeout (r ∷ rules) default_action e h

-- When ShouldFilterOut gives an error, it lets the payload pass.
pub should_filter_out_open {ℓ} :
    {R : Type ℓ} (matching : R → Bytes → Matching) (f : Option (InputFilter R)) (payload : Bytes)
    (e : MatchError)
    → (should_filter_out matching f payload).1 ≡ some e
    → (should_filter_out matching f payload).0 ≡ false
unfolding should_filter_out
should_filter_out_open matching none payload e h = cc
should_filter_out_open matching (some f) payload e h =
    by_rules_open matching f.rules f.default_action f.timeout payload e h

-- When no rule of a filter with rules matches in time, the default action decides.
pub no_match_decides {ℓ} :
    {R : Type ℓ} (matching : R → Bytes → Matching) (rule : FilterRule R)
    (rules : List (FilterRule R)) (default_action : Bytes) (timeout : ℕ) (payload : Bytes)
    → All (Passes matching payload timeout) (rule ∷ rules)
    → should_filter_out matching
        (some (record { rules = rule ∷ rules; default_action = default_action; timeout = timeout }))
        payload
      ≡ (bytes_beq default_action deny, none)
unfolding should_filter_out
no_match_decides matching rule rules default_action timeout payload h =
    apply_rules_default matching payload timeout (rule ∷ rules) default_action h
