-- ===== src/Filter/SelfTest.antt =====
-- NewFilter and doSelfTest of src/filter/filter.go: what a filter that was created is known to do.
use air_gap.Common.{
  Bytes, ℕ, zero, suc, ◌+◌, ◌%◌, ◌≤◌, ◌<◌, ◌≡◌, refl, sym, ap, ◌∙◌, [], ◌∷◌, Bool, true, false, not,
  Bool-cases, inl, inr, Outcome, returned, panicked, stuck, arith, ◌==◌, if◌then◌else◌, Option,
  none, some, length,
}
use mathlib.Core.Path.{subst}
use air_gap.Common.Results.{◌>>=◌, bind-returned}
use air_gap.Common.Integers.{ℤ, pos, ◌+ℤ◌, ◌-ℤ◌, negℤ, eqℤ, eqℤ-true}
use air_gap.Common.Text.{split, parse_int, err_syntax}
use air_gap.Filter.{
  Filter, Groups, is_valid_number, check, in_group, self_test_loop, do_self_test, last_of, at,
  rounds_to, Creation, not_divisible, fatal_start, created, create, new_filter, same, tested,
  groups_of, group, value_of,
}
use air_gap.Filter.Periods.{check_panics}

-- One round of the self test that does not fail.
same-passed :
    (o : Outcome Bool) (g : Bool) (rest : Outcome (Option ℕ)) (i : ℕ)
    → (o >>= λ v. if same v g then rest else returned (some i)) ≡ returned none
    → (o ≡ returned g) × (rest ≡ returned none)
same-passed (returned true) true rest i h = (refl, h)
same-passed (returned true) false rest i h = cc
same-passed (returned false) true rest i h = cc
same-passed (returned false) false rest i h = (refl, h)
same-passed panicked g rest i h = cc
same-passed stuck g rest i h = cc

self_test_loop-passed :
    (rounds i j : ℕ) (groups : Groups) (k : ℤ)
    → self_test_loop rounds i groups k ≡ returned none
    → i ≤ j
    → j < i + rounds
    → is_valid_number (pos j) groups k ≡ returned (in_group (pos j) groups)
unfolding self_test_loop
self_test_loop-passed zero i j groups k h a b = absurd (omega arith)
self_test_loop-passed (suc rounds) i j groups k h a b =
    let (now, rest) =
      same-passed (is_valid_number (pos i) groups k) (in_group (pos i) groups)
        (self_test_loop rounds (i + 1) groups k) i h in
    elim (Bool-cases (i == j)) [
      | inl first ↦
          let e : i ≡ j = ground arith in
          subst (λ n. is_valid_number (pos n) groups k ≡ returned (in_group (pos n) groups)) e now
      | inr later ↦
          self_test_loop-passed rounds (i + 1) j groups k rest (ground arith) (omega arith)
    ]

created-tested :
    (groups : Groups) (k : ℤ) (failed : Option ℕ) (f : Filter)
    → do_self_test groups k ≡ returned failed
    → returned (tested groups k failed) ≡ returned (created f)
    → (f ≡ record { groups = groups; k = k }) × (do_self_test groups k ≡ returned none)
created-tested groups k none f t h = let e : f ≡ record { groups = groups; k = k } = cc in (e, t)
created-tested groups k (some i) f t h = cc

-- The test for evenly spaced groups.
even_spaced :
    (b : Bool) (start : ℤ) (rest : Outcome Creation) (f : Filter)
    → (if not b then returned (fatal_start start) else rest) ≡ returned (created f)
    → (b ≡ true) × (rest ≡ returned (created f))
even_spaced true start rest f h = (refl, h)
even_spaced false start rest f h = cc

-- What is known of a filter that NewFilter made of the groups.
pub record Accepted (groups : Groups) (f : Filter) : Type 0 where
  pub kept : f.groups ≡ groups
  pub start : ℤ
  pub second_start : ℤ
  pub starts : at 0 groups.first ≡ returned start
  pub second_starts : at 0 groups.second ≡ returned second_start
  pub third_starts : at 0 groups.third ≡ returned (second_start +ℤ f.k)
  pub period : f.k ≡ second_start -ℤ start
  pub passed : do_self_test groups f.k ≡ returned none

create-Accepted :
    (groups : Groups) (f : Filter) → create groups ≡ returned (created f) → Accepted groups f
unfolding create
create-Accepted groups f h =
    let (start, a) = bind-returned (at 0 groups.first) _ (created f) h in
    let (second_start, b) = bind-returned (at 0 groups.second) _ (created f) a.1 in
    let (third_start, c) = bind-returned (at 0 groups.third) _ (created f) b.1 in
    let k = second_start -ℤ start in
    let (even, d) = even_spaced (eqℤ third_start (second_start +ℤ k)) third_start _ f c.1 in
    let (failed, t) = bind-returned (do_self_test groups k) _ (created f) d in
    let (is, passed) = created-tested groups k failed f t.0 t.1 in
    let period : f.k ≡ k = ap (λ (g : Filter). g.k) is in
    record {
      kept = ap (λ (g : Filter). g.groups) is;
      start = start;
      second_start = second_start;
      starts = a.0;
      second_starts = b.0;
      third_starts =
          c.0 ∙ ap returned (eqℤ-true _ _ even ∙ ap (λ z. second_start +ℤ z) (sym period));
      period = period;
      passed = subst (λ z. do_self_test groups z ≡ returned none) (sym period) passed;
    }

new_filter-create :
    (b : Bool) (rest : Outcome Creation) (f : Filter)
    → (if not b then returned not_divisible else rest) ≡ returned (created f)
    → rest ≡ returned (created f)
new_filter-create true rest f h = h
new_filter-create false rest f h = cc

-- A filter that NewFilter returns holds the groups of the expression, which start evenly k apart,
-- and has passed the self test.
pub new_filter-Accepted :
    (config : Bytes) (f : Filter)
    → new_filter config ≡ returned (created f)
    → Accepted (groups_of (split b',' config)) f
unfolding new_filter
new_filter-Accepted config f h =
    create-Accepted _ f (new_filter-create (length (split b',' config) % 3 == 0) _ f h)

-- A filter that NewFilter returns delivers a number from 1 to the last one listed exactly if the
-- number stands in one of the three groups.
pub new_filter-check :
    (config : Bytes) (f : Filter) (largest i : ℕ)
    → new_filter config ≡ returned (created f)
    → last_of f.groups.third ≡ returned (pos largest)
    → 1 ≤ i
    → i ≤ largest
    → check f (pos i) ≡ returned (in_group (pos i) f.groups)
unfolding check is_valid_number do_self_test
new_filter-check config f largest i h last a b =
    let known = new_filter-Accepted config f h in
    let loop : self_test_loop largest 1 f.groups f.k ≡ returned none =
      let tested_groups : do_self_test f.groups f.k ≡ returned none =
        subst (λ g. do_self_test g f.k ≡ returned none) (sym known.kept) known.passed in
      sym (ap (λ o. o >>= λ n. self_test_loop (rounds_to n) 1 f.groups f.k) last) ∙ tested_groups in
    self_test_loop-passed largest 1 i f.groups f.k loop a (omega arith)

abbrev zeros : Groups
zeros = record { first = pos 0 ∷ []; second = pos 0 ∷ []; third = pos 0 ∷ [] }

abbrev pub zero_filter : Filter
zero_filter = record { groups = zeros; k = pos 0 }

create-zeros : create zeros ≡ returned (created zero_filter)
unfolding create at do_self_test last_of self_test_loop eqℤ ◌+ℤ◌ ◌-ℤ◌ negℤ
create-zeros = refl

zeros_of :
    (p q r : Bytes)
    → (parse_int p).0 ≡ pos 0
    → (parse_int q).0 ≡ pos 0
    → (parse_int r).0 ≡ pos 0
    → groups_of (p ∷ q ∷ r ∷ []) ≡ zeros
unfolding group
zeros_of p q r hp hq hr =
    ap (λ (x : ℤ). record { first = x ∷ []; second = value_of q ∷ []; third = value_of r ∷ [] }) hp
    ∙ ap (λ (x : ℤ). record { first = pos 0 ∷ []; second = x ∷ []; third = value_of r ∷ [] }) hq
    ∙ ap (λ (x : ℤ). record { first = pos 0 ∷ []; second = pos 0 ∷ []; third = x ∷ [] }) hr

-- Three parts that are no numbers pass for three zeros: NewFilter returns a filter without an
-- error, and Check panics with it for every number.
pub new_filter_no_numbers :
    (config p q r : Bytes)
    → split b',' config ≡ p ∷ q ∷ r ∷ []
    → parse_int p ≡ (pos 0, some err_syntax)
    → parse_int q ≡ (pos 0, some err_syntax)
    → parse_int r ≡ (pos 0, some err_syntax)
    → (new_filter config ≡ returned (created zero_filter))
      × ((number : ℤ) → check zero_filter number ≡ panicked)
unfolding new_filter
new_filter_no_numbers config p q r parts hp hq hr = (
  rw parts (
      ap create (zeros_of p q r (ap (λ v. v.0) hp) (ap (λ v. v.0) hq) (ap (λ v. v.0) hr))
      ∙ create-zeros),
  λ number. check_panics zero_filter number refl,
)
