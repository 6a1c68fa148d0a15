-- ===== src/Filter.antt =====
-- src/filter/filter.go: which message numbers a sender delivers, and the self test of the
-- configured expression. Logger.Fatalf ends the program: `fatal`.
pub mod Periods
pub mod SelfTest
use air_gap.Common.{
  Bytes, ℕ, zero, suc, ◌+◌, ◌*◌, ◌/◌, ◌%◌, List, [], ◌∷◌, map, Bool, true, false, not, ◌||◌, ◌==◌,
  if◌then◌else◌, Outcome, returned, panicked, length, take, drop, Option, none, some,
}
use air_gap.Common.Results.{◌>>=◌}
use air_gap.Common.Integers.{ℤ, pos, negsuc, ◌+ℤ◌, ◌-ℤ◌, remℤ, eqℤ}
use air_gap.Common.Text.{split, parse_int}

-- groups [][]int64: there are always three.
pub record Groups : Type 0 where
  pub first : List ℤ
  pub second : List ℤ
  pub third : List ℤ

pub record Filter : Type 0 where
  pub groups : Groups
  pub k : ℤ

-- a / b of ints panics for b = 0.
unfoldable pub pos_mod : ℤ → ℤ → Outcome ℤ
unfolding remℤ ◌+ℤ◌
pos_mod a (pos zero) = panicked
pos_mod a m = returned (remℤ (remℤ a m +ℤ m) m)

-- The loops of Check, isValidNumber and inGroup.
unfoldable pub is_member : ℤ → List ℤ → Bool
unfolding eqℤ
is_member nr [] = false
is_member nr (x ∷ xs) = eqℤ x nr || is_member nr xs

unfoldable pub is_valid_number : ℤ → Groups → ℤ → Outcome Bool
unfolding ◌-ℤ◌ ◌+ℤ◌
is_valid_number number groups k = do
  p ← pos_mod (number -ℤ pos 1) k
  returned (is_member (p +ℤ pos 1) groups.first)

-- Check has the body of isValidNumber.
unfoldable pub check : Filter → ℤ → Outcome Bool
unfolding ◌-ℤ◌ ◌+ℤ◌
check f number = do
  p ← pos_mod (number -ℤ pos 1) f.k
  returned (is_member (p +ℤ pos 1) f.groups.first)

unfoldable pub in_group : ℤ → Groups → Bool
in_group nr groups =
    is_member nr groups.first || (is_member nr groups.second || is_member nr groups.third)

abbrev same : Bool → Bool → Bool
same true b = b
same false b = not b

-- `rounds` rounds of the loop of doSelfTest from number i on: the number at which it fails.
unfoldable pub self_test_loop : ℕ → ℕ → Groups → ℤ → Outcome (Option ℕ)
self_test_loop zero i groups k = returned none
self_test_loop (suc rounds) i groups k = do
  valid ← is_valid_number (pos i) groups k
  let rest = self_test_loop rounds (i + 1) groups k in
      if same valid (in_group (pos i) groups) then rest else returned (some i)

-- xs[i] panics out of range.
unfoldable pub at : ℕ → List ℤ → Outcome ℤ
at i [] = panicked
at zero (x ∷ xs) = returned x
at (suc i) (x ∷ xs) = at i xs

unfoldable pub last_of : List ℤ → Outcome ℤ
last_of [] = panicked
last_of (x ∷ []) = returned x
last_of (x ∷ (y ∷ xs)) = last_of (y ∷ xs)

-- The loop from 1 to the number has no round for a number below 1.
abbrev pub rounds_to : ℤ → ℕ
rounds_to (pos n) = n
rounds_to (negsuc n) = 0

unfoldable pub do_self_test : Groups → ℤ → Outcome (Option ℕ)
do_self_test groups k = do
  largest_number ← last_of groups.third
  self_test_loop (rounds_to largest_number) 1 groups k

-- What NewFilter comes to: an error, the end of the program with one of two records, or a filter.
pub data Creation : Type 0 where
  not_divisible : Creation
  fatal_start : ℤ → Creation
  fatal_self_test : ℕ → Creation
  created : Filter → Creation

-- strconv.Atoi with its error dropped.
abbrev pub value_of : Bytes → ℤ
value_of text = (parse_int text).0

-- The numbers of group j.
unfoldable pub group : List Bytes → ℕ → ℕ → List ℤ
group parts items_per_group j =
    map value_of (take items_per_group (drop (j * items_per_group) parts))

abbrev pub groups_of : List Bytes → Groups
groups_of parts = record {
  first = group parts (length parts / 3) 0;
  second = group parts (length parts / 3) 1;
  third = group parts (length parts / 3) 2;
}

abbrev tested : Groups → ℤ → Option ℕ → Creation
tested groups k none = created (record { groups = groups; k = k })
tested groups k (some i) = fatal_self_test i

-- NewFilter from the groups on.
unfoldable pub create : Groups → Outcome Creation
unfolding ◌-ℤ◌ ◌+ℤ◌
create groups = do
  start ← at 0 groups.first
  second_start ← at 0 groups.second
  third_start ← at 0 groups.third
  let k = second_start -ℤ start in
      if not (eqℤ third_start (second_start +ℤ k))
      then returned (fatal_start third_start)
      else (do_self_test groups k >>= λ failed. returned (tested groups k failed))

unfoldable pub new_filter : Bytes → Outcome Creation
new_filter config =
    let parts = split b',' config in
    if not (length parts % 3 == 0) then returned not_divisible else create (groups_of parts)
