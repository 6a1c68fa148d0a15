-- ===== src/Filter/Periods.antt =====
-- Check of src/filter/filter.go over all message numbers: the period, and senders that share it.
use air_gap.Common.{
  ℕ, zero, suc, ◌+◌, ◌-◌, ◌%◌, ◌≤◌, ◌≡◌, refl, sym, ap, ◌∙◌, Bool, not, returned, panicked, arith,
}
use native.Mathlib.Nat.{mod-eq_of_lt, mod-add-mod, add-mod_right}
use air_gap.Common.Integers.{ℤ, pos, negsuc, ◌+ℤ◌, ◌-ℤ◌, negℤ, remℤ, difference, abs}
use air_gap.Filter.{Filter, Groups, pos_mod, is_member, check, is_valid_number}

-- The place of a number in a period of k numbers that starts with 1; 0 stands at its end.
unfoldable pub place : ℕ → ℕ → ℕ
place k zero = k
place k (suc n) = n % k + 1

pub place_in_period : (k n : ℕ) → 1 ≤ k → (1 ≤ place k n) × (place k n ≤ k)
unfolding place
place_in_period k zero h = (h, omega arith)
place_in_period k (suc n) h = (omega arith, omega arith)

rem_negative : (k : ℕ) → remℤ (negℤ (pos (1 % suc k)) +ℤ pos (suc k)) (pos (suc k)) ≡ pos k
unfolding remℤ negℤ difference abs ◌+ℤ◌
rem_negative zero = refl
rem_negative (suc k) =
    let one : 1 % suc (suc k) ≡ 1 = mod-eq_of_lt (omega arith) in
    let top : suc k % suc (suc k) ≡ suc k = mod-eq_of_lt (omega arith) in
    let step : negsuc 0 +ℤ pos (suc (suc k)) ≡ pos (suc k) = ground arith in
    ap (λ r. remℤ (negℤ (pos r) +ℤ pos (suc (suc k))) (pos (suc (suc k)))) one
    ∙ ap (λ z. remℤ z (pos (suc (suc k)))) step
    ∙ ap pos top

rem_natural :
    (k n : ℕ) → remℤ (remℤ (pos n) (pos (suc k)) +ℤ pos (suc k)) (pos (suc k)) ≡ pos (n % suc k)
unfolding remℤ abs ◌+ℤ◌
rem_natural k n = ap pos (mod-add-mod n (suc k) (suc k) ∙ add-mod_right n (suc k))

pos_mod_lem :
    (k n : ℕ) → pos_mod (pos n -ℤ pos 1) (pos (suc k)) ≡ returned (pos (place (suc k) n - 1))
unfolding pos_mod ◌-ℤ◌ ◌+ℤ◌ remℤ negℤ difference abs place
pos_mod_lem k zero = ap returned (rem_negative k ∙ ap pos (omega arith))
pos_mod_lem k (suc n) =
    let back : n % suc k ≡ n % suc k + 1 - 1 = omega arith in
    let down : pos (suc n) -ℤ pos 1 ≡ pos n = ground arith in
    ap (λ z. pos_mod z (pos (suc k))) down ∙ ap returned (rem_natural k n ∙ ap pos back)

is_valid_number_lem :
    (groups : Groups) (k n : ℕ)
    → is_valid_number (pos n) groups (pos (suc k))
      ≡ returned (is_member (pos (place (suc k) n)) groups.first)
unfolding is_valid_number ◌+ℤ◌
is_valid_number_lem groups k n =
    let back : place (suc k) n - 1 + 1 ≡ place (suc k) n =
      omega (arith, place_in_period (suc k) n) in
    rw pos_mod_lem (ap (λ p. returned (is_member (pos p) groups.first)) back)

-- With a period of k > 0, Check delivers a number, 0 included, exactly if its place in the period
-- is listed in the first group.
pub check_lem :
    (f : Filter) (k n : ℕ)
    → f.k ≡ pos (suc k)
    → check f (pos n) ≡ returned (is_member (pos (place (suc k) n)) f.groups.first)
unfolding check is_valid_number
check_lem f k n h = rw h (is_valid_number_lem f.groups k n)

place_period : (k n : ℕ) → place (suc k) (n + suc k) ≡ place (suc k) n
unfolding place
place_period k zero =
    let next : 0 + suc k ≡ suc k = omega arith in
    ap (place (suc k)) next ∙ ap (λ r. r + 1) (mod-eq_of_lt (omega arith)) ∙ omega arith
place_period k (suc n) =
    let next : suc n + suc k ≡ suc (n + suc k) = omega arith in
    ap (place (suc k)) next ∙ ap (λ r. r + 1) (add-mod_right n (suc k))

-- With a period of k > 0, Check answers alike for numbers that are k apart.
pub check_periodic :
    (f : Filter) (k n : ℕ) → f.k ≡ pos (suc k) → check f (pos (n + suc k)) ≡ check f (pos n)
check_periodic f k n h =
    check_lem f k (n + suc k) h
    ∙ ap (λ p. returned (is_member (pos p) f.groups.first)) (place_period k n)
    ∙ sym (check_lem f k n h)

-- Two senders with the same period k > 0, of which exactly one lists each of the numbers from 1 to
-- k first: exactly one of them delivers each number.
pub check-shared :
    (f g : Filter) (k n : ℕ)
    → f.k ≡ pos (suc k)
    → g.k ≡ pos (suc k)
    → ((p : ℕ)
        → 1 ≤ p
        → p ≤ suc k
        → is_member (pos p) g.groups.first ≡ not (is_member (pos p) f.groups.first))
    → (b : Bool) × ((check f (pos n) ≡ returned b) × (check g (pos n) ≡ returned (not b)))
check-shared f g k n hf hg one =
    let inside = place_in_period (suc k) n (omega arith) in
    (
      is_member (pos (place (suc k) n)) f.groups.first,
      (check_lem f k n hf, check_lem g k n hg ∙ ap returned (one _ inside.0 inside.1)),
    )

-- A filter with the period 0 panics in Check for every number: it divides by zero.
pub check_panics : (f : Filter) (number : ℤ) → f.k ≡ pos 0 → check f number ≡ panicked
unfolding check pos_mod
check_panics f number h = rw h refl
