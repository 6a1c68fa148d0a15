-- ===== src/Common/Text.antt =====
-- The functions of Go's packages strings and strconv that the sources call, on bytes.
use Prim.Native.Char.{code}
use Prim.Native.String.{String}
use Prim.Native.Nat.{ℕ, zero, suc, ◌+◌, ◌-◌, ◌*◌, ◌/◌, ◌%◌}
use mathlib.Core.Bool.{Bool, true, false, ◌&&◌, ◌||◌}
use mathlib.Core.List.{List, [], ◌∷◌, ◌++◌}
use mathlib.Core.Option.{Option, none, some}
use air_gap.Common.Tests.{ltb, leb, ◌==◌, if◌then◌else◌}
use air_gap.Common.Maps.{bytes_beq}
use air_gap.Common.Members.{contains}
use air_gap.Common.Slices.{Bytes}
use air_gap.Common.Integers.{ℤ, pos, negsuc, negℤ}

-- The bytes of an ASCII text.
abbrev pub codes : String → Bytes
codes String.[] = []
codes (String.◌∷◌ c s) = code c ∷ codes s

abbrev onto_first : ℕ → List Bytes → List Bytes
onto_first b [] = (b ∷ []) ∷ []
onto_first b (field ∷ fields) = (b ∷ field) ∷ fields

-- strings.Split(text, sep) for a separator of one byte: one field more than separators.
unfoldable pub split : ℕ → Bytes → List Bytes
split sep [] = [] ∷ []
split sep (b ∷ text) =
    let rest = split sep text in if b == sep then [] ∷ rest else onto_first b rest

abbrev pub digit : ℕ → Option ℕ
digit b = if leb b'0' b && leb b b'9' then some (b - b'0') else none

abbrev pub push_digit : ℕ → Option ℕ → Option ℕ
push_digit n none = none
push_digit n (some d) = some (n * 10 + d)

abbrev pub digits_onto : Option ℕ → Bytes → Option ℕ
digits_onto none text = none
digits_onto (some n) [] = some n
digits_onto (some n) (b ∷ text) = digits_onto (push_digit n (digit b)) text

-- A number in decimal: one digit at least, and digits only.
unfoldable pub digits : Bytes → Option ℕ
digits [] = none
digits (b ∷ text) = digits_onto (some 0) (b ∷ text)

abbrev pub max_int64 : ℕ
max_int64 = 9223372036854775807

-- The two errors of strconv.ParseInt.
pub data NumError : Type 0 where
  err_syntax err_range : NumError

-- A number within int64, or the nearest limit with ErrRange.
abbrev pub non_negative : Option ℕ → ℤ × Option NumError
non_negative none = (pos 0, some err_syntax)
non_negative (some n) = if leb n max_int64 then (pos n, none) else (pos max_int64, some err_range)

abbrev pub negative : Option ℕ → ℤ × Option NumError
negative none = (pos 0, some err_syntax)
negative (some n) =
    if leb n (max_int64 + 1) then (negℤ (pos n), none) else (negsuc max_int64, some err_range)

-- strconv.ParseInt(text, 10, 64), which strconv.Atoi agrees with on 64 bits: the value that comes
-- with an error is 0 or the limit.
unfoldable pub parse_int : Bytes → ℤ × Option NumError
parse_int [] = (pos 0, some err_syntax)
parse_int (b ∷ text) =
    if b == b'-'
    then negative (digits text)
    else if b == b'+'
    then non_negative (digits text)
    else non_negative (digits (b ∷ text))

-- strings.SplitN(text, sep, n): the last of the n fields is all that is left.
unfoldable pub split_n : ℕ → ℕ → Bytes → List Bytes
split_n zero sep text = []
split_n (suc zero) sep text = text ∷ []
split_n (suc (suc n)) sep [] = [] ∷ []
split_n (suc (suc n)) sep (b ∷ text) =
    let next = split_n (suc n) sep text in
    let rest = split_n (suc (suc n)) sep text in if b == sep then [] ∷ next else onto_first b rest

-- strings.Count(text, b) for one byte.
unfoldable pub count : ℕ → Bytes → ℕ
count b [] = 0
count b (x ∷ text) = let rest = count b text in if x == b then rest + 1 else rest

abbrev later : Option ℕ → Bool → Option ℕ
later (some i) here = some (suc i)
later none true = some 0
later none false = none

-- strings.LastIndex(text, b) for one byte; -1 is none.
unfoldable pub last_index : ℕ → Bytes → Option ℕ
last_index b [] = none
last_index b (x ∷ text) = later (last_index b text) (x == b)

-- bytes.TrimLeft(text, cutset)
unfoldable pub trim_left : List ℕ → Bytes → Bytes
unfolding contains
trim_left cutset [] = []
trim_left cutset (b ∷ text) =
    let rest = trim_left cutset text in if contains b cutset then rest else b ∷ text

-- The digits of n in front of a text; n + 1 rounds are enough.
unfoldable pub decimal_onto : ℕ → ℕ → Bytes → Bytes
decimal_onto zero n text = text
decimal_onto (suc rounds) n text =
    let rest = decimal_onto rounds (n / 10) ((n % 10 + b'0') ∷ text) in
    if ltb n 10 then (n + b'0') ∷ text else rest

-- %d
unfoldable pub format_int : ℤ → Bytes
unfolding decimal_onto
format_int (pos n) = decimal_onto (n + 1) n []
format_int (negsuc n) = b'-' ∷ decimal_onto (n + 2) (n + 1) []

abbrev spaces : List ℕ
spaces = b' ' ∷ b'\t' ∷ b'\n' ∷ 11 ∷ 12 ∷ b'\r' ∷ []

abbrev keep_front : Bool → ℕ → Bytes → Bytes
keep_front true b [] = []
keep_front true b (c ∷ text) = b ∷ c ∷ text
keep_front false b text = b ∷ text

-- strings.TrimRight for a set of bytes.
unfoldable pub trim_right : List ℕ → Bytes → Bytes
unfolding contains
trim_right cutset [] = []
trim_right cutset (b ∷ text) = keep_front (contains b cutset) b (trim_right cutset text)

-- strings.TrimSpace on ASCII.
abbrev pub trim_space : Bytes → Bytes
trim_space text = trim_right spaces (trim_left spaces text)

-- strings.ToLower on ASCII.
unfoldable pub to_lower : Bytes → Bytes
to_lower [] = []
to_lower (b ∷ text) = (if leb b'A' b && leb b b'Z' then b + 32 else b) ∷ to_lower text

-- strings.HasPrefix, strings.HasSuffix and strings.Contains(text, part)
unfoldable pub has_prefix : Bytes → Bytes → Bool
has_prefix text [] = true
has_prefix [] (p ∷ part) = false
has_prefix (b ∷ text) (p ∷ part) = b == p && has_prefix text part

unfoldable pub has_suffix : Bytes → Bytes → Bool
unfolding bytes_beq
has_suffix [] part = bytes_beq [] part
has_suffix (b ∷ text) part = bytes_beq (b ∷ text) part || has_suffix text part

unfoldable pub contains_text : Bytes → Bytes → Bool
contains_text [] part = has_prefix [] part
contains_text (b ∷ text) part = has_prefix (b ∷ text) part || contains_text text part

-- strings.Join(fields, sep)
unfoldable pub join : Bytes → List Bytes → Bytes
join sep [] = []
join sep (field ∷ []) = field
join sep (field ∷ (next ∷ fields)) = field ++ (sep ++ join sep (next ∷ fields))

-- a < b on strings, byte for byte
unfoldable pub is_before_name : Bytes → Bytes → Bool
is_before_name a [] = false
is_before_name [] (y ∷ ys) = true
is_before_name (x ∷ xs) (y ∷ ys) =
    let rest = is_before_name xs ys in if x == y then rest else ltb x y
