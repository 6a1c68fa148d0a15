-- ===== src/Create.antt =====
-- writeResults of src/create/create.go: the live windows of the gap topic, grouped by topic and
-- partition, become the results of a resend file. The state that it reads them from is the gapState
-- of Gaps/State, which both tools have word for word. The windows come from a Go map, and stand here
-- in the order in which the map gives them. A result is the value that the JSON text stands for;
-- the text itself is write_output, over the texts of the results.
pub mod Grouping
pub mod Keys
pub mod Offsets
pub mod Resending
use air_gap.Common.{
  Bytes, ℕ, zero, suc, ◌+◌, ◌-◌, ◌*◌, ◌/◌, ◌%◌, ◌^◌, ltb, leb, not, ◌==◌, ◌||◌, ◌&&◌, List, [], ◌∷◌,
  ◌++◌, Bool, if◌then◌else◌, Option, none, some, Outcome, returned, panicked, stuck,
}
use air_gap.Common.Maps.{lookup, insert, bytes_eq, bytes_beq}
use air_gap.Common.Integers.{ℤ, pos, negsuc, ◌+ℤ◌, ltℤ}
use air_gap.Common.Text.{format_int, codes}
use air_gap.Gaps.{ParsedWindow}
use air_gap.Resend.{GapResult, JsonFilter}

pub record WindowEntry : Type 0 where
  pub window_min : ℤ
  pub window_max : ℤ
  pub topic : Bytes
  pub partition : ℤ
  pub rel_gaps : List (List ℤ)

unfoldable pub group_key : Bytes → ℤ → Bytes
group_key topic partition = topic ++ (b'-' ∷ format_int partition)

abbrev pub window_entry : ParsedWindow → WindowEntry
window_entry w = record {
  window_min = w.window_min;
  window_max = w.window_max;
  topic = w.topic;
  partition = w.partition;
  rel_gaps = w.rel_gaps;
}

pub record WindowGroups : Type 0 where
  pub grouped : List (Bytes × List WindowEntry)
  pub group_order : List Bytes

abbrev pub no_groups : WindowGroups
no_groups = record { grouped = []; group_order = [] }

-- append to grouped[groupKey], where a missing key is the nil slice.
abbrev pub or_nil_slice : Option (List WindowEntry) → List WindowEntry
or_nil_slice none = []
or_nil_slice (some entries) = entries

abbrev pub order_with : Option (List WindowEntry) → Bytes → List Bytes → List Bytes
order_with none key order = order ++ key ∷ []
order_with (some entries) key order = order

-- The body of the loop over the windows.
unfoldable pub add_window : WindowGroups → ParsedWindow → WindowGroups
add_window g w =
    let key = group_key w.topic w.partition in
    record {
      grouped = insert key (or_nil_slice (lookup key g.grouped) ++ window_entry w ∷ []) g.grouped;
      group_order = order_with (lookup key g.grouped) key g.group_order;
    }

unfoldable pub group_windows : WindowGroups → List ParsedWindow → WindowGroups
group_windows g [] = g
group_windows g (w ∷ ws) = group_windows (add_window g w) ws

-- sort.Slice by the first offset of the window.
unfoldable pub insert_window : WindowEntry → List WindowEntry → List WindowEntry
insert_window w [] = w ∷ []
insert_window w (v ∷ vs) =
    let rest = insert_window w vs in
    if ltℤ v.window_min w.window_min then v ∷ rest else w ∷ (v ∷ vs)

unfoldable pub sort_windows : List WindowEntry → List WindowEntry
sort_windows [] = []
sort_windows (w ∷ ws) = insert_window w (sort_windows ws)

-- float64 of a number of int64: 53 bits of it, rounded to the nearest, and a half to the even one.
abbrev pub exact_limit : ℕ
exact_limit = 9007199254740992

-- How many bits are too many; a number of int64 has 64 at most.
unfoldable pub excess_bits : ℕ → ℕ → ℕ
excess_bits zero n = 0
excess_bits (suc fuel) n =
    let rest = excess_bits fuel (n / 2) in if ltb n exact_limit then 0 else rest + 1

abbrev pub rounded : ℕ → ℕ → ℕ
rounded unit n =
    if ltb unit (2 * (n % unit)) || (2 * (n % unit) == unit && n / unit % 2 == 1)
    then (n / unit + 1) * unit
    else n / unit * unit

unfoldable pub float_of : ℕ → ℕ
float_of n = rounded (2 ^ excess_bits 11 n) n

-- The JSON text of a float64 has the fewest digits that read as it again, and zeros behind them: the
-- nearest of the two multiples of a power of ten around it, or the one that reads as it.
abbrev pub shorter : ℕ → ℕ → ℕ → ℕ
shorter unit f longer =
    let low = f / unit * unit in
    let high = low + unit in
    if float_of low == f && (not (float_of high == f) || leb (2 * (f - low)) unit)
    then low
    else if float_of high == f
    then high
    else longer

unfoldable pub shortest : ℕ → ℕ → ℕ
shortest zero f = f
shortest (suc digits) f = let longer = shortest digits f in shorter (10 ^ suc digits) f longer

-- The text of a number below 2^53 is the number.
abbrev pub json_float : ℕ → ℕ
json_float n = if ltb n exact_limit then n else shortest 18 (float_of n)

-- The number that the JSON text of float64(n) is read as
abbrev pub float64 : ℤ → ℤ
float64 (pos n) = pos (json_float n)
float64 (negsuc n) = negsuc (json_float (n + 1) - 1)

-- A relative range in absolute offsets; a range of another length than 1 and 2 is left out. The sums
-- are those of int64 while they are below 2^63.
unfoldable pub absolute_gap : ℤ → List ℤ → List (List ℤ)
absolute_gap window_min (from ∷ []) = (float64 (from +ℤ window_min) ∷ []) ∷ []
absolute_gap window_min (from ∷ (to ∷ [])) =
    (float64 (from +ℤ window_min) ∷ (float64 (to +ℤ window_min) ∷ [])) ∷ []
absolute_gap window_min _ = []

unfoldable pub absolute_of : ℤ → List (List ℤ) → List (List ℤ)
absolute_of window_min [] = []
absolute_of window_min (gap ∷ gaps) = absolute_gap window_min gap ++ absolute_of window_min gaps

unfoldable pub absolute_gaps : List WindowEntry → List (List ℤ)
absolute_gaps [] = []
absolute_gaps (w ∷ ws) = absolute_of w.window_min w.rel_gaps ++ absolute_gaps ws

abbrev pub only_first_gap : List (List ℤ) → List (List ℤ)
only_first_gap [] = []
only_first_gap (gap ∷ gaps) = gap ∷ []

-- absoluteGaps[:1] for the limit "first"
abbrev pub limited_gaps : Bytes → List (List ℤ) → List (List ℤ)
limited_gaps limit gaps = if bytes_beq limit (codes "first") then only_first_gap gaps else gaps

abbrev pub last_window_max : WindowEntry → List WindowEntry → ℤ
last_window_max w [] = w.window_max
last_window_max w (v ∷ vs) = last_window_max v vs

-- The result of a group that is sorted: windows[0] of no window panics.
abbrev pub output_entry : Bytes → List WindowEntry → Outcome GapResult
output_entry limit [] = panicked
output_entry limit (first ∷ ws) = returned (record {
  topic = first.topic;
  partition = first.partition;
  gaps = limited_gaps limit (absolute_gaps (first ∷ ws));
  window_max = last_window_max first ws;
  window_min = pos 0;
  last_offset = pos 0;
})

abbrev pub push_entry : Outcome GapResult → Outcome (List GapResult) → Outcome (List GapResult)
push_entry panicked rest = panicked
push_entry stuck rest = stuck
push_entry (returned g) panicked = panicked
push_entry (returned g) stuck = stuck
push_entry (returned g) (returned gs) = returned (g ∷ gs)

-- The loop over groupOrder.
unfoldable pub output_entries :
    Bytes → List (Bytes × List WindowEntry) → List Bytes → Outcome (List GapResult)
output_entries limit grouped [] = returned []
output_entries limit grouped (key ∷ keys) =
    push_entry (output_entry limit (sort_windows (or_nil_slice (lookup key grouped))))
      (output_entries limit grouped keys)

abbrev pub resend_file_of : Bytes → Outcome (List GapResult) → Outcome JsonFilter
resend_file_of limit (returned results) = returned (record { type_text = limit; results = results })
resend_file_of limit panicked = panicked
resend_file_of limit stuck = stuck

-- writeResults, up to the text of the file.
unfoldable pub write_results : Bytes → List ParsedWindow → Outcome JsonFilter
write_results limit windows =
    let groups = group_windows no_groups windows in
    resend_file_of limit (output_entries limit groups.grouped groups.group_order)

abbrev newline : Bytes
newline = 10 ∷ []

-- The lines of the results, with a comma behind all but the last.
unfoldable pub result_lines : List Bytes → Bytes
result_lines [] = []
result_lines (r ∷ []) = codes "  " ++ (r ++ newline)
result_lines (r ∷ (s ∷ rs)) = codes "  " ++ (r ++ (codes "," ++ (newline ++ result_lines (s ∷ rs))))

abbrev quote : Bytes
quote = 34 ∷ []

-- outputStr
unfoldable pub write_output : Bytes → List Bytes → Bytes
write_output limit results =
    codes "{"
    ++ (newline
        ++ (codes "  "
            ++ (quote
                ++ (codes "type"
                    ++ (quote
                        ++ (codes ": "
                            ++ (quote
                                ++ (limit
                                    ++ (quote
                                        ++ (codes ","
                                            ++ (newline
                                                ++ (codes "  "
                                                    ++ (quote
                                                        ++ (codes "results"
                                                            ++ (quote
                                                            ++ (codes ": ["
                                                            ++ (newline
                                                            ++ (result_lines results
                                                            ++ (codes "]"
                                                            ++ (newline
                                                            ++ codes "}"))))))))))))))))))))
