-- ===== src/Create/Grouping.antt =====
-- writeResults of src/create/create.go: the groups hold every window once, under its own key.
use mathlib.Core.Path.{subst}
use air_gap.Common.{
  All-append, All-weaken, if_cases, if◌then◌else◌, Bytes, ◌≡◌, refl, sym, ap, ◌∙◌, List, [], ◌∷◌,
  ◌++◌, Bool, true, false, ◌||◌, ◌&&◌, Option, none, some, All, arith, Bool-cases, inl, inr,
  Option-cases,
}
use air_gap.Common.Members.{any, any-append}
use air_gap.Common.Maps.{
  lookup, insert, bytes_eq, bytes_beq, lookup-insert, bytes_beq_iff, beq_refl,
}
use air_gap.Gaps.{ParsedWindow}
use air_gap.Create.{
  WindowEntry, WindowGroups, group_key, window_entry, or_nil_slice, order_with, add_window,
  group_windows, insert_window, sort_windows,
}

pub any-insert_window :
    (f : WindowEntry → Bool) (w : WindowEntry) (ws : List WindowEntry)
    → any f (insert_window w ws) ≡ f w || any f ws
unfolding any insert_window
any-insert_window f w [] = refl
any-insert_window f w (v ∷ vs) = ground (arith, any-insert_window f w vs)

pub any-sort_windows :
    (f : WindowEntry → Bool) (ws : List WindowEntry) → any f (sort_windows ws) ≡ any f ws
unfolding any sort_windows
any-sort_windows f [] = refl
any-sort_windows f (w ∷ ws) =
    any-insert_window f w (sort_windows ws) ∙ ap (λ b. f w || b) (any-sort_windows f ws)

-- The windows of a key.
abbrev pub group_of : WindowGroups → Bytes → List WindowEntry
group_of g key = or_nil_slice (lookup key g.grouped)

unfoldable pub has_key : Bytes → List Bytes → Bool
has_key key [] = false
has_key key (k ∷ ks) = bytes_beq key k || has_key key ks

-- What a test finds in the groups in order.
abbrev pub in_groups : (WindowEntry → Bool) → WindowGroups → Bool
in_groups f g = any (λ key. any f (group_of g key)) g.group_order

-- A key is in the order when it has a group.
abbrev pub IsListed : WindowGroups → Type 0
IsListed g =
    (key : Bytes) (entries : List WindowEntry)
    → lookup key g.grouped ≡ some entries
    → has_key key g.group_order ≡ true

module _ (f : WindowEntry → Bool) (m : List (Bytes × List WindowEntry)) (key : Bytes)
    (e : WindowEntry) where
  abbrev grown : List (Bytes × List WindowEntry)
  grown = insert key (or_nil_slice (lookup key m) ++ e ∷ []) m

  any_of_grown :
      (j : Bytes)
      → any f (or_nil_slice (lookup j grown))
        ≡ any f (or_nil_slice (lookup j m)) || (bytes_beq key j && f e)
  unfolding any
  any_of_grown j = elim (Bool-cases (bytes_beq key j)) [
    | inl same ↦
        let known : key ≡ j = (bytes_beq_iff key j).0 same in
        ap (λ o. any f (or_nil_slice o))
          (lookup-insert key j (or_nil_slice (lookup key m) ++ e ∷ []) m
            ∙ ap (λ b. if b then some (or_nil_slice (lookup key m) ++ e ∷ []) else lookup j m) same)
        ∙ any-append f (or_nil_slice (lookup key m)) (e ∷ [])
        ∙ ap (λ k. any f (or_nil_slice (lookup k m)) || (f e || false)) known
        ∙ ground (arith, same)
    | inr other ↦
        ap (λ o. any f (or_nil_slice o))
          (lookup-insert key j (or_nil_slice (lookup key m) ++ e ∷ []) m
            ∙ ap (λ b. if b then some (or_nil_slice (lookup key m) ++ e ∷ []) else lookup j m)
                other)
        ∙ ground (arith, other)
  ]

  any-grown :
      (order : List Bytes)
      → any (λ j. any f (or_nil_slice (lookup j grown))) order
        ≡ any (λ j. any f (or_nil_slice (lookup j m))) order || (has_key key order && f e)
  unfolding any has_key
  any-grown [] = refl
  any-grown (j ∷ js) = ground (arith, any_of_grown j, any-grown js)

has_key-append :
    (key : Bytes) (order : List Bytes) (k : Bytes)
    → has_key key (order ++ k ∷ []) ≡ has_key key order || bytes_beq key k
unfolding has_key
has_key-append key [] k = ground arith
has_key-append key (j ∷ js) k = ground (arith, has_key-append key js k)

-- A new window is found behind what was there.
in_groups-add_window :
    (f : WindowEntry → Bool) (g : WindowGroups) (w : ParsedWindow)
    → IsListed g
    → in_groups f (add_window g w) ≡ in_groups f g || f (window_entry w)
unfolding add_window any
in_groups-add_window f g w listed =
    let key = group_key w.topic w.partition in
    elim (Option-cases (lookup key g.grouped)) [
      | inl new ↦
          let m = grown f g.grouped key (window_entry w) in
          let found = any_of_grown f g.grouped key (window_entry w) key in
          let nothing : any f (group_of g key) ≡ false = ap (λ o. any f (or_nil_slice o)) new in
          let own : bytes_beq key key ≡ true = beq_refl {K = Bytes} key in
          let before = any-grown f g.grouped key (window_entry w) g.group_order in
          ap (λ o. any (λ j. any f (or_nil_slice (lookup j m))) (order_with o key g.group_order))
            new
          ∙ any-append (λ j. any f (or_nil_slice (lookup j m))) g.group_order (key ∷ [])
          ∙ ground arith
      | inr (entries, known) ↦
          ap
            (λ o.
              any (λ j. any f (or_nil_slice (lookup j (grown f g.grouped key (window_entry w)))))
                (order_with o key g.group_order))
            known
          ∙ any-grown f g.grouped key (window_entry w) g.group_order
          ∙ ap (λ b. in_groups f g || (b && f (window_entry w))) (listed key entries known)
    ]

has_key-order_with :
    (o : Option (List WindowEntry)) (key : Bytes) (order : List Bytes) (k : Bytes)
    → has_key key order ≡ true
    → has_key key (order_with o k order) ≡ true
has_key-order_with none key order k h = ground (arith, has_key-append key order k)
has_key-order_with (some entries) key order k h = h

add_window-IsListed : (g : WindowGroups) (w : ParsedWindow) → IsListed g → IsListed (add_window g w)
unfolding add_window
add_window-IsListed g w listed k entries found =
    let key = group_key w.topic w.partition in
    let value = or_nil_slice (lookup key g.grouped) ++ window_entry w ∷ [] in
    let at = lookup-insert key k value g.grouped in
    elim (Bool-cases (bytes_beq key k)) [
      | inr other ↦ has_key-order_with (lookup key g.grouped) k g.group_order key (
          listed k entries
            (sym (at ∙ ap (λ b. if b then some value else lookup k g.grouped) other) ∙ found))
      | inl same ↦
          let known : key ≡ k = (bytes_beq_iff key k).0 same in
          subst (λ j. has_key j (order_with (lookup key g.grouped) key g.group_order) ≡ true) known
            (elim (Option-cases (lookup key g.grouped)) [
              | inl new ↦
                  ap (λ o. has_key key (order_with o key g.group_order)) new
                  ∙ has_key-append key g.group_order key
                  ∙ ground (arith, beq_refl {K = Bytes} key)
              | inr (old, there) ↦
                  has_key-order_with (lookup key g.grouped) key g.group_order key
                    (listed key old there)
            ])
    ]

pub in_groups-group_windows :
    (f : WindowEntry → Bool) (g : WindowGroups) (ws : List ParsedWindow)
    → IsListed g
    → in_groups f (group_windows g ws) ≡ in_groups f g || any (λ w. f (window_entry w)) ws
unfolding group_windows any
in_groups-group_windows f g [] listed = ground arith
in_groups-group_windows f g (w ∷ ws) listed =
    in_groups-group_windows f (add_window g w) ws (add_window-IsListed g w listed)
    ∙ ap (λ b. b || any (λ v. f (window_entry v)) ws) (in_groups-add_window f g w listed)
    ∙ ground arith

group_of-add_window :
    (g : WindowGroups) (w : ParsedWindow) (k : Bytes)
    → group_of (add_window g w) k ≡ (
        if bytes_beq (group_key w.topic w.partition) k
        then group_of g k ++ window_entry w ∷ []
        else group_of g k)
unfolding add_window
group_of-add_window g w k =
    let key = group_key w.topic w.partition in
    let at =
      ap or_nil_slice (lookup-insert key k (group_of g key ++ window_entry w ∷ []) g.grouped) in
    elim (Bool-cases (bytes_beq key k)) [
      | inl same ↦
          at
          ∙ ap
              (λ b.
                or_nil_slice
                  (if b then some (group_of g key ++ window_entry w ∷ []) else lookup k g.grouped))
              same
          ∙ ap (λ j. group_of g j ++ window_entry w ∷ []) ((bytes_beq_iff key k).0 same)
          ∙ ap (λ b. if b then group_of g k ++ window_entry w ∷ [] else group_of g k) (sym same)
      | inr other ↦
          at
          ∙ ap
              (λ b.
                or_nil_slice
                  (if b then some (group_of g key ++ window_entry w ∷ []) else lookup k g.grouped))
              other
          ∙ ap (λ b. if b then group_of g k ++ window_entry w ∷ [] else group_of g k) (sym other)
    ]

-- All windows of a group have what the windows of its key have.
abbrev pub IsOf : (Bytes → WindowEntry → Type 0) → WindowGroups → Type 0
IsOf P g = (key : Bytes) → All (P key) (group_of g key)

add_window-IsOf :
    (P : Bytes → WindowEntry → Type 0) (g : WindowGroups) (w : ParsedWindow)
    → P (group_key w.topic w.partition) (window_entry w)
    → IsOf P g
    → IsOf P (add_window g w)
add_window-IsOf P g w new old k = subst (All (P k)) (sym (group_of-add_window g w k)) (
    if_cases (All (P k)) (bytes_beq (group_key w.topic w.partition) k)
      (λ same.
        All-append (P k) (group_of g k) (window_entry w ∷ []) (old k)
          (subst (λ j. P j (window_entry w)) ((bytes_beq_iff _ k).0 same) new, tt))
      (λ other. old k))

pub group_windows-IsOf :
    (P : Bytes → WindowEntry → Type 0) (g : WindowGroups) (ws : List ParsedWindow)
    → All (λ w. P (group_key w.topic w.partition) (window_entry w)) ws
    → IsOf P g
    → IsOf P (group_windows g ws)
unfolding group_windows
group_windows-IsOf P g [] new old = old
group_windows-IsOf P g (w ∷ ws) new old =
    group_windows-IsOf P (add_window g w) ws new.1 (add_window-IsOf P g w new.0 old)

-- A group that is listed has a window.
abbrev pub IsFilled : List WindowEntry → Type 0
IsFilled ws = (first : WindowEntry) × (rest : List WindowEntry) × (ws ≡ first ∷ rest)

abbrev pub IsFull : WindowGroups → Type 0
IsFull g = All (λ key. IsFilled (group_of g key)) g.group_order

append-IsFilled : (ws : List WindowEntry) (w : WindowEntry) → IsFilled (ws ++ w ∷ [])
append-IsFilled [] w = (w, [], refl)
append-IsFilled (v ∷ vs) w = (v, vs ++ w ∷ [], refl)

order_with-All :
    (P : Bytes → Type 0) (o : Option (List WindowEntry)) (key : Bytes) (order : List Bytes)
    → P key
    → All P order
    → All P (order_with o key order)
order_with-All P none key order own all = All-append P order (key ∷ []) all (own, tt)
order_with-All P (some entries) key order own all = all

add_window-IsFull : (g : WindowGroups) (w : ParsedWindow) → IsFull g → IsFull (add_window g w)
unfolding add_window lookup
add_window-IsFull g w full =
    let key = group_key w.topic w.partition in
    let P : Bytes → Type 0 = λ k. IsFilled (group_of (add_window g w) k) in
    order_with-All P (lookup key g.grouped) key g.group_order
      (subst IsFilled
        (ap (λ b. if b then group_of g key ++ window_entry w ∷ [] else group_of g key)
            (sym (beq_refl {K = Bytes} key))
          ∙ sym (group_of-add_window g w key))
        (append-IsFilled (group_of g key) (window_entry w)))
      (All-weaken (λ k. IsFilled (group_of g k)) P g.group_order
        (λ k filled. subst IsFilled (sym (group_of-add_window g w k)) (
          if_cases IsFilled (bytes_beq key k) (λ _. append-IsFilled (group_of g k) (window_entry w))
            (λ _. filled)))
        full)

pub group_windows-IsFull :
    (g : WindowGroups) (ws : List ParsedWindow) → IsFull g → IsFull (group_windows g ws)
unfolding group_windows
group_windows-IsFull g [] full = full
group_windows-IsFull g (w ∷ ws) full =
    group_windows-IsFull (add_window g w) ws (add_window-IsFull g w full)
