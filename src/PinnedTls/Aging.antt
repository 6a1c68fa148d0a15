-- ===== src/PinnedTls/Aging.antt =====
-- src/internal/pinnedtls/aging.go: keys that are not used age out, and a run of the manager. A
-- duration never reaches the largest one that a difference of times stops at.
use air_gap.Common.{
  Bytes, ℕ, List, [], ◌∷◌, Bool, false, Option, none, some, not, ◌&&◌, ◌||◌, ◌==◌, ◌-◌, ◌*◌, leb,
  ltb, if◌then◌else◌,
}
use air_gap.Common.Maps.{bytes_eq, lookup, insert, bytes_beq}
use air_gap.Common.Text.{is_before_name}
use air_gap.PinnedTls.{
  Entry, Pins, Certificate, Manager, time_of, is_connected, admit, forget, activate, reset_idle,
}

-- Of the keys of a peer, the one used last, and of those the least, by what was found before.
abbrev pub is_later : List (Bytes × ℕ) → Bytes → Bytes → Bool
is_later last_used fp previous =
    ltb (time_of (lookup previous last_used)) (time_of (lookup fp last_used))
    || (time_of (lookup fp last_used) == time_of (lookup previous last_used)
        && is_before_name fp previous)

abbrev pub with_latest :
    List (Bytes × ℕ) → Bytes → Bytes → Option Bytes → List (Bytes × Bytes) → List (Bytes × Bytes)
with_latest last_used fp peer none latest = insert peer fp latest
with_latest last_used fp peer (some previous) latest =
    if is_later last_used fp previous then insert peer fp latest else latest

unfoldable pub latest_keys : List (Bytes × ℕ) → Pins → List (Bytes × Bytes)
latest_keys last_used [] = []
latest_keys last_used ((fp, entry) ∷ pins) =
    let rest = latest_keys last_used pins in
    with_latest last_used fp entry.peer (lookup entry.peer rest) rest

abbrev pub is_key : Bytes → Option Bytes → Bool
is_key fp none = bytes_beq [] fp
is_key fp (some latest) = bytes_beq latest fp

module _ (m : Manager) (latest : List (Bytes × Bytes)) (now : ℕ) where
  -- A key ages out.
  abbrev pub is_idle : Bytes → Entry → Bool
  is_idle fp entry =
      not (is_key fp (lookup entry.peer latest))
      && not (is_connected m.sessions fp)
      && leb m.idle_timeout (now - time_of (lookup fp m.last_use))

  -- The loop over the pins: what stays, what is marked, and what is reported.
  unfoldable pub fresh_pins : Pins → Pins
  fresh_pins [] = []
  fresh_pins ((fp, entry) ∷ pins) =
      let rest = fresh_pins pins in if is_idle fp entry then rest else (fp, entry) ∷ rest

  unfoldable pub aged_pins : Pins → List (Bytes × Bytes)
  aged_pins [] = m.aged
  aged_pins ((fp, entry) ∷ pins) =
      let rest = aged_pins pins in if is_idle fp entry then insert fp entry.peer rest else rest

  unfoldable pub removed_keys : Pins → List Bytes
  removed_keys [] = []
  removed_keys ((fp, entry) ∷ pins) =
      let rest = removed_keys pins in if is_idle fp entry then fp ∷ rest else rest

-- Without a key to remove the pins that stay are the pins.
unfoldable pub purge_idle : ℕ → Manager → List Bytes × Manager
purge_idle now m =
    let latest = latest_keys m.last_used m.pins in
    if m.idle_timeout == 0 then ([], m) else (
      removed_keys m latest now m.pins,
      record m { pins = fresh_pins m latest now m.pins; aged = aged_pins m latest now m.pins },
    )

-- StartAging
abbrev pub start_aging : ℕ → Manager → Manager
start_aging seconds m = record m { idle_timeout = seconds * 1000000000 }

-- excludeAged
abbrev pub is_aged : Bytes → Option Bytes → Bool
is_aged peer none = false
is_aged peer (some aged) = bytes_beq peer aged

unfoldable pub exclude_aged : List (Bytes × Bytes) → Pins → Pins
exclude_aged aged [] = []
exclude_aged aged ((fp, entry) ∷ pins) =
    let rest = exclude_aged aged pins in
    if is_aged entry.peer (lookup fp aged) then rest else (fp, entry) ∷ rest

-- The calls of a manager, with their times; the ticks of a ticker that has not started come to
-- nothing. Which sockets close without an error is given.
pub data Call : Type 0 where
  admits : ℕ → Option Certificate → ℕ → Call
  forgets : ℕ → ℕ → Call
  activates : (ℕ → Bool) → Pins → ℕ → Call
  starts_aging : ℕ → Call
  ticks : ℕ → Call

module _ (fingerprint_of : Bytes → Bytes) where
  abbrev pub call : Call → Manager → Manager
  call (admits conn certificate now) m = (admit fingerprint_of conn certificate now m).1
  call (forgets conn now) m = forget conn now m
  call (activates closes pins now) m = (activate closes pins now m).1
  call (starts_aging seconds) m = start_aging seconds m
  call (ticks now) m = (purge_idle now m).1

  unfoldable pub call_all : List Call → Manager → Manager
  call_all [] m = m
  call_all (c ∷ cs) m = call_all cs (call c m)

-- NewManager
abbrev pub new_manager : Pins → ℕ → Manager
new_manager pins now = reset_idle now (record {
  pins = pins;
  sessions = [];
  idle_timeout = 0;
  last_use = [];
  last_used = [];
  aged = [];
})
