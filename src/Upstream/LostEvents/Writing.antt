-- ===== src/Upstream/LostEvents/Writing.antt =====
-- src/upstream/ale.go: the name of the file of a lost event, and writeLostEvent.
use air_gap.Upstream.LostEvents.{
  Store, System, Retain, remove_lost_event_file, write_failed, payload,
  reclaim_lost_event_directory_space,
}
use air_gap.Common.Maps.{bytes_eq, insert}
use air_gap.Common.Text.{codes, format_int}
use air_gap.Common.Integers.{pos}
use air_gap.Common.{
  zero, suc, ℕ, [], ◌∷◌, ◌-◌, ◌+◌, if◌then◌else◌, Bool, Bytes, true, ◌&&◌, ltb, leb, false, ◌==◌,
  ◌||◌, Option, ◌++◌, some, none, length,
}

abbrev pub is_safe_byte : ℕ → Bool
is_safe_byte b =
    (leb b'a' b && leb b b'z')
    || (leb b'A' b && leb b b'Z')
    || (leb b'0' b && leb b b'9')
    || b == b'.'
    || b == b'_'
    || b == b'-'

-- The bytes of the character that a byte begins, as Go reads a string: 1 where it is not well-formed.
abbrev pub sequence : ℕ → ℕ
sequence b =
    if ltb b 194
    then 1
    else if ltb b 224
    then 2
    else if ltb b 240
    then 3
    else if ltb b 245
    then 4
    else 1

unfoldable pub continues : ℕ → Bytes → Bool
continues zero bs = true
continues (suc n) [] = false
continues (suc n) (b ∷ bs) = leb 128 b && leb b 191 && continues n bs

abbrev pub is_second : ℕ → ℕ → Bool
is_second b c =
    leb (if b == 224 then 160 else if b == 240 then 144 else 128) c
    && leb c (if b == 237 then 159 else if b == 244 then 143 else 191)

abbrev pub rune_size : ℕ → Bytes → ℕ
rune_size b [] = 1
rune_size b (c ∷ rest) = if is_second b c && continues (sequence b - 2) rest then sequence b else 1

-- The loop over the characters, of which some bytes still belong to the last one.
unfoldable pub safe_from : ℕ → Bytes → Bytes
safe_from skip [] = []
safe_from zero (b ∷ bs) = (if is_safe_byte b then b else b'_') ∷ safe_from (rune_size b bs - 1) bs
safe_from (suc skip) (b ∷ bs) = safe_from skip bs

-- lostEventFileName
abbrev pub lost_event_file_name : Bytes → Bytes
lost_event_file_name id = safe_from 0 id

-- What os.WriteFile comes to: a failed one may leave a part in a file, which is removed, or not.
pub data Writing : Type 0 where
  wrote failed : Writing
  left_part : Bytes → Bool → Writing

abbrev pub with_file : Bytes → Bytes → ℕ → Store → Store
with_file path content now s = record s {
  files =
      insert path
        (record { is_dir = false; is_regular = true; mod_time = now; content = payload content })
        s.files;
}

abbrev pub after_write : Bytes → Bytes → ℕ → Writing → Store → Option Bytes × Store
after_write path content now wrote s = (some path, with_file path content now s)
after_write path content now failed s = (none, s)
after_write path content now (left_part part true) s =
    (none, remove_lost_event_file path write_failed (with_file path part now s))
after_write path content now (left_part part false) s = (none, with_file path part now s)

-- writeLostEvent into a directory that exists: the path or none.
unfoldable pub write_lost_event :
    System → Retain → Writing → Bytes → Bytes → ℕ → ℕ → Store → Option Bytes × Store
write_lost_event system retain writing id content now named_at s =
    after_write
      (lost_event_file_name id ++ (codes "-" ++ (format_int (pos named_at) ++ codes ".bin")))
      content named_at writing
      (reclaim_lost_event_directory_space system retain (length content + 1024) now s)
