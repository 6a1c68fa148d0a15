-- ===== src/Upstream/LostEvents.antt =====
-- The directory of lost events of src/upstream/ale.go: what is compressed, deleted and evicted before
-- an event is written. The file system is a map from names to files, and what its calls come to is
-- a parameter for each file and each scan; a file whose Info or Lstat fails is one that cannot be
-- removed or that is given up. An archive holds the file that it was made of. removeLostEventFile
-- reports every removal, in the log and by emitLostMessageTruncated, and the model keeps the list of
-- them, the latest first. Times are in nanoseconds; an age in days is compared without rounding.
pub mod Fates
pub mod Retention
pub mod Writing
use air_gap.Common.{
  Bytes, ℕ, ◌+◌, ◌-◌, ◌*◌, List, [], ◌∷◌, ◌++◌, map, Bool, true, false, ◌||◌, ◌&&◌, not, Option,
  none, some, length, ltb, leb, ◌==◌, if◌then◌else◌, suc,
}
use air_gap.Common.Maps.{lookup, insert, delete, bytes_eq}
use air_gap.Common.Text.{is_before_name, codes, has_suffix, format_int}
use air_gap.Common.Integers.{pos}

pub data Content : Type 0 where
  payload : Bytes → Content
  archive : Bytes → Content → Content

pub record LostFile : Type 0 where
  pub is_dir : Bool
  pub is_regular : Bool
  pub mod_time : ℕ
  pub content : Content

pub data Action : Type 0 where
  was_compressed was_deleted was_evicted write_failed : Action

pub record Store : Type 0 where
  pub files : List (Bytes × LostFile)
  pub removals : List (Bytes × Action)

-- How far a file gets: it is left alone because of an error, or its archive has its name, and then
-- the file itself is removed or not.
pub data Archiving : Type 0 where
  given_up : Archiving
  renamed : Bool → Archiving

-- What the calls of the operating system come to; none is the error of dirFreeBytes.
pub record System : Type 0 where
  pub scans_to_delete : Bool
  pub scans_to_compress : Bool
  pub scans_to_evict : Bool
  pub archiving : Bytes → Archiving
  pub can_delete : Bytes → Bool
  pub can_evict : Bytes → Bool
  pub free_bytes : Store → Option ℕ

-- The settings of the directory; 0 days switch off.
pub record Retain : Type 0 where
  pub compress_after_days : ℕ
  pub delete_after_days : ℕ

-- removeLostEventFile of a file that the system removes
unfoldable pub remove_lost_event_file : Bytes → Action → Store → Store
remove_lost_event_file name action s = record {
  files = delete name s.files;
  removals = (name, action) ∷ s.removals;
}

-- fileAgeDays(now, modTime) > days
abbrev pub is_older : ℕ → ℕ → LostFile → Bool
is_older now days f = ltb (days * 86400000000000) (now - f.mod_time)

abbrev pub zip : Bytes → Bytes
zip name = name ++ codes ".zip"

abbrev pub archive_of : Bytes → LostFile → LostFile
archive_of name f = record {
  is_dir = false;
  is_regular = true;
  mod_time = f.mod_time;
  content = archive name f.content;
}

abbrev pub names : Store → List Bytes
names s = map (λ f. f.0) s.files

module _ (system : System) (now days : ℕ) where
  abbrev pub archived : Bytes → LostFile → Archiving → Store → Store
  archived name f given_up s = s
  archived name f (renamed is_removed) s =
      let s' = record s { files = insert (zip name) (archive_of name f) s.files } in
      if is_removed then remove_lost_event_file name was_compressed s' else s'

  -- An archive of that name is not overwritten.
  abbrev pub unless_there : Bytes → LostFile → Option LostFile → Store → Store
  unless_there name f (some old) s = s
  unless_there name f none s = archived name f (system.archiving name) s

  abbrev pub compress_known : Bytes → Option LostFile → Store → Store
  compress_known name none s = s
  compress_known name (some f) s =
      if f.is_dir || has_suffix name (codes ".zip") || not f.is_regular || not (is_older now days f)
      then s
      else unless_there name f (lookup (zip name) s.files) s

  abbrev pub compress_file : Bytes → Store → Store
  compress_file name s = compress_known name (lookup name s.files) s

  unfoldable pub compress_files : List Bytes → Store → Store
  compress_files [] s = s
  compress_files (name ∷ rest) s = compress_files rest (compress_file name s)

  -- compressOldLostEventFiles
  abbrev pub compress_old_lost_event_files : Store → Store
  compress_old_lost_event_files s =
      if days == 0 || not system.scans_to_compress then s else compress_files (names s) s

  abbrev pub delete_known : Bytes → Option LostFile → Store → Store
  delete_known name none s = s
  delete_known name (some f) s =
      if f.is_dir || not f.is_regular || not (is_older now days f) || not (system.can_delete name)
      then s
      else remove_lost_event_file name was_deleted s

  abbrev pub delete_file : Bytes → Store → Store
  delete_file name s = delete_known name (lookup name s.files) s

  unfoldable pub delete_files : List Bytes → Store → Store
  delete_files [] s = s
  delete_files (name ∷ rest) s = delete_files rest (delete_file name s)

  -- deleteOldLostEventFiles
  abbrev pub delete_old_lost_event_files : Store → Store
  delete_old_lost_event_files s =
      if days == 0 || not system.scans_to_delete then s else delete_files (names s) s

-- The order of oldestLostEventFiles: by time, then by name.
abbrev pub is_before : Bytes × LostFile → Bytes × LostFile → Bool
is_before (a, f) (b, g) =
    if f.mod_time == g.mod_time then is_before_name a b else ltb f.mod_time g.mod_time

unfoldable pub insert_candidate :
    Bytes × LostFile → List (Bytes × LostFile) → List (Bytes × LostFile)
insert_candidate c [] = c ∷ []
insert_candidate c (d ∷ ds) =
    let rest = insert_candidate c ds in if is_before d c then d ∷ rest else c ∷ (d ∷ ds)

-- oldestLostEventFiles
unfoldable pub oldest_lost_event_files : List (Bytes × LostFile) → List (Bytes × LostFile)
oldest_lost_event_files [] = []
oldest_lost_event_files ((name, f) ∷ files) =
    let rest = oldest_lost_event_files files in
    if f.is_dir || has_suffix name (codes ".tmp") || not f.is_regular
    then rest
    else insert_candidate (name, f) rest

-- err != nil || free >= required
abbrev pub is_enough : ℕ → Option ℕ → Bool
is_enough required none = true
is_enough required (some free) = leb required free

module _ (system : System) (required : ℕ) where
  -- The loop over the candidates.
  unfoldable pub evict_files : List (Bytes × LostFile) → Store → Store
  evict_files [] s = s
  evict_files ((name, f) ∷ candidates) s =
      let gone = remove_lost_event_file name was_evicted s in
      if not (system.can_evict name)
      then evict_files candidates s
      else if is_enough required (system.free_bytes gone)
      then gone
      else evict_files candidates gone

  abbrev pub evict_if : Store → Store
  evict_if s =
      if is_enough required (system.free_bytes s) || not system.scans_to_evict
      then s
      else evict_files (oldest_lost_event_files s.files) s

-- reclaimLostEventDirectorySpaceWithFree of a directory that has a name
unfoldable pub reclaim_lost_event_directory_space : System → Retain → ℕ → ℕ → Store → Store
reclaim_lost_event_directory_space system retain required now s =
    if required == 0
    then s
    else evict_if system required (
        compress_old_lost_event_files system now retain.compress_after_days
          (delete_old_lost_event_files system now retain.delete_after_days s))
