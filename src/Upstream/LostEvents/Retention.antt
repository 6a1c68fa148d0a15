-- ===== src/Upstream/LostEvents/Retention.antt =====
-- src/upstream/ale.go: what becomes of the files of the directory of lost events.
use air_gap.Common.{
  Bytes, ℕ, ◌≡◌, refl, List, [], ◌∷◌, true, false, ◌||◌, not, Option, none, some, ◌==◌, if_cases,
  arith,
}
use air_gap.Common.Maps.{lookup, bytes_eq}
use air_gap.Common.Text.{codes, has_suffix}
use air_gap.Upstream.LostEvents.{
  LostFile, was_deleted, was_evicted, Store, System, Retain, Archiving, given_up, renamed,
  remove_lost_event_file, is_older, zip, names, archived, unless_there, compress_known,
  compress_file, compress_files, compress_old_lost_event_files, delete_known, delete_file,
  delete_files, delete_old_lost_event_files, oldest_lost_event_files, is_enough, evict_files,
  reclaim_lost_event_directory_space,
}
use air_gap.Upstream.LostEvents.Fates.{Fate, kept, remove-Fate, with_archive-Fate, replaced-Fate}

module _ (n : Bytes) (f : LostFile) where
  module _ (system : System) (now days : ℕ) where
    archived-Fate :
        (m : Bytes) (g : LostFile) (a : Archiving) (s : Store)
        → lookup m s.files ≡ some g
        → lookup (zip m) s.files ≡ none
        → has_suffix m (codes ".zip") ≡ false
        → Fate n f s
        → Fate n f (archived system now days m g a s)
    archived-Fate m g given_up s known free plain fate = fate
    archived-Fate m g (renamed true) s known free plain fate =
        replaced-Fate n f m g s known free plain fate
    archived-Fate m g (renamed false) s known free plain fate =
        with_archive-Fate n f m g s free fate

    unless_there-Fate :
        (m : Bytes) (g : LostFile) (o : Option LostFile) (s : Store)
        → lookup m s.files ≡ some g
        → lookup (zip m) s.files ≡ o
        → has_suffix m (codes ".zip") ≡ false
        → Fate n f s
        → Fate n f (unless_there system now days m g o s)
    unless_there-Fate m g (some old) s known there plain fate = fate
    unless_there-Fate m g none s known free plain fate =
        archived-Fate m g (system.archiving m) s known free plain fate

    compress_known-Fate :
        (m : Bytes) (o : Option LostFile) (s : Store)
        → lookup m s.files ≡ o
        → Fate n f s
        → Fate n f (compress_known system now days m o s)
    compress_known-Fate m none s known fate = fate
    compress_known-Fate m (some g) s known fate =
        if_cases (Fate n f)
          (g.is_dir || has_suffix m (codes ".zip") || not g.is_regular || not (is_older now days g))
          (λ _. fate)
          (λ eligible.
            unless_there-Fate m g (lookup (zip m) s.files) s known refl (ground (arith, eligible))
              fate)

    compress_files-Fate :
        (ms : List Bytes) (s : Store) → Fate n f s → Fate n f (compress_files system now days ms s)
    unfolding compress_files
    compress_files-Fate [] s fate = fate
    compress_files-Fate (m ∷ ms) s fate =
        compress_files-Fate ms (compress_file system now days m s)
          (compress_known-Fate m (lookup m s.files) s refl fate)

    delete_known-Fate :
        (m : Bytes) (o : Option LostFile) (s : Store)
        → Fate n f s
        → Fate n f (delete_known system now days m o s)
    delete_known-Fate m none s fate = fate
    delete_known-Fate m (some g) s fate =
        if_cases (Fate n f)
          (g.is_dir || not g.is_regular || not (is_older now days g) || not (system.can_delete m))
          (λ _. fate) (λ _. remove-Fate n f m was_deleted s refl fate)

    delete_files-Fate :
        (ms : List Bytes) (s : Store) → Fate n f s → Fate n f (delete_files system now days ms s)
    unfolding delete_files
    delete_files-Fate [] s fate = fate
    delete_files-Fate (m ∷ ms) s fate =
        delete_files-Fate ms (delete_file system now days m s)
          (delete_known-Fate m (lookup m s.files) s fate)

  evict_files-Fate :
      (system : System) (required : ℕ) (cs : List (Bytes × LostFile)) (s : Store)
      → Fate n f s
      → Fate n f (evict_files system required cs s)
  unfolding evict_files
  evict_files-Fate system required [] s fate = fate
  evict_files-Fate system required ((m, g) ∷ cs) s fate =
      let removed = remove-Fate n f m was_evicted s refl fate in
      if_cases (Fate n f) (not (system.can_evict m))
        (λ _. evict_files-Fate system required cs s fate)
        (λ _.
          if_cases (Fate n f)
            (is_enough required (system.free_bytes (remove_lost_event_file m was_evicted s)))
            (λ _. removed)
            (λ _.
              evict_files-Fate system required cs (remove_lost_event_file m was_evicted s) removed))

-- What is removed before the call counts as well.
reclaimed-Fate :
    (system : System) (retain : Retain) (required now : ℕ) (n : Bytes) (f : LostFile) (s : Store)
    → lookup n s.files ≡ some f
    → Fate n f (reclaim_lost_event_directory_space system retain required now s)
unfolding reclaim_lost_event_directory_space
reclaimed-Fate system retain required now n f s h =
    let deletion = delete_old_lost_event_files system now retain.delete_after_days s in
    let after_deletion : Fate n f deletion =
      if_cases (Fate n f) (retain.delete_after_days == 0 || not system.scans_to_delete)
        (λ _. kept h)
        (λ _. delete_files-Fate n f system now retain.delete_after_days (names s) s (kept h)) in
    let compression =
      compress_old_lost_event_files system now retain.compress_after_days deletion in
    let after_compression : Fate n f compression =
      if_cases (Fate n f) (retain.compress_after_days == 0 || not system.scans_to_compress)
        (λ _. after_deletion)
        (λ _.
          compress_files-Fate n f system now retain.compress_after_days (names deletion) deletion
            after_deletion) in
    if_cases (Fate n f) (required == 0) (λ _. kept h)
      (λ _.
        if_cases (Fate n f)
          (is_enough required (system.free_bytes compression) || not system.scans_to_evict)
          (λ _. after_compression)
          (λ _.
            evict_files-Fate n f system required (oldest_lost_event_files compression.files)
              compression after_compression))

-- Whatever the calls of the operating system come to, a file of the directory is, behind
-- reclaimLostEventDirectorySpace, still there as it was, or there as an archive of it under its name
-- and .zip, with its time and content, or it or a file of the name of its archive has been removed in
-- this call as deleted or evicted, and the removal has been reported.
pub reclaim-Fate :
    (system : System) (retain : Retain) (required now : ℕ) (n : Bytes) (f : LostFile)
    (files : List (Bytes × LostFile))
    → lookup n files ≡ some f
    → Fate n f (
        reclaim_lost_event_directory_space system retain required now
          (record { files = files; removals = [] }))
reclaim-Fate system retain required now n f files h =
    reclaimed-Fate system retain required now n f (record { files = files; removals = [] }) h
