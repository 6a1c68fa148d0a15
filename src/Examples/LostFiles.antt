-- ===== src/Examples/LostFiles.antt =====
-- The directory of lost events of src/upstream/ale.go with an old file and a new one.
use Prim.Native.Nat.{ℕ}
use air_gap.Common.{Bytes, ℕ, ◌≡◌, refl, [], ◌∷◌, map, true, false, some}
use air_gap.Common.Maps.{bytes_eq, lookup, insert, delete, bytes_beq}
use air_gap.Common.Text.{is_before_name, codes, has_suffix}
use air_gap.Upstream.LostEvents.{
  LostFile, payload, Store, renamed, System, Retain, reclaim_lost_event_directory_space,
  delete_files, compress_files, evict_files, oldest_lost_event_files, insert_candidate,
  remove_lost_event_file,
}
use air_gap.Upstream.LostEvents.Fates.{Fate}
use air_gap.Upstream.LostEvents.Retention.{reclaim-Fate}
use air_gap.Upstream.LostEvents.Writing.{lost_event_file_name, safe_from, continues}

abbrev file : ℕ → Bytes → LostFile
file time content = record {
  is_dir = false;
  is_regular = true;
  mod_time = time;
  content = payload content;
}

abbrev two_files : Store
two_files = record {
  files =
      (codes "old.bin", file 0 (codes "lost")) ∷ (codes "new.bin", file 100 (codes "late")) ∷ [];
  removals = [];
}

abbrev working : System
working = record {
  scans_to_delete = true;
  scans_to_compress = true;
  scans_to_evict = true;
  archiving = λ name. renamed true;
  can_delete = λ name. true;
  can_evict = λ name. true;
  free_bytes = λ s. some 100;
}

abbrev month : Retain
month = record { compress_after_days = 1; delete_after_days = 30 }

abbrev reclaimed : Store
reclaimed = reclaim_lost_event_directory_space working month 1500 86400000000050 two_files

reclaim-Fate_example : Fate (codes "old.bin") (file 0 (codes "lost")) reclaimed
unfolding lookup bytes_beq
reclaim-Fate_example =
    reclaim-Fate working month 1500 86400000000050 (codes "old.bin") (file 0 (codes "lost"))
      two_files.files refl

-- Every file has to go, since the space stays short.
all_evicted :
    map (λ r. r.0) reclaimed.removals ≡ codes "new.bin" ∷ codes "old.bin.zip" ∷ codes "old.bin" ∷ []
unfolding reclaim_lost_event_directory_space delete_files compress_files evict_files
    oldest_lost_event_files insert_candidate remove_lost_event_file lookup insert delete bytes_beq
    has_suffix is_before_name
all_evicted = refl

safe_name : lost_event_file_name (195 ∷ 164 ∷ 47 ∷ 164 ∷ codes "a.b") ≡ codes "___a.b"
unfolding safe_from continues
safe_name = refl
