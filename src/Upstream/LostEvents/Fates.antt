-- ===== src/Upstream/LostEvents/Fates.antt =====
-- src/upstream/ale.go: what one removal and one archive do to a file of the directory of
-- lost events.
use mathlib.Core.Path.{subst}
use air_gap.Common.{
  Bytes, ◌≡◌, refl, sym, ap, ◌∙◌, [], ◌∷◌, Bool, true, false, ◌&&◌, none, some, if◌then◌else◌,
  Bool-cases, inl, inr, arith,
}
use air_gap.Common.Members.{any}
use air_gap.Common.Maps.{
  lookup, insert, bytes_eq, bytes_beq, bytes_beq_iff, lookup-insert, lookup-delete, beq_refl,
}
use air_gap.Common.Text.{codes, has_suffix}
use air_gap.Upstream.LostEvents.{
  LostFile, Action, was_compressed, was_deleted, was_evicted, write_failed, Store,
  remove_lost_event_file, zip, archive_of,
}

abbrev pub is_final : Action → Bool
is_final was_compressed = false
is_final was_deleted = true
is_final was_evicted = true
is_final write_failed = true

-- The removal of a file for good has been reported.
abbrev pub is_gone : Bytes → Store → Bool
is_gone name s = any (λ r. bytes_beq r.0 name && is_final r.1) s.removals

-- What can become of a file: it is kept, or its archive is there with its time, or it or its archive
-- has been removed with a report.
pub data Fate (name : Bytes) (f : LostFile) (s : Store) : Type 0 where
  kept : lookup name s.files ≡ some f → Fate name f s
  in_archive : lookup (zip name) s.files ≡ some (archive_of name f) → Fate name f s
  gone : is_gone name s ≡ true → Fate name f s
  archive_gone : is_gone (zip name) s ≡ true → Fate name f s

has_suffix-zip : (name : Bytes) → has_suffix (zip name) (codes ".zip") ≡ true
unfolding has_suffix bytes_beq
has_suffix-zip [] = refl
has_suffix-zip (b ∷ name) = ground (arith, has_suffix-zip name)

is_gone-remove :
    (name m : Bytes) (action : Action) (s : Store)
    → is_gone name s ≡ true
    → is_gone name (remove_lost_event_file m action s) ≡ true
unfolding remove_lost_event_file any
is_gone-remove name m action s h = ground arith

gone_now :
    (m : Bytes) (action : Action) (s : Store)
    → is_final action ≡ true
    → is_gone m (remove_lost_event_file m action s) ≡ true
unfolding remove_lost_event_file any
gone_now m action s final = ground (arith, beq_refl {K = Bytes} m)

module _ (n : Bytes) (f : LostFile) where
  lookup-remove :
      (k m : Bytes) (action : Action) (s : Store)
      → bytes_beq m k ≡ false
      → lookup k (remove_lost_event_file m action s).files ≡ lookup k s.files
  unfolding remove_lost_event_file
  lookup-remove k m action s other =
      lookup-delete m k s.files ∙ ap (λ b. if b then none else lookup k s.files) other

  pub remove-Fate :
      (m : Bytes) (action : Action) (s : Store)
      → is_final action ≡ true
      → Fate n f s
      → Fate n f (remove_lost_event_file m action s)
  remove-Fate m action s final (kept h) = elim (Bool-cases (bytes_beq m n)) [
    | inl same ↦ gone (
        subst (λ k. is_gone k (remove_lost_event_file m action s) ≡ true)
          ((bytes_beq_iff m n).0 same) (gone_now m action s final))
    | inr other ↦ kept (lookup-remove n m action s other ∙ h)
  ]
  remove-Fate m action s final (in_archive h) = elim (Bool-cases (bytes_beq m (zip n))) [
    | inl same ↦ archive_gone (
        subst (λ k. is_gone k (remove_lost_event_file m action s) ≡ true)
          ((bytes_beq_iff m (zip n)).0 same) (gone_now m action s final))
    | inr other ↦ in_archive (lookup-remove (zip n) m action s other ∙ h)
  ]
  remove-Fate m action s final (gone h) = gone (is_gone-remove n m action s h)
  remove-Fate m action s final (archive_gone h) = archive_gone (is_gone-remove (zip n) m action s h)

  -- Another name is looked up past a new archive.
  abbrev pub with_archive : Bytes → LostFile → Store → Store
  with_archive m g s = record s { files = insert (zip m) (archive_of m g) s.files }

  lookup-with_archive :
      (k m : Bytes) (g h : LostFile) (s : Store)
      → lookup (zip m) s.files ≡ none
      → lookup k s.files ≡ some h
      → lookup k (with_archive m g s).files ≡ some h
  lookup-with_archive k m g h s free there = elim (Bool-cases (bytes_beq (zip m) k)) [
    | inl same ↦
        let clash : none ≡ some h =
          sym free ∙ ap (λ j. lookup j s.files) ((bytes_beq_iff (zip m) k).0 same) ∙ there in
        cc
    | inr other ↦
        lookup-insert (zip m) k (archive_of m g) s.files
        ∙ ap (λ b. if b then some (archive_of m g) else lookup k s.files) other
        ∙ there
  ]

  pub with_archive-Fate :
      (m : Bytes) (g : LostFile) (s : Store)
      → lookup (zip m) s.files ≡ none
      → Fate n f s
      → Fate n f (with_archive m g s)
  with_archive-Fate m g s free (kept h) = kept (lookup-with_archive n m g f s free h)
  with_archive-Fate m g s free (in_archive h) =
      in_archive (lookup-with_archive (zip n) m g (archive_of n f) s free h)
  with_archive-Fate m g s free (gone h) = gone h
  with_archive-Fate m g s free (archive_gone h) = archive_gone h

  -- A file that is no archive has another name than an archive.
  not_zip : (m k : Bytes) → has_suffix m (codes ".zip") ≡ false → bytes_beq m (zip k) ≡ false
  not_zip m k plain = elim (Bool-cases (bytes_beq m (zip k))) [
    | inl same ↦
        let clash : false ≡ true =
          sym plain
          ∙ ap (λ t. has_suffix t (codes ".zip")) ((bytes_beq_iff m (zip k)).0 same)
          ∙ has_suffix-zip k in
        cc
    | inr other ↦ other
  ]

  own_archive :
      (m : Bytes) (g : LostFile) (s : Store)
      → has_suffix m (codes ".zip") ≡ false
      → lookup (zip m) (remove_lost_event_file m was_compressed (with_archive m g s)).files
        ≡ some (archive_of m g)
  own_archive m g s plain =
      lookup-remove (zip m) m was_compressed (with_archive m g s) (not_zip m m plain)
      ∙ lookup-insert (zip m) (zip m) (archive_of m g) s.files
      ∙ ap (λ b. if b then some (archive_of m g) else lookup (zip m) s.files)
          (beq_refl {K = Bytes} (zip m))

  pub replaced-Fate :
      (m : Bytes) (g : LostFile) (s : Store)
      → lookup m s.files ≡ some g
      → lookup (zip m) s.files ≡ none
      → has_suffix m (codes ".zip") ≡ false
      → Fate n f s
      → Fate n f (remove_lost_event_file m was_compressed (with_archive m g s))
  replaced-Fate m g s known free plain (kept h) = elim (Bool-cases (bytes_beq m n)) [
    | inl same ↦
        let name : m ≡ n = (bytes_beq_iff m n).0 same in
        let now_there = remove_lost_event_file m was_compressed (with_archive m g s) in
        let file : some g ≡ some f = sym known ∙ ap (λ k. lookup k s.files) name ∙ h in
        let content : g ≡ f = cc in
        in_archive (
          subst (λ k. lookup (zip k) now_there.files ≡ some (archive_of k g)) name
            (own_archive m g s plain)
          ∙ ap (λ x. some (archive_of n x)) content)
    | inr other ↦ kept (
        lookup-remove n m was_compressed (with_archive m g s) other
        ∙ lookup-with_archive n m g f s free h)
  ]
  replaced-Fate m g s known free plain (in_archive h) = in_archive (
      lookup-remove (zip n) m was_compressed (with_archive m g s) (not_zip m n plain)
      ∙ lookup-with_archive (zip n) m g (archive_of n f) s free h)
  replaced-Fate m g s known free plain (gone h) =
      gone (is_gone-remove n m was_compressed (with_archive m g s) h)
  replaced-Fate m g s known free plain (archive_gone h) =
      archive_gone (is_gone-remove (zip n) m was_compressed (with_archive m g s) h)
