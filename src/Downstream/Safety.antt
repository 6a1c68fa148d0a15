-- ===== src/Downstream/Safety.antt =====
-- handleUdpMessage of src/downstream/downstream.go goes on after every packet.
use air_gap.Downstream.Keys.{
  KeyDisk, KeyInfo, KeyFile, KeyReport, KeyUpdate, names_of, purged, rsa_of, der_of, is_loaded,
  load_key, load_files, read_private_keys, decrypted, tried, try_keys, found_key, read_new_key,
}
use air_gap.Common.Members.{any}
use air_gap.Common.Maps.{bytes_beq}
use air_gap.Common.Text.{codes}
use air_gap.Common.{
  Bytes, ℕ, ◌≤◌, ◌<◌, List, [], ◌∷◌, ◌≡◌, ◌≢◌, refl, Option, none, some, length, All, All_each,
  arith, Bool, if_cases, ltb, drop, ◌/◌, take, All-append,
}
use mathlib.Core.Path.{subst}
use air_gap.Protocol.Cache.{MessageCache}
use air_gap.Protocol.Parse.Totality.{IsSound, parse_message_returns}
use air_gap.Downstream.{Settings, State, Effect, running}
use air_gap.Downstream.Handling.{
  Handled, going, fatal, crashed, prepend, and_then, handle_udp_message, handle_all,
}
use air_gap.Downstream.Branches.{
  HoldsOfBranches, exchange_key-branch, handle_udp_message-branch, with_cache, IsRunRelation,
  handle_all-relation,
}

-- A key is there, and what it decrypts has eleven bytes at least.
abbrev pub YieldsLong : Option (Bytes → Option Bytes) → Type 0
YieldsLong none = ⊥
YieldsLong (some unwrap) = (payload text : Bytes) → unwrap payload ≡ some text → 11 ≤ length text

abbrev pub IsSoundKey : KeyInfo → Type 0
IsSoundKey info = YieldsLong info.private_key

-- Each file of the disk holds such a key.
abbrev pub AreSoundFiles : KeyDisk → Type 0
AreSoundFiles disk = All (λ f. YieldsLong (rsa_of (disk.parse (der_of disk f).0))) (names_of disk)

module _ (payload : Bytes) where
  decrypted-none :
      (file : Bytes) (unwrap : Bytes → Option Bytes) (o : Option Bytes)
      (rest : Option (Option (Bytes × Bytes)))
      → YieldsLong (some unwrap)
      → unwrap payload ≡ o
      → rest ≢ none
      → decrypted payload file o rest ≢ none
  decrypted-none file unwrap none rest long e h = h
  decrypted-none file unwrap (some text) rest long e h =
      if_cases (λ o. o ≢ none) (ltb (length text) 11)
        (λ short. absurd (ground (arith, long payload text e)))
        (λ _.
          if_cases (λ o. o ≢ none) (bytes_beq (take 11 text) (codes "KEY_UPDATE#")) (λ _. cc)
            (λ _. h))

  tried-none :
      (file : Bytes) (key : Option (Bytes → Option Bytes)) (rest : Option (Option (Bytes × Bytes)))
      → YieldsLong key
      → rest ≢ none
      → tried payload file key rest ≢ none
  tried-none file none rest long h = absurd long
  tried-none file (some unwrap) rest long h =
      decrypted-none file unwrap (unwrap payload) rest long refl h

  try_keys-none : (infos : List KeyInfo) → All IsSoundKey infos → try_keys payload infos ≢ none
  unfolding try_keys
  try_keys-none [] long = cc
  try_keys-none (info ∷ infos) long =
      tried-none info.private_key_filename info.private_key (try_keys payload infos) long.0
        (try_keys-none infos long.1)

purged-All :
    (files : List KeyFile) (infos : List KeyInfo)
    → All IsSoundKey infos
    → All IsSoundKey (purged files infos)
unfolding purged
purged-All files [] sound = tt
purged-All files (info ∷ infos) sound =
    if_cases (All IsSoundKey) (any (λ f. bytes_beq info.private_key_filename f.file_name) files)
      (λ _. (sound.0, purged-All files infos sound.1)) (λ _. purged-All files infos sound.1)

module _ (disk : KeyDisk) where
  load_files-All :
      (files : List KeyFile) (infos : List KeyInfo)
      → All (λ f. YieldsLong (rsa_of (disk.parse (der_of disk f).0))) files
      → All IsSoundKey infos
      → All IsSoundKey (load_files disk files infos).0
  unfolding load_files
  load_files-All [] infos sound_files sound = sound
  load_files-All (file ∷ files) infos sound_files sound =
      load_files-All files (load_key disk file infos) sound_files.1 (
        if_cases (All IsSoundKey) (is_loaded disk file infos) (λ _. sound)
          (λ _. All-append IsSoundKey infos _ sound (sound_files.0, tt)))

  read_private_keys-All :
      (infos : List KeyInfo)
      → AreSoundFiles disk
      → All IsSoundKey infos
      → All IsSoundKey (read_private_keys disk infos).0
  unfolding read_private_keys
  read_private_keys-All infos sound_files sound =
      load_files-All (names_of disk) (purged (names_of disk) infos) sound_files
        (purged-All (names_of disk) infos sound)

found_key-some :
    (key : Bytes) (read : List KeyInfo × List (ℕ × KeyReport)) (o : Option (Option (Bytes × Bytes)))
    → o ≢ none
    → found_key key read o ≢ none
found_key-some key read none h = absurd (h refl)
found_key-some key read (some none) h = cc
found_key-some key read (some (some found)) h = cc

read_new_key-none :
    (disk : KeyDisk) (key : Bytes) (infos : List KeyInfo) (message : Bytes)
    → AreSoundFiles disk
    → All IsSoundKey infos
    → read_new_key disk key infos message ≢ none
unfolding read_new_key
read_new_key-none disk key infos message sound_files sound =
    let read = read_private_keys disk infos in
    if_cases (λ o. o ≢ none) (ltb (length message) 11) (λ _. cc)
      (λ _. found_key-some key read (try_keys (drop 11 message) read.0) (
        try_keys-none (drop 11 message) read.0
          (read_private_keys-All disk infos sound_files sound)))

-- The keys in memory behind readNewKey are sound.
abbrev HoldsSound : Option KeyUpdate → Type 0
HoldsSound none = Unit
HoldsSound (some u) = All IsSoundKey u.key_infos

found_key-All :
    (key : Bytes) (read : List KeyInfo × List (ℕ × KeyReport)) (o : Option (Option (Bytes × Bytes)))
    → All IsSoundKey read.0
    → HoldsSound (found_key key read o)
found_key-All key read none sound = tt
found_key-All key read (some none) sound = sound
found_key-All key read (some (some found)) sound = sound

read_new_key-All :
    (disk : KeyDisk) (key : Bytes) (infos : List KeyInfo) (message : Bytes)
    → AreSoundFiles disk
    → All IsSoundKey infos
    → HoldsSound (read_new_key disk key infos message)
unfolding read_new_key
read_new_key-All disk key infos message sound_files sound =
    if_cases HoldsSound (ltb (length message) 11) (λ _. sound)
      (λ _.
        found_key-All key (read_private_keys disk infos)
          (try_keys (drop 11 message) (read_private_keys disk infos).0)
          (read_private_keys-All disk infos sound_files sound))

-- The cache is sound, its limit is as before, and the keys in memory are sound.
abbrev IsReady : ℕ → State → Type 0
IsReady limit s = IsSound s.cache × ((s.cache.max_nr_messages ≡ limit) × All IsSoundKey s.key_infos)

abbrev Survives : ℕ → State → Handled → Type 0
Survives limit s (going s' effects) = IsReady limit s → IsReady limit s'
Survives limit s fatal = Unit
Survives limit s crashed = IsReady limit s → ⊥

module _ (decrypt : Bytes → Bytes → Option Bytes) (gunzip : Bytes → Option (Bytes × Bool))
    (keys : KeyDisk) (config : Settings) (limit : ℕ) where
  handle_udp_message-Survives :
      (md5_hex : Bytes → Bytes) (s : State) (now : ℕ) (msg : Bytes)
      → AreSoundFiles keys
      → limit < 65535
      → IsReady limit s
      → Survives limit s (handle_udp_message decrypt gunzip keys config md5_hex s now msg)
  handle_udp_message-Survives md5_hex s now msg long few ready =
      let (r', c', e', sound, same) =
        parse_message_returns md5_hex s.cache (now / 1000000) ready.0 (omega (arith, ready.1.0))
          msg in
      handle_udp_message-branch decrypt gunzip keys config (Survives limit s) s now md5_hex msg
        (λ r. r)
        (record {
          ends = λ e. absurd (cc (e, e'));
          loops = λ e. absurd (cc (e, e'));
          rejected =
              λ er c e. keeps c (subst IsSound (cc (e, e')) sound) (cc (e, e', same, ready.1.0));
          received =
              λ r c e. branches c (subst IsSound (cc (e, e')) sound) (cc (e, e', same, ready.1.0));
        })
    where
      keeps :
          (c : MessageCache)
          → IsSound c
          → c.max_nr_messages ≡ limit
          → IsReady limit s
          → IsSound c × ((c.max_nr_messages ≡ limit) × All IsSoundKey s.key_infos)
      keeps c sound same r = (sound, (same, r.1.1))

      branches :
          (c : MessageCache)
          → IsSound c
          → c.max_nr_messages ≡ limit
          → HoldsOfBranches decrypt gunzip keys config
              (Survives limit s)
              (with_cache decrypt gunzip keys config s c running)
              now
      branches c sound same = record {
        report = λ t id body. keeps c sound same;
        silent = keeps c sound same;
        write = λ id topic n payload. keeps c sound same;
        out_of_range = tt;
        exchange = λ payload.
            exchange_key-branch decrypt gunzip keys config (Survives limit s)
              (with_cache decrypt gunzip keys config s c running) now payload
              (λ _. keeps c sound same)
              (λ e. λ r. read_new_key-none keys s.key s.key_infos payload long r.1.1 e)
              (λ late u e r. (
                sound,
                (
                  same,
                  subst HoldsSound e (read_new_key-All keys s.key s.key_infos payload long r.1.1),
                ),
              ));
      }

Survives-ready :
    (limit : ℕ) (s : State) (h : Handled)
    → (IsReady limit s → Survives limit s h)
    → Survives limit s h
Survives-ready limit s (going s' effects) f = λ r. f r r
Survives-ready limit s fatal f = tt
Survives-ready limit s crashed f = λ r. f r r

Survives-relation :
    (decrypt : Bytes → Bytes → Option Bytes) (gunzip : Bytes → Option (Bytes × Bool))
    (keys : KeyDisk) (config : Settings) (limit : ℕ)
    → IsRunRelation decrypt gunzip keys config (Survives limit)
Survives-relation decrypt gunzip keys config limit = record { start = λ s r. r; compose = next }
  where
    after_prefix :
        (s s' : State) (effects : List Effect) (h : Handled)
        → (IsReady limit s → IsReady limit s')
        → Survives limit s' h
        → Survives limit s (prepend effects h)
    after_prefix s s' effects fatal c rest = tt
    after_prefix s s' effects crashed c rest = λ r. rest (c r)
    after_prefix s s' effects (going s'' more) c rest = λ r. rest (c r)

    next :
        (s : State) (h : Handled) (k : State → Handled)
        → Survives limit s h
        → ((s' : State) → Survives limit s' (k s'))
        → Survives limit s (and_then h k)
    next s fatal k c rest = tt
    next s crashed k c rest = c
    next s (going s' effects) k c rest = after_prefix s s' effects (k s') c (rest s')

-- The receiver never fails with a slice or an index out of range, or with a nil key, and never hangs,
-- whatever packets arrive, if the limit of parts is below 65535, the cache is sound at the start,
-- each key in memory and in the files of the glob is an RSA key, and every text that such a key
-- decrypts has eleven bytes at least.
pub never_crashes :
    (decrypt : Bytes → Bytes → Option Bytes) (gunzip : Bytes → Option (Bytes × Bool))
    (keys : KeyDisk) (config : Settings) (md5_hex : Bytes → Bytes) (packets : List (ℕ × Bytes))
    (s : State)
    → AreSoundFiles keys
    → All IsSoundKey s.key_infos
    → s.cache.max_nr_messages < 65535
    → IsSound s.cache
    → handle_all decrypt gunzip keys config md5_hex s packets ≢ crashed
never_crashes decrypt gunzip keys config md5_hex packets s long infos few sound e =
    let limit = s.cache.max_nr_messages in
    let survives : Survives limit s crashed = subst (Survives limit s) e (
      handle_all-relation decrypt gunzip keys config (Survives limit) md5_hex
        (Survives-relation decrypt gunzip keys config limit) packets
        (All_each _ packets (λ p s. Survives-ready limit s _ (
          handle_udp_message-Survives decrypt gunzip keys config limit md5_hex s p.0 p.1 long few)))
        s) in
    survives (sound, (refl, infos))
