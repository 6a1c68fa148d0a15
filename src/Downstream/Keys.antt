-- ===== src/Downstream/Keys.antt =====
-- src/downstream/communication.go: readPrivateKeys and readNewKey. The files that the glob names, the
-- base64 and PKCS8 parsers, RSA and the hash are parameters; texts of errors are left out, and a
-- report is its type and its kind. None is a panic.
use air_gap.Common.{
  Bytes, ℕ, List, [], ◌∷◌, ◌++◌, Bool, false, not, ◌&&◌, Option, none, some, length, take, drop,
  ltb, if◌then◌else◌,
}
use air_gap.Common.Members.{any}
use air_gap.Common.Maps.{bytes_beq}
use air_gap.Common.Text.{codes, has_prefix}
use air_gap.Protocol.Types.{type_error, type_status}

-- A key in memory; none is a nil *rsa.PrivateKey.
pub record KeyInfo : Type 0 where
  pub private_key : Option (Bytes → Option Bytes)
  pub private_key_filename : Bytes
  pub private_key_hash : Bytes

-- What ParsePKCS8PrivateKey gives: an error, a key that is not RSA, or what an RSA key decrypts.
pub data ParsedKey : Type 0 where
  not_parsed other_key : ParsedKey
  rsa_key : (Bytes → Option Bytes) → ParsedKey

-- A file; one that cannot be opened has no lines.
pub record KeyFile : Type 0 where
  pub file_name : Bytes
  pub is_readable : Bool
  pub lines : List Bytes

pub record KeyDisk : Type 0 where
  pub glob_fails : Bool
  pub files : List KeyFile
  pub decode64 : Bytes → Bytes × Bool
  pub hash : Bytes → Bytes
  pub parse : Bytes → ParsedKey

-- What the reports say
pub data KeyReport : Type 0 where
  cannot_glob cannot_decode cannot_parse not_rsa cannot_decrypt_key : KeyReport
  cannot_read already_loaded loaded got_key : Bytes → KeyReport

abbrev pub names_of : KeyDisk → List KeyFile
names_of disk = if disk.glob_fails then [] else disk.files

unfoldable pub purged : List KeyFile → List KeyInfo → List KeyInfo
purged files [] = []
purged files (info ∷ infos) =
    let rest = purged files infos in
    if any (λ f. bytes_beq info.private_key_filename f.file_name) files then info ∷ rest else rest

-- The lines between the marks
unfoldable pub armored : Bool → List Bytes → Bytes
armored in_file [] = []
armored in_file (line ∷ lines) =
    let is_mark = has_prefix line (codes "-----") in
    let rest = armored (if is_mark then not in_file else in_file) lines in
    if not is_mark && in_file then line ++ rest else rest

unfoldable pub loaded_already : Bytes → List KeyInfo → List (ℕ × KeyReport)
loaded_already hash [] = []
loaded_already hash (info ∷ infos) =
    let rest = loaded_already hash infos in
    if bytes_beq info.private_key_hash hash
    then (type_error, already_loaded info.private_key_filename) ∷ rest
    else rest

abbrev pub parse_reports : ParsedKey → List (ℕ × KeyReport)
parse_reports not_parsed = (type_error, cannot_parse) ∷ ((type_error, not_rsa) ∷ [])
parse_reports other_key = (type_error, not_rsa) ∷ []
parse_reports (rsa_key unwrap) = []

abbrev pub rsa_of : ParsedKey → Option (Bytes → Option Bytes)
rsa_of not_parsed = none
rsa_of other_key = none
rsa_of (rsa_key unwrap) = some unwrap

module _ (disk : KeyDisk) where
  abbrev pub der_of : KeyFile → Bytes × Bool
  der_of file = disk.decode64 (armored false file.lines)

  abbrev pub is_loaded : KeyFile → List KeyInfo → Bool
  is_loaded file infos = any (λ i. bytes_beq i.private_key_hash (disk.hash (der_of file).0)) infos

  abbrev pub load_key : KeyFile → List KeyInfo → List KeyInfo
  load_key file infos =
      if is_loaded file infos
      then infos
      else infos
        ++ (record {
          private_key = rsa_of (disk.parse (der_of file).0);
          private_key_filename = file.file_name;
          private_key_hash = disk.hash (der_of file).0;
        }
            ∷ [])

  abbrev pub load_reports : KeyFile → List KeyInfo → List (ℕ × KeyReport)
  load_reports file infos =
      (if file.is_readable then [] else (type_error, cannot_read file.file_name) ∷ [])
      ++ ((if (der_of file).1 then [] else (type_error, cannot_decode) ∷ [])
          ++ (loaded_already (disk.hash (der_of file).0) infos
              ++ (parse_reports (disk.parse (der_of file).0)
                  ++ (if is_loaded file infos
                      then []
                      else (type_status, loaded file.file_name) ∷ []))))

  -- The loop over the files
  unfoldable pub load_files : List KeyFile → List KeyInfo → List KeyInfo × List (ℕ × KeyReport)
  load_files [] infos = (infos, [])
  load_files (file ∷ files) infos =
      let rest = load_files files (load_key file infos) in
      (rest.0, load_reports file infos ++ rest.1)

  -- readPrivateKeys
  unfoldable pub read_private_keys : List KeyInfo → List KeyInfo × List (ℕ × KeyReport)
  read_private_keys infos =
      let loaded = load_files (names_of disk) (purged (names_of disk) infos) in
      (loaded.0, (if disk.glob_fails then (type_error, cannot_glob) ∷ [] else []) ++ loaded.1)

-- What readNewKey comes to: the key and the keys in memory, the text it returns, and its reports
pub record KeyUpdate : Type 0 where
  pub key : Bytes
  pub key_infos : List KeyInfo
  pub file : Bytes
  pub reports : List (ℕ × KeyReport)

-- A key that decrypts the message: its file, and the new key
module _ (payload : Bytes) where
  abbrev pub checked :
      Bytes → Bytes → Option (Option (Bytes × Bytes)) → Option (Option (Bytes × Bytes))
  checked file decrypted rest =
      if ltb (length decrypted) 11
      then none
      else if bytes_beq (take 11 decrypted) (codes "KEY_UPDATE#")
      then some (some (file, drop 11 decrypted))
      else rest

  abbrev pub decrypted :
      Bytes → Option Bytes → Option (Option (Bytes × Bytes)) → Option (Option (Bytes × Bytes))
  decrypted file none rest = rest
  decrypted file (some text) rest = checked file text rest

  -- DecryptOAEP panics with a nil key.
  abbrev pub tried :
      Bytes
      → Option (Bytes → Option Bytes)
      → Option (Option (Bytes × Bytes))
      → Option (Option (Bytes × Bytes))
  tried file none rest = none
  tried file (some unwrap) rest = decrypted file (unwrap payload) rest

  unfoldable pub try_keys : List KeyInfo → Option (Option (Bytes × Bytes))
  try_keys [] = some none
  try_keys (info ∷ infos) = tried info.private_key_filename info.private_key (try_keys infos)

abbrev pub found_key :
    Bytes → List KeyInfo × List (ℕ × KeyReport) → Option (Option (Bytes × Bytes)) → Option KeyUpdate
found_key key (infos, reports) none = none
found_key key (infos, reports) (some none) = some (record {
  key = key;
  key_infos = infos;
  file = codes "ERROR: No key found that can decrypt the new symmetric key";
  reports = reports ++ ((type_error, cannot_decrypt_key) ∷ []);
})
found_key key (infos, reports) (some (some (file, new))) = some (record {
  key = new;
  key_infos = infos;
  file = file;
  reports = reports ++ ((type_status, got_key file) ∷ []);
})

-- readNewKey
unfoldable pub read_new_key : KeyDisk → Bytes → List KeyInfo → Bytes → Option KeyUpdate
read_new_key disk key infos message =
    let read = read_private_keys disk infos in
    if ltb (length message) 11
    then some (record {
      key = key;
      key_infos = infos;
      file = codes "Message length for the new key";
      reports = [];
    })
    else found_key key read (try_keys (drop 11 message) read.0)
