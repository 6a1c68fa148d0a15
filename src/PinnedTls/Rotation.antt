-- ===== src/PinnedTls/Rotation.antt =====
-- src/internal/pinnedtls/rotation_store.go: CommitRotation. What the disk answers at each read and
-- write is a parameter, as is verifyRotation with its signatures; the writes that were made are kept
-- in their order. readRecords gives only sound records, loadTrust only entries under their keys.
pub mod Adding
pub mod Compatible
pub mod Client
pub mod Completing
pub mod Exchange
pub mod OneUse
pub mod Wire
use air_gap.Common.{
  Bytes, ℕ, List, [], ◌∷◌, ◌++◌, Bool, true, false, Option, none, some, not, ◌&&◌, ◌||◌, ◌==◌, ◌+◌,
  leb, length, if◌then◌else◌, ◌⊎◌, ◌-◌, inl, inr,
}
use air_gap.Common.Maps.{bytes_eq, lookup, insert, bytes_beq}
use air_gap.PinnedTls.{Entry, Pins, Manager, is_of}
use air_gap.PinnedTls.Aging.{exclude_aged}

pub data RecordState : Type 0 where
  intent committed : RecordState

pub record RotationRecord : Type 0 where
  pub id : Bytes
  pub peer : Bytes
  pub old : Bytes
  pub new : Bytes
  pub state : RecordState

-- The kinds of messages; a challenge that has been used is consumed, and a session begins with none.
pub data Kind : Type 0 where
  no_kind begin_kind challenge_kind request_kind accepted_kind rejected_kind consumed_kind : Kind

-- RotationMessage, whose version is 1
pub record RotationMessage : Type 0 where
  pub kind : Kind
  pub id : Bytes
  pub old : Bytes
  pub new : Bytes
  pub peer : Bytes
  pub nonce : Bytes
  pub public : Bytes
  pub reason : Bytes
  pub proof : Bytes

pub data CommitError : Type 0 where
  invalid_request old_not_authorized journal_unreadable conflicting_id replacement_pending :
      CommitError
  old_key_used trust_unreadable old_key_removed aged_out other_peer replacement_absent : CommitError
  automatic_disabled directory_changed capacity_reached journal_full intent_not_persisted :
      CommitError
  entry_not_installed replacement_missing commit_not_persisted : CommitError

pub data Write : Type 0 where
  journal : List RotationRecord → Write
  install : Bytes → Entry → Write

-- What the disk answers: the journal, the trusted keys at both reads, and which writes succeed
pub record Disk : Type 0 where
  pub records : Option (List RotationRecord)
  pub trust : Option Pins
  pub trust_again : Option Pins
  pub persists_intent : Bool
  pub installs : Bool
  pub persists_commit : Bool

pub record Committing : Type 0 where
  pub error : Option CommitError
  pub writes : List Write
  pub manager : Manager

abbrev pub is_known {ℓ} : {A : Type ℓ} → Option A → Bool
is_known none = false
is_known (some x) = true

abbrev pub is_intent : RecordState → Bool
is_intent intent = true
is_intent committed = false

-- compatibleRotationPins: both loops
unfoldable pub keeps_active : Bytes → Pins → Pins → Bool
keeps_active replacement disk [] = true
keeps_active replacement disk ((fp, entry) ∷ active) =
    (bytes_beq fp replacement || is_of entry.peer (lookup fp disk))
    && keeps_active replacement disk active

unfoldable pub adds_nothing : Bytes → Pins → Pins → Bool
adds_nothing replacement active [] = true
adds_nothing replacement active ((fp, entry) ∷ disk) =
    (bytes_beq fp replacement || is_known (lookup fp active))
    && adds_nothing replacement active disk

abbrev pub are_compatible : Pins → Pins → Bytes → Bool
are_compatible active disk replacement =
    keeps_active replacement disk active && adds_nothing replacement active disk

unfoldable pub commit_at : ℕ → List RotationRecord → List RotationRecord
commit_at i [] = []
commit_at i (r ∷ records) =
    let rest = commit_at (i - 1) records in
    if i == 0 then record r { state = committed } ∷ records else r ∷ rest

-- m.lastUse of the new key, if it has none
abbrev pub first_use : Bytes → ℕ → Bool → Manager → Manager
first_use fp now true n = n
first_use fp now false n = record n { last_use = insert fp now n.last_use }

module _ (message : RotationMessage) where
  -- Go's record is the message itself in every field.
  abbrev pub is_same_record : RotationRecord → Bool
  is_same_record r =
      bytes_beq r.peer message.peer && bytes_beq r.old message.old && bytes_beq r.new message.new

  -- The loop over the records, from this place and with the index found before
  unfoldable pub find_record : ℕ → Option ℕ → List RotationRecord → CommitError ⊎ Option ℕ
  find_record i index [] = inr index
  find_record i index (r ∷ records) =
      let found = find_record (i + 1) (some i) records in
      let rest = find_record (i + 1) index records in
      if bytes_beq r.id message.id
      then if is_same_record r then found else inl conflicting_id
      else if bytes_beq r.peer message.peer && is_intent r.state
      then inl replacement_pending
      else if bytes_beq r.old message.old && not (bytes_beq r.new message.new)
      then inl old_key_used
      else rest

  abbrev pub intent_record : RotationRecord
  intent_record = record {
    id = message.id;
    peer = message.peer;
    old = message.old;
    new = message.new;
    state = intent;
  }

  module _ (disk : Disk) (automatic : Bool) (now : ℕ) (entry : Entry) (m : Manager) where
    abbrev pub stopped_with : CommitError → List Write → Committing
    stopped_with e writes = record { error = some e; writes = writes; manager = m }

    -- From the second loadTrust on
    abbrev pub activate_replacement :
        List Write → List RotationRecord → ℕ → Option Pins → Committing
    activate_replacement writes records index none = stopped_with trust_unreadable writes
    activate_replacement writes records index (some trusted) =
        let pins = exclude_aged m.aged trusted in
        if not (are_compatible m.pins pins message.new)
        then stopped_with directory_changed writes
        else if not (is_of message.peer (lookup message.new pins))
        then stopped_with replacement_missing writes
        else if not disk.persists_commit
        then stopped_with commit_not_persisted writes
        else record {
          error = none;
          writes = writes ++ (journal (commit_at index records) ∷ []);
          manager =
              first_use message.new now (is_known (lookup message.new m.last_use))
                (record m { pins = pins });
        }

    -- installPublicEntry, where the key is not there
    abbrev pub install_replacement : Bool → List Write → List RotationRecord → ℕ → Committing
    install_replacement true writes records index =
        activate_replacement writes records index disk.trust_again
    install_replacement false writes records index =
        if disk.installs
        then activate_replacement (writes ++ (install message.id entry ∷ [])) records index
            disk.trust_again
        else stopped_with entry_not_installed writes

    abbrev pub record_intent : Bool → List RotationRecord → Option ℕ → Committing
    record_intent exists records (some index) = install_replacement exists [] records index
    record_intent exists records none =
        let records' = records ++ (intent_record ∷ []) in
        if leb 2000 (length records)
        then stopped_with journal_full []
        else if not disk.persists_intent
        then stopped_with intent_not_persisted []
        else install_replacement exists (journal records' ∷ []) records' (length records)

    -- The checks of the first loadTrust, in their order
    abbrev pub trust_refusal : Option ℕ → Pins → Option CommitError
    trust_refusal index trusted =
        let next = lookup message.new trusted in
        if not (is_of message.peer (lookup message.old trusted))
        then some old_key_removed
        else if is_known (lookup message.new m.aged)
        then some aged_out
        else if is_known next && not (is_of message.peer next)
        then some other_peer
        else if is_known index && not (is_known next)
        then some replacement_absent
        else if not (is_known (lookup message.new m.pins)) && not automatic && not (is_known index)
        then some automatic_disabled
        else if not (are_compatible m.pins (exclude_aged m.aged trusted) message.new)
        then some directory_changed
        else if not (is_known next) && leb 2000 (length trusted)
        then some capacity_reached
        else none

    abbrev pub unless_refused : Option CommitError → Committing → Committing
    unless_refused none c = c
    unless_refused (some e) c = stopped_with e []

    abbrev pub check_trust : List RotationRecord → Option ℕ → Option Pins → Committing
    check_trust records index none = stopped_with trust_unreadable []
    check_trust records index (some trusted) =
        unless_refused (trust_refusal index trusted)
          (record_intent (is_known (lookup message.new trusted)) records index)

    abbrev pub with_index : List RotationRecord → CommitError ⊎ Option ℕ → Committing
    with_index records (inl e) = stopped_with e []
    with_index records (inr index) = check_trust records index disk.trust

    abbrev pub check_journal : Option (List RotationRecord) → Committing
    check_journal none = stopped_with journal_unreadable []
    check_journal (some records) = with_index records (find_record 0 none records)

    abbrev pub commit_verified : Committing
    commit_verified =
        if not (is_of message.peer (lookup message.old m.pins))
        then stopped_with old_not_authorized []
        else check_journal disk.records

-- CommitRotation, behind verifyRotation
unfoldable pub commit_rotation :
    (RotationMessage → Option Entry) → RotationMessage → Disk → Bool → ℕ → Manager → Committing
commit_rotation verify message disk automatic now m = elim (verify message) [
  | none ↦ record { error = some invalid_request; writes = []; manager = m }
  | some entry ↦ commit_verified message disk automatic now entry m
]
