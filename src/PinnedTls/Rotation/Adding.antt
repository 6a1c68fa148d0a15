-- ===== src/PinnedTls/Rotation/Adding.antt =====
-- src/internal/pinnedtls/rotation_store.go: a rotation adds its one key and changes no other.
use air_gap.Common.{
  Bytes, ℕ, ◌≡◌, refl, List, [], ◌∷◌, Bool, true, false, Option, none, some, not, if◌then◌else◌,
  if_cases, Bool-cases, inl, inr, arith, ap, sym, ◌∙◌, ◌⊎◌, ◌++◌, leb, length,
}
use air_gap.Common.Maps.{bytes_eq, lookup, bytes_beq, bytes_beq_iff}
use air_gap.PinnedTls.{Entry, Pins, Manager, is_of}
use air_gap.PinnedTls.Aging.{exclude_aged}
use air_gap.PinnedTls.Rotation.{
  RotationRecord, RotationMessage, CommitError, Write, Disk, Committing, is_known, are_compatible,
  first_use, activate_replacement, install_replacement, record_intent, check_trust, with_index,
  check_journal, find_record, commit_verified, commit_rotation, invalid_request, stopped_with,
  directory_changed, replacement_missing, intent_record, install, old_not_authorized,
  commit_not_persisted, journal_full, intent_not_persisted, journal, trust_refusal, unless_refused,
}
use air_gap.PinnedTls.Rotation.Compatible.{peer_of, peer_at, peer_of-is_of, compatible_peers}

-- The old key was pinned for the peer, and the new key is; every other key is pinned for whom it was,
-- and the sessions are the same.
pub record Adds (message : RotationMessage) (before behind : Manager) : Type 0 where
  pub peers :
      (fp : Bytes)
      → peer_at fp behind
        ≡ (if bytes_beq fp message.new then some message.peer else peer_at fp before)
  pub same_peer : peer_at message.old before ≡ some message.peer
  pub sessions : behind.sessions ≡ before.sessions

-- The manager is as it was and there is an error, or the key has been added without one.
pub data IsSafe (message : RotationMessage) (m : Manager) (c : Committing) : Type 0 where
  unchanged : is_known c.error ≡ true → c.manager ≡ m → IsSafe message m c
  added : c.error ≡ none → Adds message m c.manager → IsSafe message m c

replaced_peers :
    (message : RotationMessage) (m : Manager) (pins : Pins) (fp : Bytes)
    → are_compatible m.pins pins message.new ≡ true
    → is_of message.peer (lookup message.new pins) ≡ true
    → peer_of (lookup fp pins)
      ≡ (if bytes_beq fp message.new then some message.peer else peer_at fp m)
replaced_peers message m pins fp compatible pinned = elim (Bool-cases (bytes_beq fp message.new)) [
  | inl same ↦
      ap (λ k. peer_of (lookup k pins)) ((bytes_beq_iff fp message.new).0 same)
      ∙ peer_of-is_of message.peer (lookup message.new pins) pinned
      ∙ sym (ap (λ b. if b then some message.peer else peer_at fp m) same)
  | inr other ↦
      compatible_peers message.new m.pins pins fp (lookup fp m.pins) (lookup fp pins) compatible
        other refl refl
      ∙ sym (ap (λ b. if b then some message.peer else peer_at fp m) other)
]

first_use-Adds :
    (message : RotationMessage) (now : ℕ) (m : Manager) (pins : Pins) (is_used : Bool)
    → is_of message.peer (lookup message.old m.pins) ≡ true
    → are_compatible m.pins pins message.new ≡ true
    → is_of message.peer (lookup message.new pins) ≡ true
    → Adds message m (first_use message.new now is_used (record m { pins = pins }))
first_use-Adds message now m pins true own compatible pinned = record {
  peers = λ fp. replaced_peers message m pins fp compatible pinned;
  same_peer = peer_of-is_of message.peer (lookup message.old m.pins) own;
  sessions = refl;
}
first_use-Adds message now m pins false own compatible pinned = record {
  peers = λ fp. replaced_peers message m pins fp compatible pinned;
  same_peer = peer_of-is_of message.peer (lookup message.old m.pins) own;
  sessions = refl;
}

module _ (message : RotationMessage) (disk : Disk) (automatic : Bool) (now : ℕ) (entry : Entry)
    (m : Manager) where
  -- A guard that holds refuses, and leaves the rest its failure.
  guard-IsSafe :
      (b : Bool) (e : CommitError) (writes : List Write) (c : Committing)
      → (b ≡ false → IsSafe message m c)
      → IsSafe message m (if b then stopped_with message disk automatic now entry m e writes else c)
  guard-IsSafe b e writes c rest = if_cases (IsSafe message m) b (λ _. unchanged refl refl) rest

  module _ (own : is_of message.peer (lookup message.old m.pins) ≡ true) where
    unless_refused-IsSafe :
        (o : Option CommitError) (c : Committing)
        → IsSafe message m c
        → IsSafe message m (unless_refused message disk automatic now entry m o c)
    unless_refused-IsSafe none c safe = safe
    unless_refused-IsSafe (some e) c safe = unchanged refl refl

    activate_replacement-IsSafe :
        (writes : List Write) (records : List RotationRecord) (index : ℕ) (trust : Option Pins)
        → IsSafe message m
            (activate_replacement message disk automatic now entry m writes records index trust)
    activate_replacement-IsSafe writes records index none = unchanged refl refl
    activate_replacement-IsSafe writes records index (some trusted) =
        let pins = exclude_aged m.aged trusted in
        guard-IsSafe (not (are_compatible m.pins pins message.new)) directory_changed writes _
          (λ compatible.
            guard-IsSafe (not (is_of message.peer (lookup message.new pins))) replacement_missing
              writes _
              (λ pinned.
                guard-IsSafe (not disk.persists_commit) commit_not_persisted writes _ (λ persists.
                  added refl (
                    first_use-Adds message now m pins (is_known (lookup message.new m.last_use)) own
                      (ground arith) (ground arith)))))

    install_replacement-IsSafe :
        (exists : Bool) (writes : List Write) (records : List RotationRecord) (index : ℕ)
        → IsSafe message m
            (install_replacement message disk automatic now entry m exists writes records index)
    install_replacement-IsSafe true writes records index =
        activate_replacement-IsSafe writes records index disk.trust_again
    install_replacement-IsSafe false writes records index =
        if_cases (IsSafe message m) disk.installs
          (λ _.
            activate_replacement-IsSafe (writes ++ (install message.id entry ∷ [])) records index
              disk.trust_again)
          (λ _. unchanged refl refl)

    record_intent-IsSafe :
        (exists : Bool) (records : List RotationRecord) (index : Option ℕ)
        → IsSafe message m (record_intent message disk automatic now entry m exists records index)
    record_intent-IsSafe exists records (some index) =
        install_replacement-IsSafe exists [] records index
    record_intent-IsSafe exists records none =
        let records' = records ++ (intent_record message ∷ []) in
        guard-IsSafe (leb 2000 (length records)) journal_full [] _ (λ _.
          guard-IsSafe (not disk.persists_intent) intent_not_persisted [] _ (λ _.
            install_replacement-IsSafe exists (journal records' ∷ []) records' (length records)))

    check_trust-IsSafe :
        (records : List RotationRecord) (index : Option ℕ) (trust : Option Pins)
        → IsSafe message m (check_trust message disk automatic now entry m records index trust)
    check_trust-IsSafe records index none = unchanged refl refl
    check_trust-IsSafe records index (some trusted) =
        unless_refused-IsSafe (trust_refusal message disk automatic now entry m index trusted)
          (record_intent message disk automatic now entry m (is_known (lookup message.new trusted))
            records index)
          (record_intent-IsSafe (is_known (lookup message.new trusted)) records index)

    with_index-IsSafe :
        (records : List RotationRecord) (found : CommitError ⊎ Option ℕ)
        → IsSafe message m (with_index message disk automatic now entry m records found)
    with_index-IsSafe records (inl e) = unchanged refl refl
    with_index-IsSafe records (inr index) = check_trust-IsSafe records index disk.trust

    check_journal-IsSafe :
        (o : Option (List RotationRecord))
        → IsSafe message m (check_journal message disk automatic now entry m o)
    check_journal-IsSafe none = unchanged refl refl
    check_journal-IsSafe (some records) =
        with_index-IsSafe records (find_record message 0 none records)

-- Whatever the disk answers, CommitRotation either returns an error and leaves the manager as it was,
-- or it returns none, the old key was pinned for the peer of the message, and then the new key is
-- pinned for it, every other key for the peer it was pinned for, or for none, as before, and the
-- sessions are the same.
pub commit_rotation-IsSafe :
    (verify : RotationMessage → Option Entry) (message : RotationMessage) (disk : Disk)
    (automatic : Bool) (now : ℕ) (m : Manager)
    → IsSafe message m (commit_rotation verify message disk automatic now m)
unfolding commit_rotation
commit_rotation-IsSafe verify message disk automatic now m =
    elim (verify message)
      as (λ o. IsSafe message m (elim o [
        | none ↦ record { error = some invalid_request; writes = []; manager = m }
        | some entry ↦ commit_verified message disk automatic now entry m
      ])) [
        | none ↦ unchanged refl refl
        | some entry ↦
            guard-IsSafe message disk automatic now entry m
              (not (is_of message.peer (lookup message.old m.pins))) old_not_authorized []
              (check_journal message disk automatic now entry m disk.records)
              (λ old_pinned.
                check_journal-IsSafe message disk automatic now entry m (ground arith) disk.records)
      ]
