-- ===== src/Examples/PinnedKeys.antt =====
-- src/internal/pinnedtls with two keys of one client; a fingerprint is the key itself.
use air_gap.Common.{Bytes, ◌≡◌, refl, List, [], ◌∷◌, true, some, none, Option, ◌≤◌}
use air_gap.Common.Maps.{bytes_eq, bytes_beq, lookup, insert}
use air_gap.Common.Text.{codes, is_before_name}
use air_gap.Common.Members.{any}
use air_gap.PinnedTls.{reset_idle, Entry, Pins, Manager, Certificate}
use air_gap.PinnedTls.Aging.{
  Call, admits, forgets, activates, starts_aging, ticks, call_all, purge_idle, new_manager,
  latest_keys, removed_keys, fresh_pins, exclude_aged,
}
use air_gap.PinnedTls.Sessions.{AreAuthorized, sessions-AreAuthorized}
use air_gap.PinnedTls.Peers.{has_key, purge_keeps_peers}
use air_gap.PinnedTls.Rotation.{
  RotationMessage, request_kind, Disk, commit_rotation, find_record, keeps_active, adds_nothing,
  begin_kind,
}
use air_gap.PinnedTls.Rotation.Exchange.{
  HandledRotation, Arrival, new_session, handle_rotation, handle_rotations,
}
use air_gap.PinnedTls.Rotation.OneUse.{commits, challenges, commits_once}
use air_gap.PinnedTls.Rotation.Adding.{IsSafe, commit_rotation-IsSafe}

abbrev pub pin : Bytes → Bytes → Bytes × Entry
pin key peer = (
  key,
  record { version = 1; peer = peer; role = codes "client"; public_key = key; fingerprint = key },
)

abbrev two_keys : Pins
two_keys = pin (codes "k1") (codes "plant") ∷ pin (codes "k2") (codes "plant") ∷ []

abbrev day : List Call
day =
    starts_aging 60
    ∷ admits 7 (some (record { is_valid = true; spki = codes "k2" })) 5
    ∷ ticks 60000000005
    ∷ admits 8 (some (record { is_valid = true; spki = codes "k1" })) 60000000006
    ∷ forgets 7 60000000007
    ∷ activates (λ conn. true) (pin (codes "k3") (codes "plant") ∷ []) 60000000008
    ∷ []

sessions-AreAuthorized_example : AreAuthorized (call_all (λ key. key) day (new_manager two_keys 1))
sessions-AreAuthorized_example = sessions-AreAuthorized (λ key. key) two_keys 1 day

abbrev aging : Manager
aging = record (new_manager two_keys 1) { idle_timeout = 60000000000 }

purge_keeps_peers_example : has_key (codes "plant") (purge_idle 90000000000 aging).1.pins ≡ true
unfolding any reset_idle bytes_beq
purge_keeps_peers_example = purge_keeps_peers 90000000000 aging (codes "plant") refl

-- The key that is not the latest goes.
older_goes : (purge_idle 90000000000 aging).0 ≡ codes "k2" ∷ []
unfolding purge_idle reset_idle latest_keys removed_keys fresh_pins lookup insert is_before_name any
    bytes_beq
older_goes = refl

abbrev next_key : RotationMessage
next_key = record {
  kind = request_kind;
  id = codes "r";
  old = codes "k1";
  new = codes "k3";
  peer = codes "plant";
  nonce = codes "n";
  public = codes "k3";
  reason = [];
  proof = codes "p";
}

abbrev pub empty_journal : Disk
empty_journal = record {
  records = some [];
  trust = some two_keys;
  trust_again = some (pin (codes "k3") (codes "plant") ∷ two_keys);
  persists_intent = true;
  installs = true;
  persists_commit = true;
}

abbrev pub verified : RotationMessage → Option Entry
verified message = some (pin message.new message.peer).1

commit_rotation-IsSafe_example :
    IsSafe next_key aging (commit_rotation verified next_key empty_journal true 9 aging)
commit_rotation-IsSafe_example = commit_rotation-IsSafe verified next_key empty_journal true 9 aging

no_error : (commit_rotation verified next_key empty_journal true 9 aging).error ≡ none
unfolding commit_rotation lookup reset_idle bytes_beq find_record keeps_active exclude_aged
    adds_nothing
no_error = refl

-- A connection that asks for a challenge, answers it, and answers it again
abbrev asks : RotationMessage
asks = record next_key { kind = begin_kind; peer = []; nonce = []; public = []; proof = [] }

abbrev arrives : RotationMessage → Arrival
arrives message = record {
  message = message;
  manager = aging;
  random = some (codes "n");
  disk = empty_journal;
  automatic = true;
  now = 9;
}

abbrev client_key : Option Certificate
client_key = some (record { is_valid = true; spki = codes "k1" })

abbrev answers : List HandledRotation
answers =
    handle_rotations (λ key. key) verified (λ e. codes "error") client_key new_session
      (arrives asks ∷ arrives next_key ∷ arrives next_key ∷ arrives asks ∷ [])

commits_once_example : (commits answers ≤ challenges answers) × (challenges answers ≤ 1)
commits_once_example =
    commits_once (λ key. key) verified (λ e. codes "error") client_key
      (arrives asks ∷ arrives next_key ∷ arrives next_key ∷ arrives asks ∷ [])

one_commit : commits answers ≡ 1
unfolding handle_rotations handle_rotation commits commit_rotation lookup reset_idle bytes_beq
one_commit = refl
