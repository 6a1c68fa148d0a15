-- ===== src/PinnedTls.antt =====
-- src/internal/pinnedtls/manager.go and aging.go: the manager of pinned keys. A connection is a number;
-- a map has no order, and what Go sorts for a report is in the order of the map. The mutex makes each
-- operation one step; a time is in nanoseconds, and 0 is the zero time. The configuration of TLS that
-- goes along with the pins is left out, and the hash of a public key is a parameter.
pub mod Aging
pub mod Peers
pub mod Rotation
pub mod Sessions
use air_gap.Common.{
  Bytes, ℕ, List, [], ◌∷◌, Bool, true, false, Option, none, some, not, ◌&&◌, ◌||◌, length,
  if◌then◌else◌, map, ◌+◌,
}
use air_gap.Common.Members.{any}
use air_gap.Common.Maps.{nat_eq, bytes_eq, lookup, insert, delete, bytes_beq}

pub record Entry : Type 0 where
  pub version : ℕ
  pub peer : Bytes
  pub role : Bytes
  pub public_key : Bytes
  pub fingerprint : Bytes

abbrev pub Pins : Type 0
Pins = List (Bytes × Entry)

pub record Authorization : Type 0 where
  pub fingerprint : Bytes
  pub peer : Bytes

pub record Manager : Type 0 where
  pub pins : Pins
  pub sessions : List (ℕ × Authorization)
  pub idle_timeout : ℕ
  pub last_use : List (Bytes × ℕ)
  pub last_used : List (Bytes × ℕ)
  pub aged : List (Bytes × Bytes)

-- The first certificate of a connection: whether ValidatePublicKey accepts its key, and the key.
pub record Certificate : Type 0 where
  pub is_valid : Bool
  pub spki : Bytes

-- What a map of times gives for a key
abbrev pub time_of : Option ℕ → ℕ
time_of none = 0
time_of (some time) = time

-- The peer of an entry that may be missing
abbrev pub is_of : Bytes → Option Entry → Bool
is_of peer none = false
is_of peer (some entry) = bytes_beq entry.peer peer

abbrev pub authorized : Bytes → Option Entry → Option (Bytes × Entry)
authorized fp none = none
authorized fp (some entry) = some (fp, entry)

abbrev pub admit_authorized : ℕ → ℕ → Option (Bytes × Entry) → Manager → Option Entry × Manager
admit_authorized conn now none m = (none, m)
admit_authorized conn now (some (fp, entry)) m = (
  some entry,
  record m {
    sessions = insert conn (record { fingerprint = fp; peer = entry.peer }) m.sessions;
    last_use = insert fp now m.last_use;
    last_used = insert fp now m.last_used;
  },
)

module _ (fingerprint_of : Bytes → Bytes) where
  abbrev pub authorize : Pins → Option Certificate → Option (Bytes × Entry)
  authorize pins none = none
  authorize pins (some certificate) =
      if certificate.is_valid
      then authorized (fingerprint_of certificate.spki)
          (lookup (fingerprint_of certificate.spki) pins)
      else none

  unfoldable pub admit : ℕ → Option Certificate → ℕ → Manager → Option Entry × Manager
  admit conn certificate now m = admit_authorized conn now (authorize m.pins certificate) m

-- A session of the key is open.
abbrev pub is_connected : List (ℕ × Authorization) → Bytes → Bool
is_connected sessions fp = any (λ s. bytes_beq s.1.fingerprint fp) sessions

abbrev pub is_pinned : Bytes → Option Entry → Bool
is_pinned fp none = false
is_pinned fp (some entry) = true

abbrev pub forgotten : ℕ → Option Authorization → Manager → Manager
forgotten now none m = m
forgotten now (some auth) m =
    if not (is_connected m.sessions auth.fingerprint)
      && is_pinned auth.fingerprint (lookup auth.fingerprint m.pins)
    then record m { last_use = insert auth.fingerprint now m.last_use }
    else m

unfoldable pub forget : ℕ → ℕ → Manager → Manager
forget conn now m =
    forgotten now (lookup conn m.sessions) (record m { sessions = delete conn m.sessions })

-- resetIdle
unfoldable pub reset_idle : ℕ → Manager → Manager
reset_idle now m = record m {
  last_use = map (λ pin. (pin.0, now)) m.pins;
  last_used = map (λ pin. (pin.0, time_of (lookup pin.0 m.last_used))) m.pins;
  aged = [];
}

pub record ReloadResult : Type 0 where
  pub peers : ℕ
  pub keys : ℕ
  pub disconnected : ℕ
  pub added : List Bytes
  pub removed : List Bytes
  pub errors : List Bytes

-- The peers of the pins, each once
unfoldable pub peers_of : Pins → List Bytes
peers_of [] = []
peers_of ((fp, entry) ∷ pins) =
    let rest = peers_of pins in
    if any (λ p. bytes_beq p entry.peer) rest then rest else entry.peer ∷ rest

-- The keys of some pins that other pins do not have with the same peer
unfoldable pub not_among : Pins → Pins → List Bytes
not_among others [] = []
not_among others ((fp, entry) ∷ pins) =
    let rest = not_among others pins in
    if is_of entry.peer (lookup fp others) then rest else fp ∷ rest

-- A session whose key is pinned for its peer
abbrev pub is_authorized : Pins → Authorization → Bool
is_authorized pins auth = is_of auth.peer (lookup auth.fingerprint pins)

module _ (pins : Pins) where
  unfoldable pub still_authorized : List (ℕ × Authorization) → List (ℕ × Authorization)
  still_authorized [] = []
  still_authorized ((conn, auth) ∷ sessions) =
      let rest = still_authorized sessions in
      if is_authorized pins auth then (conn, auth) ∷ rest else rest

  -- The keys of the sessions that are cut off and whose socket does not close without an error
  unfoldable pub close_errors : (ℕ → Bool) → List (ℕ × Authorization) → List Bytes
  close_errors closes [] = []
  close_errors closes ((conn, auth) ∷ sessions) =
      let rest = close_errors closes sessions in
      if is_authorized pins auth || closes conn then rest else auth.fingerprint ∷ rest

  unfoldable pub disconnections : List (ℕ × Authorization) → ℕ
  disconnections [] = 0
  disconnections ((conn, auth) ∷ sessions) =
      let rest = disconnections sessions in if is_authorized pins auth then rest else rest + 1

unfoldable pub activate : (ℕ → Bool) → Pins → ℕ → Manager → ReloadResult × Manager
activate closes pins now m = (
  record {
    peers = length (peers_of pins);
    keys = length pins;
    disconnected = disconnections pins m.sessions;
    added = not_among m.pins pins;
    removed = not_among pins m.pins;
    errors = close_errors pins closes m.sessions;
  },
  record (reset_idle now (record m { pins = pins })) {
    sessions = still_authorized pins m.sessions;
  },
)
