-- ===== src/Examples/Logs.antt =====
-- src/logging at short logs, with a hash that is the length of a text.
use air_gap.Common.{Bytes, ◌%◌, [], ◌∷◌, ◌≡◌, ◌⊎◌, refl, length, map, arith, true}
use air_gap.Common.Text.{codes}
use air_gap.Logging.Integrity.{info, warn, Event, IntegrityState, chaining_enabled, write_events}
use air_gap.Logging.Integrity.Chain.{HasWritten, write_events-HasWritten, event_of}
use air_gap.Logging.Integrity.Anchors.{IsOpen, Covers, ranges_of, write_events-Covers}
use air_gap.Logging.Integrity.Tampering.{Collision, log_commits}

abbrev toy_hash : Bytes → Bytes
toy_hash text = (length text % 256) ∷ []

toy_hash-sized : (text : Bytes) → length (toy_hash text) ≡ 1
toy_hash-sized text = refl

abbrev fresh : IntegrityState
fresh = record {
  enabled = true;
  hash = toy_hash;
  chain_len = 2;
  seq = 7;
  chain = 0 ∷ [];
  since_anchor = 0;
  anchor_from = 7;
  restart_pending = true;
}

fresh-IsOpen : IsOpen fresh
fresh-IsOpen = record { place = omega arith; room = omega arith }

abbrev first : Event
first = record { time = 5; level = info; body = codes "started" }

abbrev second : Event
second = record { time = 6; level = warn; body = codes "slow" }

fresh_chains : chaining_enabled fresh ≡ true
unfolding chaining_enabled
fresh_chains = refl

write_events-HasWritten_example :
    HasWritten fresh
      (write_events fresh (first ∷ second ∷ [])).0
      (write_events fresh (first ∷ second ∷ [])).1
write_events-HasWritten_example =
    write_events-HasWritten (first ∷ second ∷ []) fresh fresh_chains (omega arith)

write_events-Covers_example : Covers 2 7 (ranges_of (write_events fresh (first ∷ second ∷ [])).0)
write_events-Covers_example =
    write_events-Covers (first ∷ second ∷ []) fresh fresh_chains fresh-IsOpen (omega arith)

log_commits_example :
    (map event_of (write_events fresh (first ∷ second ∷ [])).0
      ≡ map event_of (write_events fresh (first ∷ second ∷ [])).0)
    ⊎ Collision toy_hash
log_commits_example =
    log_commits fresh fresh (first ∷ second ∷ []) (first ∷ second ∷ []) 1 toy_hash-sized refl refl
      refl fresh_chains fresh_chains (omega arith) (omega arith) (omega arith) (omega arith) refl
      refl
