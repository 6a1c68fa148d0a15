-- ===== src/Logging/Integrity.antt =====
-- src/logging/integrity.go and writeEventLocked of src/logging/logging.go: the sequence numbers, the
-- chain of hashes and the anchors of the log. The hash of the algorithm is Go's library: a function
-- of bytes. A stamp holds the bytes that the attributes show in hexadecimal. The random ids of the run,
-- the segment and the window and the signature of an anchor are left out. A time is the uint64 of
-- its nanoseconds.
pub mod Chain
pub mod Anchors
pub mod Tampering
use air_gap.Common.{
  Bytes, ℕ, zero, suc, ◌+◌, ◌/◌, ◌%◌, List, [], ◌∷◌, ◌++◌, Bool, true, false, ◌&&◌, ltb, leb,
  if◌then◌else◌, Option, none, some, length,
}
use air_gap.Common.Text.{codes}

pub data LogLevel : Type 0 where
  trace debug info warn error fatal : LogLevel

unfoldable pub severity_number : LogLevel → ℕ
severity_number trace = 1
severity_number debug = 5
severity_number info = 9
severity_number warn = 13
severity_number error = 17
severity_number fatal = 21

unfoldable pub severity_text : LogLevel → Bytes
severity_text trace = codes "TRACE"
severity_text debug = codes "DEBUG"
severity_text info = codes "INFO"
severity_text warn = codes "WARN"
severity_text error = codes "ERROR"
severity_text fatal = codes "FATAL"

-- A record: its time, its level and its body.
pub record Event : Type 0 where
  pub time : ℕ
  pub level : LogLevel
  pub body : Bytes

-- integrityState
pub record IntegrityState : Type 0 where
  pub enabled : Bool
  pub hash : Bytes → Bytes
  pub chain_len : ℕ
  pub seq : ℕ
  pub chain : Bytes
  pub since_anchor : ℕ
  pub anchor_from : ℕ
  pub restart_pending : Bool

-- The part of the attributes that only a chained record has.
pub record Link : Type 0 where
  pub previous : Bytes
  pub chain : Bytes
  pub restart : Bool

pub record Stamp : Type 0 where
  pub seq : ℕ
  pub hash : Bytes
  pub link : Option Link

abbrev pub u64 : ℕ → ℕ
u64 n = n % 18446744073709551616

-- The last bytes of a number, the highest first: PutUint32 and PutUint64 of binary.BigEndian.
unfoldable pub put_bytes : ℕ → ℕ → Bytes
put_bytes zero n = []
put_bytes (suc width) n = put_bytes width (n / 256) ++ ((n % 256) ∷ [])

abbrev pub chain_domain : Bytes
chain_domain = codes "airgap-log-chain-v1"

-- writeFramedHashString
unfoldable pub framed : Bytes → Bytes
framed value = put_bytes 4 (length value) ++ value

-- The bytes that advanceChain gives the hash.
unfoldable pub chain_input : Bytes → ℕ → ℕ → ℕ → Bytes → Bytes → Bytes
chain_input previous seq time severity_no severity payload_hash =
    chain_domain
    ++ (0
        ∷ (previous
            ++ (put_bytes 8 seq
                ++ (put_bytes 8 time
                    ++ (put_bytes 4 severity_no ++ (framed severity ++ payload_hash))))))

-- advanceChain for a record.
unfoldable pub advance_chain : (Bytes → Bytes) → Bytes → ℕ → Event → Bytes
advance_chain hash previous seq e = hash (
    chain_input previous seq e.time (severity_number e.level) (severity_text e.level) (hash e.body))

-- The genesis value of a process: its service, its instance and its start.
unfoldable pub genesis : (Bytes → Bytes) → Bytes → Bytes → ℕ → Bytes
genesis hash service instance_id start = hash (
    chain_domain
    ++ (0 ∷ (codes "genesis" ++ (0 ∷ (service ++ (0 ∷ (instance_id ++ (0 ∷ put_bytes 8 start))))))))

-- resetChain; the sequence numbers go on.
unfoldable pub reset_chain : Bytes → IntegrityState → IntegrityState
reset_chain first s = record s {
  since_anchor = 0;
  anchor_from = s.seq;
  restart_pending = true;
  chain = if s.enabled then first else [];
}

-- configureChainLength for a length that is not negative.
unfoldable pub configure_chain_length : Bytes → ℕ → IntegrityState → IntegrityState
configure_chain_length first n s = reset_chain first (record s { chain_len = n })

unfoldable pub chaining_enabled : IntegrityState → Bool
chaining_enabled s = s.enabled && ltb 0 s.chain_len

-- A record that takes its place in the chain.
abbrev pub linked : IntegrityState → Event → Stamp × IntegrityState
linked s e =
    let chain = advance_chain s.hash s.chain s.seq e in
    (
      record {
        seq = s.seq;
        hash = s.hash e.body;
        link = some (record { previous = s.chain; chain = chain; restart = s.restart_pending });
      },
      record s {
        seq = u64 (s.seq + 1);
        chain = chain;
        since_anchor = s.since_anchor + 1;
        restart_pending = false;
      },
    )

abbrev pub unlinked : IntegrityState → Event → Stamp × IntegrityState
unlinked s e =
    (record { seq = s.seq; hash = s.hash e.body; link = none }, record s { seq = u64 (s.seq + 1) })

abbrev pub with_some : Stamp × IntegrityState → Option Stamp × IntegrityState
with_some (stamped, s) = (some stamped, s)

-- stamp
unfoldable pub stamp : IntegrityState → Event → Option Stamp × IntegrityState
stamp s e =
    if s.enabled
    then with_some (if chaining_enabled s then linked s e else unlinked s e)
    else (none, s)

-- A line of the log; an anchor has the range that it closes.
pub record Line : Type 0 where
  pub event : Event
  pub stamped : Option Stamp
  pub range : Option (ℕ × ℕ)

unfoldable pub anchor_due : IntegrityState → Bool
anchor_due s = chaining_enabled s && leb s.chain_len s.since_anchor

abbrev pub anchor_event : ℕ → Event
anchor_event now = record { time = now; level = info; body = codes "airgap log chain anchor" }

-- anchorAttributes and finishAnchor
abbrev pub anchor_attributes : IntegrityState → (ℕ × ℕ) × IntegrityState
anchor_attributes s = ((s.anchor_from, s.seq), record s { anchor_from = u64 (s.seq + 1) })

abbrev pub finish_anchor : IntegrityState → IntegrityState
finish_anchor s = record s { since_anchor = 0 }

-- writeAnchorLocked
unfoldable pub write_anchor : ℕ → IntegrityState → Line × IntegrityState
write_anchor now s =
    let (range, s') = anchor_attributes s in
    let (stamped, s'') = stamp s' (anchor_event now) in
    (record { event = anchor_event now; stamped = stamped; range = some range }, finish_anchor s'')

abbrev pub and_anchor : Line → Line × IntegrityState → List Line × IntegrityState
and_anchor line (anchor, s) = (line ∷ anchor ∷ [], s)

-- writeEventLocked: the record, and the anchor that is due behind it.
unfoldable pub write_event : IntegrityState → Event → List Line × IntegrityState
write_event s e =
    let (stamped, s') = stamp s e in
    let line : Line = record { event = e; stamped = stamped; range = none } in
    if anchor_due s' then and_anchor line (write_anchor e.time s') else (line ∷ [], s')

-- A run of records.
unfoldable pub write_events : IntegrityState → List Event → List Line × IntegrityState
write_events s [] = ([], s)
write_events s (e ∷ events) =
    let (lines, s') = write_event s e in
    let (rest, s'') = write_events s' events in (lines ++ rest, s'')
