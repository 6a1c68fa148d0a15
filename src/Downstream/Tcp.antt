-- ===== src/Downstream/Tcp.antt =====
-- The TCP receiver of src/downstream/adapters.go: readMessage and the loop of handleConnection. A
-- connection is the bytes that come over it before it ends; the end is that of the stream, of a
-- deadline or of the connection, which the code treats alike. The loop reads a number of frames until
-- stopChan closes. The TLS handshake, which comes before, and the manager of pins are not part of it:
-- a rotation frame is answered, or not, by a parameter that sees the rotation frames so far.
pub mod Frames
use air_gap.Common.{
  Bytes, ℕ, zero, suc, ◌+◌, List, [], ◌∷◌, ◌++◌, Bool, true, false, ◌&&◌, Option, none, some,
  length, take, drop, ltb, leb, ◌==◌, if◌then◌else◌,
}
use air_gap.Common.Text.{codes, has_prefix}
use air_gap.Common.Slices.{be16}
use air_gap.Downstream.{is_rotation_frame}

pub data ReadError : Type 0 where
  ended invalid_id_length rotation_too_long invalid_payload_length : ReadError

-- A frame and what is left of the stream, or an error.
pub data Read : Type 0 where
  frame : Bytes → Bytes → Read
  broken : ReadError → Read

-- io.ReadFull
unfoldable pub read_full : ℕ → Bytes → Option (Bytes × Bytes)
read_full n stream = if leb n (length stream) then some (take n stream, drop n stream) else none

-- int(b[0])<<8 | int(b[1]) of two bytes
abbrev pub two_bytes : Option ℕ → ℕ
two_bytes none = 0
two_bytes (some n) = n

abbrev pub max_rotation_payload : ℕ
max_rotation_payload = 8192

abbrev pub with_payload : Bytes → Option (Bytes × Bytes) → Read
with_payload front none = broken ended
with_payload front (some (payload, rest)) = frame (front ++ payload) rest

abbrev pub with_length : ℕ → Bytes → Bytes → Option (Bytes × Bytes) → Read
with_length id_len header id_and_checksum none = broken ended
with_length id_len header id_and_checksum (some (payload_len_bytes, rest)) =
    let payload_len = two_bytes (be16 payload_len_bytes) in
    if has_prefix (take id_len id_and_checksum) (codes "PIN_TLS")
      && ltb max_rotation_payload payload_len
    then broken rotation_too_long
    else if ltb 65535 payload_len
    then broken invalid_payload_length
    else with_payload (header ++ (id_and_checksum ++ payload_len_bytes))
        (read_full payload_len rest)

abbrev pub with_id : ℕ → Bytes → Option (Bytes × Bytes) → Read
with_id id_len header none = broken ended
with_id id_len header (some (id_and_checksum, rest)) =
    with_length id_len header id_and_checksum (read_full 2 rest)

abbrev pub with_header : Option (Bytes × Bytes) → Read
with_header none = broken ended
with_header (some (header, rest)) =
    let id_len = two_bytes (be16 (drop 5 header)) in
    if ltb 1024 id_len
    then broken invalid_id_length
    else with_id id_len header (read_full (id_len + 4) rest)

-- readMessage
unfoldable pub read_message : Bytes → Read
read_message stream = with_header (read_full 7 stream)

-- Why the loop of a connection ends.
pub data Ending : Type 0 where
  stopped : Ending
  read_error : ReadError → Ending
  no_pin_manager rotation_failed : Ending

-- The messages that the callback gets, and the end.
abbrev pub Connection : Type 0
Connection = List Bytes × Ending

abbrev pub push_message : Bytes → Connection → Connection
push_message message (messages, ending) = (message ∷ messages, ending)

abbrev pub push_messages : List Bytes → Connection → Connection
push_messages [] c = c
push_messages (message ∷ messages) c = push_message message (push_messages messages c)

-- A rotation frame behind others: it needs a manager of pins and an answer that is written.
abbrev answer : Option (List Bytes → Bool) → List Bytes → Connection → Connection
answer none rotations next = ([], no_pin_manager)
answer (some is_answered) rotations next =
    if is_answered rotations then next else ([], rotation_failed)

abbrev after_read :
    Option (List Bytes → Bool) → List Bytes → Read → (List Bytes → Bytes → Connection) → Connection
after_read manager rotations (broken e) next = ([], read_error e)
after_read manager rotations (frame message rest) next =
    if length message == 0
    then next rotations rest
    else if is_rotation_frame message
    then answer manager (rotations ++ message ∷ []) (next (rotations ++ message ∷ []) rest)
    else push_message message (next rotations rest)

-- The loop of handleConnection.
unfoldable pub handle_connection : Option (List Bytes → Bool) → ℕ → List Bytes → Bytes → Connection
handle_connection manager zero rotations stream = ([], stopped)
handle_connection manager (suc rounds) rotations stream =
    after_read manager rotations (read_message stream) (handle_connection manager rounds)

-- SendMessages over a connection that stands: the writes follow each other.
abbrev pub stream_of : List Bytes → Bytes
stream_of [] = []
stream_of (message ∷ messages) = message ++ stream_of messages
