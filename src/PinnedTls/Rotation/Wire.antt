-- ===== src/PinnedTls/Rotation/Wire.antt =====
-- src/internal/pinnedtls/rotation_wire.go: what WriteRotation sends and DecodeRotationFrame accepts,
-- over a connection without a fault. The frame of one part is carried as it is; base64, SHA-256, the
-- hexadecimal digits and JSON are parameters.
use air_gap.Common.{
  Bytes, [], ◌∷◌, ◌++◌, Bool, false, Option, none, some, not, ◌&&◌, ◌||◌, ◌==◌, leb, length,
  if◌then◌else◌, ℕ, take, drop,
}
use air_gap.Common.Maps.{bytes_beq}
use air_gap.Common.Members.{any}
use air_gap.Common.Text.{codes}
use air_gap.PinnedTls.Rotation.{
  Kind, no_kind, begin_kind, challenge_kind, request_kind, accepted_kind, rejected_kind,
  consumed_kind, RotationMessage,
}
use air_gap.PinnedTls.Rotation.Exchange.{is_empty}

-- payload_size is the length of json.Marshal, read_json what strictJSON reads back from it: a text that
-- is not UTF-8 is changed.
pub record Codec : Type 0 where
  pub decode_base64 : Bytes → Option Bytes
  pub decode_base64_strict : Bytes → Option Bytes
  pub encode_base64 : Bytes → Bytes
  pub hash : Bytes → Bytes
  pub hex : Bytes → Bytes
  pub payload_size : RotationMessage → ℕ
  pub read_json : RotationMessage → RotationMessage

abbrev pub sha256_prefix : Bytes
sha256_prefix = codes "SHA256:"

abbrev pub has_32_bytes : Option Bytes → Bool
has_32_bytes none = false
has_32_bytes (some decoded) = length decoded == 32

-- strings.ContainsAny(peer, "\r\n\t")
abbrev pub breaks_line : ℕ → Bool
breaks_line b = b == 13 || b == 10 || b == 9

module _ (codec : Codec) where
  abbrev pub is_encoding_of : Bytes → Option Bytes → Bool
  is_encoding_of value none = false
  is_encoding_of value (some decoded) =
      length decoded == 32 && bytes_beq value (sha256_prefix ++ codec.encode_base64 decoded)

  unfoldable pub valid_fingerprint : Bytes → Bool
  valid_fingerprint value =
      bytes_beq (take 7 value) sha256_prefix
      && is_encoding_of value (codec.decode_base64_strict (drop 7 value))

  unfoldable pub rotation_id : Bytes → Bytes → Bytes
  rotation_id old next =
      codec.hex
        (codec.hash (codes "airgap/pinned-rotation/id/v1" ++ (10 ∷ []) ++ old ++ (10 ∷ []) ++ next))

  unfoldable pub is_sound_peer : Bytes → Bool
  is_sound_peer peer = leb (length peer) 128 && not (any breaks_line peer)

  unfoldable pub is_binding : Bytes → Bytes → Bytes → Bool
  is_binding id old new =
      valid_fingerprint old
      && valid_fingerprint new
      && not (bytes_beq old new)
      && bytes_beq id (rotation_id old new)

  -- The fields that each kind has
  abbrev pub has_fields : Kind → RotationMessage → Bool
  has_fields begin_kind m =
      is_empty m.peer
      && is_empty m.nonce
      && is_empty m.public
      && is_empty m.reason
      && is_empty m.proof
  has_fields challenge_kind m =
      not (is_empty m.peer)
      && has_32_bytes (codec.decode_base64 m.nonce)
      && is_empty m.public
      && is_empty m.reason
      && is_empty m.proof
  has_fields request_kind m =
      not (is_empty m.peer)
      && has_32_bytes (codec.decode_base64 m.nonce)
      && not (is_empty m.public)
      && not (is_empty m.proof)
      && is_empty m.reason
  has_fields accepted_kind m =
      not (is_empty m.peer)
      && is_empty m.nonce
      && is_empty m.public
      && is_empty m.reason
      && is_empty m.proof
  has_fields rejected_kind m =
      not (is_empty m.reason) && is_empty m.nonce && is_empty m.public && is_empty m.proof
  has_fields no_kind m = false
  has_fields consumed_kind m = false

  -- DecodeRotationFrame, behind the frame and the JSON
  abbrev pub is_decoded : RotationMessage → Bool
  is_decoded m =
      is_sound_peer m.peer
      && leb (length m.reason) 256
      && is_binding m.id m.old m.new
      && has_fields m.kind m

  -- A message written by WriteRotation, as ReadRotation gives it at the other end
  abbrev pub carry : RotationMessage → Option RotationMessage
  carry m =
      if leb (codec.payload_size m) 8192 && is_decoded (codec.read_json m)
      then some (codec.read_json m)
      else none
