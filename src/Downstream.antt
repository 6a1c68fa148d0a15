-- ===== src/Downstream.antt =====
-- src/downstream: the receiver behind the diode, which writes to Kafka what ParseMessage delivers.
-- The state is what the handler keeps between packets. Encryption, the files of the private keys and
-- gzip are parameters. Texts of errors are left out: a report is its kind. Packets are handled one
-- after the other, as with one worker; the steps of several workers are not interleaved.
pub mod Keys
pub mod Handling
pub mod Branches
pub mod Safety
pub mod Counting
pub mod Delivery
pub mod EndToEnd
pub mod Tcp
use air_gap.Downstream.Keys.{KeyInfo, KeyReport}
use air_gap.Common.{
  Bytes, ℕ, ◌+◌, List, [], ◌∷◌, ◌++◌, Bool, true, false, not, ◌&&◌, ◌||◌, Option, none, some,
  length, take, drop, ltb, ◌==◌, if◌then◌else◌,
}
use air_gap.Common.Integers.{ℤ, pos, negsuc}
use air_gap.Common.Maps.{lookup, bytes_eq, bytes_beq}
use air_gap.Common.Text.{codes, has_prefix, parse_int}
use air_gap.Common.Slices.{be16}
use air_gap.Protocol.Cache.{MessageCache}
use air_gap.Protocol.Parse.{ParseError}
use air_gap.Protocol.Gzip.{GzipError}
use air_gap.Protocol.Types.{is_message_type, type_error, type_status}

-- The settings that the handler reads. The map of translations is made of topicTranslations.
pub record Settings : Type 0 where
  pub topic : Bytes
  pub topic_translations : Bytes
  pub translations : List (Bytes × Bytes)
  pub maximum_decompress_size : ℤ
  pub key_exchange_min_interval_secs : ℕ

-- transportStatus: "running" or the error of the last packet.
pub data TransportStatus : Type 0 where
  running : TransportStatus
  parse_error : ParseError → TransportStatus

pub record State : Type 0 where
  pub cache : MessageCache
  pub key : Bytes
  pub transport_status : TransportStatus
  pub received_events : ℕ
  pub sent_events : ℕ
  pub total_received : ℕ
  pub total_sent : ℕ
  pub last_key_exchange_nano : ℕ
  pub key_infos : List KeyInfo

-- What a message to the topic of the receiver says.
pub data Body : Type 0 where
  content : Bytes → Body
  gzip_failed : GzipError → Body
  decrypt_failed : Body
  key_report : KeyReport → Body
  updating_key : Bytes → Body

-- What leaves the receiver: a record for Kafka, or a message of sendMessage, whose key may be
-- drawn at random and whose body may be stamped with the time.
pub data Effect : Type 0 where
  written : Bytes → Bytes → ℕ → Bytes → Effect
  sent : Option Bytes → Bytes → Bool → Body → Effect

abbrev key_or_new : Bytes → Option Bytes
key_or_new [] = none
key_or_new (b ∷ id) = some (b ∷ id)

-- sendMessage: an empty topic turns it off.
unfoldable pub send_message : ℕ → Bytes → Bytes → Body → List Effect
send_message message_type id [] body = []
send_message message_type id (b ∷ topic) body =
    sent (key_or_new id) (b ∷ topic)
      (is_message_type message_type type_error || is_message_type message_type type_status) body
    ∷ []

-- translateTopic
abbrev or_input : Bytes → Option Bytes → Bytes
or_input input none = input
or_input input (some output) = output

unfoldable pub translate_topic : Settings → Bytes → Bytes
translate_topic config input =
    if length config.topic_translations == 0
    then input
    else or_input input (lookup input config.translations)

-- IsRotationFrame of src/internal/pinnedtls/rotation_wire.go.
abbrev pub id_length : Option ℕ → ℕ
id_length none = 0
id_length (some n) = n

unfoldable pub is_rotation_frame : Bytes → Bool
is_rotation_frame frame =
    let n = id_length (be16 (drop 5 frame)) in
    if ltb (length frame) 7
    then false
    else not (ltb (length frame) (7 + n)) && has_prefix (take n (drop 7 frame)) (codes "PIN_TLS")

-- The messages of readNewKey
unfoldable pub send_reports : Bytes → List (ℕ × KeyReport) → List Effect
send_reports topic [] = []
send_reports topic ((t, report) ∷ reports) =
    send_message t [] topic (key_report report) ++ send_reports topic reports
