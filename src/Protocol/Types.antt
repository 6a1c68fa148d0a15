-- ===== src/Protocol/Types.antt =====
-- src/protocol/messageTypes.go: message types below 32, and the compression flags above.
use Prim.Native.Nat.{bit_and, bit_or}
use air_gap.Common.{ℕ, Bool, leb, ◌==◌, if◌then◌else◌}

abbrev pub type_message : ℕ
type_message = 0

abbrev pub type_error : ℕ
type_error = 1

abbrev pub type_status : ℕ
type_status = 2

abbrev pub type_key_exchange : ℕ
type_key_exchange = 3

abbrev pub type_debug : ℕ
type_debug = 4

abbrev pub type_multipart : ℕ
type_multipart = 5

abbrev pub type_cleartext : ℕ
type_cleartext = 6

abbrev pub type_compressed_gzip : ℕ
type_compressed_gzip = 32

abbrev pub type_compressed_zstd : ℕ
type_compressed_zstd = 64

unfoldable pub is_message_type : ℕ → ℕ → Bool
is_message_type message_type message_type2 =
    if leb type_compressed_gzip message_type
    then bit_and message_type message_type2 == message_type2
    else message_type == message_type2

unfoldable pub merge : ℕ → ℕ → ℕ
merge message_type message_type2 = bit_or message_type message_type2
