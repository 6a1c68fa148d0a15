-- ===== src/Protocol/Checksum.antt =====
-- CalculateChecksum of src/protocol/formatter.go. The hexadecimal text of an MD5 digest comes from
-- Go's library: it is the parameter `md5_hex`, of which the code relies on the length alone.
use air_gap.Common.{Bytes, ◌-◌, ◌≡◌, length, drop, length-drop, ltb, if◌then◌else◌, arith}

unfoldable pub calculate_checksum : (Bytes → Bytes) → Bytes → Bytes
calculate_checksum md5_hex message =
    let hash = md5_hex message in if ltb 4 (length hash) then drop (length hash - 4) hash else hash

-- A digest of 16 bytes has 32 hexadecimal digits.
abbrev pub IsDigest : (Bytes → Bytes) → Type 0
IsDigest md5_hex = (m : Bytes) → length (md5_hex m) ≡ 32

pub length-calculate_checksum :
    (md5_hex : Bytes → Bytes) (m : Bytes)
    → IsDigest md5_hex
    → length (calculate_checksum md5_hex m) ≡ 4
unfolding calculate_checksum
length-calculate_checksum md5_hex m h =
    ground (arith, h m, length-drop (length (md5_hex m) - 4) (md5_hex m))
