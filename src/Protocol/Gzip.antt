-- ===== src/Protocol/Gzip.antt =====
-- DecompressGzip of src/protocol/gzip.go. The reader of the library is a parameter: it refuses the
-- header of a payload, or yields bytes and then ends or fails.
use air_gap.Common.{
  Bytes, ℕ, ◌≤◌, Bool, true, false, Option, none, some, length, ltb, ◌==◌, if◌then◌else◌, arith,
  Bool-cases, inl, inr,
}
use air_gap.Common.Integers.{ℤ, pos, negsuc}

pub data GzipError : Type 0 where
  empty_payload bad_header broken_stream too_large : GzipError

pub data Unzipped : Type 0 where
  unzipped : Bytes → Unzipped
  refused : GzipError → Unzipped

-- io.ReadAll of the whole stream.
abbrev read_all : Bytes × Bool → Unzipped
read_all (content, true) = unzipped content
read_all (content, false) = refused broken_stream

-- io.ReadAll behind a reader that stops after one byte more than the limit.
abbrev read_limited : ℕ → Bytes × Bool → Unzipped
read_limited limit (content, ends) =
    if ltb limit (length content) then refused too_large else read_all (content, ends)

abbrev read_by : ℤ → Bytes × Bool → Unzipped
read_by (negsuc n) stream = read_all stream
read_by (pos limit) stream = read_limited limit stream

abbrev opened : ℤ → Option (Bytes × Bool) → Unzipped
opened max_return_size none = refused bad_header
opened max_return_size (some stream) = read_by max_return_size stream

module _ (gunzip : Bytes → Option (Bytes × Bool)) where
  -- DecompressGzip; a negative limit is none.
  unfoldable pub decompress_gzip : Bytes → ℤ → Unzipped
  decompress_gzip payload max_return_size =
      if length payload == 0 then refused empty_payload else opened max_return_size (gunzip payload)

abbrev pub Fits : ℕ → Unzipped → Type 0
Fits limit (refused e) = Unit
Fits limit (unzipped content) = length content ≤ limit

read_by-Fits : (limit : ℕ) (stream : Bytes × Bool) → Fits limit (read_by (pos limit) stream)
read_by-Fits limit (content, ends) = elim (Bool-cases (ltb limit (length content))) [
  | inl large ↦ rw large tt
  | inr small ↦ rw small (read_all-Fits limit content ends (ground arith))
]
  where
    read_all-Fits :
        (limit : ℕ) (content : Bytes) (ends : Bool)
        → length content ≤ limit
        → Fits limit (read_all (content, ends))
    read_all-Fits limit content true h = h
    read_all-Fits limit content false h = tt

-- Whatever the payload holds, DecompressGzip with a limit returns no more bytes than the limit.
pub decompress_gzip-Fits :
    (gunzip : Bytes → Option (Bytes × Bool)) (payload : Bytes) (limit : ℕ)
    → Fits limit (decompress_gzip gunzip payload (pos limit))
unfolding decompress_gzip
decompress_gzip-Fits gunzip payload limit = elim (Bool-cases (length payload == 0)) [
  | inl empty ↦ rw empty tt
  | inr some_bytes ↦ rw some_bytes (opened-Fits (gunzip payload))
]
  where
    opened-Fits : (o : Option (Bytes × Bool)) → Fits limit (opened (pos limit) o)
    opened-Fits none = tt
    opened-Fits (some stream) = read_by-Fits limit stream
