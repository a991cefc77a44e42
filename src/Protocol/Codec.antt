-- ===== src/Protocol/Codec.antt =====
-- internal/protocol/codec.go: encoding and decoding of frames.
-- The compressors are parameters: gzip and zstd are libraries, and the program relies on their
-- streams only. A decompressor yields the bytes it produces, and whether it then fails.
use vm_sync.Base.{ℕ, ◌+◌, ◌^◌, ◌%◌, ◌≡◌, List, [], ◌∷◌, ◌++◌}
use vm_sync.Base.{Bool, false, not, Option, none, some, length, take, drop, slice}
use vm_sync.Base.{ltb, ◌==◌, if◌then◌else◌}
use vm_sync.Protocol.Bytes.{put_be, be_value}
use vm_sync.Protocol.Crc.{checksum_ieee}
use vm_sync.Protocol.Frame.{
  magic, version, header_size, max_frame_len, max_decompressed_len, type_data, type_heartbeat,
  type_data_zstd, ProtocolError, bad_magic, bad_version, bad_crc, length_too_large,
  header_too_short, frame_too_short, length_mismatch, heartbeat_payload, payload_too_large,
  frame_too_large, unsupported_type, compress_failed, decompress_failed, decompressed_too_large,
  Result, ok, err, ◌>>=◌, ◌>>◌, reject_if, Frame, Header,
}

pub record Stream : Type 0 where
  pub produced : List ℕ
  pub fails_after : Bool

-- `none` is the error of the writer, or of opening the reader.
pub record Compressors : Type 0 where
  pub gzip_compress : List ℕ → Option (List ℕ)
  pub zstd_encode_all : List ℕ → List ℕ
  pub gzip_open : List ℕ → Option Stream
  pub zstd_reset : List ℕ → Option Stream

abbrev pub whole : List ℕ → Stream
whole p = record { produced = p; fails_after = false }

-- What is documented of both libraries: reading back what was written gives it, with no error.
pub record IsLossless (c : Compressors) : Type 0 where
  pub gzip : (p z : List ℕ) → c.gzip_compress p ≡ some z → c.gzip_open z ≡ some (whole p)
  pub zstd : (p : List ℕ) → c.zstd_reset (c.zstd_encode_all p) ≡ some (whole p)

abbrev pub or_fail {ℓ} : {A : Type ℓ} → Option A → ProtocolError → Result A
or_fail none e = err e
or_fail (some a) e = ok a

-- PutUint16, PutUint64 and PutUint32 into the 20 bytes, field by field.
unfoldable pub put_header : Header → List ℕ
put_header h =
    put_be 2 h.magic
    ++ ((h.version ∷ h.type ∷ []) ++ (put_be 8 h.seq ++ (put_be 4 h.length ++ put_be 4 h.crc)))

unfoldable pub encode_raw : ℕ → ℕ → List ℕ → ℕ → List ℕ
encode_raw typ seq payload crc =
    put_header (record {
      magic = magic;
      version = version;
      type = typ;
      seq = seq;
      length = length payload % 2 ^ 32;
      crc = crc;
    })
    ++ payload

module _ (c : Compressors) where
  -- The switch on the type, for a type that is not the heartbeat's.
  unfoldable pub compress : ℕ → List ℕ → Result (List ℕ)
  compress typ payload =
      if typ == type_data
      then or_fail (c.gzip_compress payload) compress_failed
      else if typ == type_data_zstd
      then ok (c.zstd_encode_all payload)
      else err unsupported_type

  unfoldable pub encode : ℕ → ℕ → List ℕ → Result (List ℕ)
  encode typ seq payload =
      if typ == type_heartbeat
      then (if length payload == 0 then ok (encode_raw typ seq [] 0) else err heartbeat_payload)
      else do
        reject_if (ltb max_decompressed_len (length payload)) payload_too_large
        compressed ← compress typ payload
        reject_if (ltb max_frame_len (header_size + length compressed)) frame_too_large
        ok (encode_raw typ seq compressed (checksum_ieee compressed))

  unfoldable pub encode_data : ℕ → List ℕ → Result (List ℕ)
  encode_data = encode type_data

  unfoldable pub encode_data_zstd : ℕ → List ℕ → Result (List ℕ)
  encode_data_zstd = encode type_data_zstd

  unfoldable pub encode_heartbeat : ℕ → Result (List ℕ)
  encode_heartbeat seq = encode type_heartbeat seq []

-- `buf[i]`; the callers have checked the length.
abbrev pub first : List ℕ → ℕ
first [] = 0
first (b ∷ bs) = b

abbrev pub byte_at : ℕ → List ℕ → ℕ
byte_at i buf = first (drop i buf)

-- The fields of a buffer of 20 bytes at least.
unfoldable pub read_header : List ℕ → Header
read_header buf = record {
  magic = be_value (slice 0 2 buf);
  version = byte_at 2 buf;
  type = byte_at 3 buf;
  seq = be_value (slice 4 12 buf);
  length = be_value (slice 12 16 buf);
  crc = be_value (slice 16 20 buf);
}

-- The checks of a header that was read.
unfoldable pub check_header : Header → Result Header
check_header h = do
  reject_if (not (h.magic == magic)) bad_magic
  reject_if (not (h.version == version)) bad_version
  reject_if (ltb max_frame_len (header_size + h.length)) length_too_large
  ok h

unfoldable pub parse_header : List ℕ → Result Header
parse_header buf = do
  reject_if (ltb (length buf) header_size) header_too_short
  check_header (read_header buf)

unfoldable pub decode : List ℕ → Result Frame
decode frame_bytes = do
  reject_if (ltb (length frame_bytes) header_size) frame_too_short
  h ← parse_header (take header_size frame_bytes)
  reject_if (not (length frame_bytes == header_size + h.length)) length_mismatch
  let payload = drop header_size frame_bytes
  reject_if (not (checksum_ieee payload == h.crc)) bad_crc
  ok (record { version = h.version; type = h.type; seq = h.seq; crc = h.crc; payload = payload })

-- io.ReadAll over a LimitedReader of `n` bytes: an error that stands behind the limit is not met.
unfoldable pub read_limited : ℕ → Stream → Option (List ℕ)
read_limited n s =
    if ltb (length s.produced) n
    then (if s.fails_after then none else some s.produced)
    else some (take n s.produced)

module _ (c : Compressors) where
  unfoldable pub gunzip : List ℕ → Result (List ℕ)
  gunzip payload = do
    stream ← or_fail (c.gzip_open payload) decompress_failed
    or_fail (read_limited (max_decompressed_len + 1) stream) decompress_failed

  unfoldable pub unzstd : List ℕ → Result (List ℕ)
  unzstd payload = do
    stream ← or_fail (c.zstd_reset payload) decompress_failed
    or_fail (read_limited (max_decompressed_len + 1) stream) decompress_failed

  unfoldable pub decompress : Frame → Result (List ℕ)
  decompress f = do
    out ←
        if f.type == type_data
        then gunzip f.payload
        else if f.type == type_data_zstd
        then unzstd f.payload
        else err unsupported_type
    reject_if (ltb max_decompressed_len (length out)) decompressed_too_large
    ok out
