-- ===== src/Protocol/RoundTrip.antt =====
-- `decode` against `encode`, both ways.
use vm_sync.Base.{ℕ, ◌+◌, ◌≤◌, ◌<◌, ◌^◌, ◌%◌, ◌≡◌, refl, ◌∙◌, arith, List, [], ◌∷◌, ◌++◌}
use vm_sync.Base.{true, not, ◌==◌, length, take, drop}
use vm_sync.Base.{length-append, take-append_left, drop-append_left}
use vm_sync.Base.{lt→ltb, Bool-cases, inl, inr, ◌⊎◌, some, ◌≢◌}
use vm_sync.Protocol.Crc.{checksum_ieee, checksum_ieee-lt, checksum_ieee-nil}
use vm_sync.Protocol.Frame.{
  magic, version, header_size, max_frame_len, max_decompressed_len, type_heartbeat, bad_crc,
  length_mismatch, Result, ok, ◌>>=◌, ◌>>◌, reject_if, Frame, Header, Result-cases,
}
use vm_sync.Protocol.Codec.{
  Compressors, IsLossless, whole, put_header, encode_raw, compress, encode, read_header,
  check_header, parse_header, decode, read_limited, gunzip, unzstd, decompress,
}
use vm_sync.Protocol.Layout.{Fits, length-put_header, read_header-put_header}

-- `decode` of a header of 20 bytes and what follows it.
abbrev decode_parts : List ℕ → List ℕ → Result Frame
decode_parts head payload = do
  h ← check_header (read_header head)
  reject_if (not (length payload == h.length)) length_mismatch
  reject_if (not (checksum_ieee payload == h.crc)) bad_crc
  ok (record { version = h.version; type = h.type; seq = h.seq; crc = h.crc; payload = payload })

take_head : (head payload : List ℕ) → length head ≡ 20 → take 20 (head ++ payload) ≡ head
take_head head payload len = rw len at (take-append_left head payload)

drop_head : (head payload : List ℕ) → length head ≡ 20 → drop 20 (head ++ payload) ≡ payload
drop_head head payload len = rw len at (drop-append_left head payload)

pub decode-append :
    (head payload : List ℕ)
    → length head ≡ 20
    → decode (head ++ payload) ≡ decode_parts head payload
unfolding decode parse_header
decode-append head payload len =
    ground (
      arith,
      len,
      take_head head payload len,
      drop_head head payload len,
      length-append head payload,
    )

module _ (typ seq : ℕ) (payload : List ℕ) where
  abbrev written : Header
  written = record {
    magic = magic;
    version = version;
    type = typ;
    seq = seq;
    length = length payload % 2 ^ 32;
    crc = checksum_ieee payload;
  }

  abbrev pub frame_of : Frame
  frame_of = record {
    version = version;
    type = typ;
    seq = seq;
    crc = checksum_ieee payload;
    payload = payload;
  }

  pub decode-encode_raw :
      typ < 256
      → seq < 2 ^ 64
      → header_size + length payload ≤ max_frame_len
      → decode (encode_raw typ seq payload (checksum_ieee payload)) ≡ ok frame_of
  unfolding encode_raw check_header
  decode-encode_raw ht hs hl =
      decode-append (put_header written) payload (length-put_header written)
      ∙ rw (read_header-put_header written fits) (ground arith)
    where
      fits : Fits written
      fits = record {
        magic = omega arith;
        version = omega arith;
        type = ht;
        seq = hs;
        length = omega arith;
        crc = checksum_ieee-lt payload;
      }

-- What a successful `encode` has written.
abbrev Encoded : Compressors → ℕ → ℕ → List ℕ → List ℕ → Type 0
Encoded c typ seq p z =
    ((typ ≡ type_heartbeat) × (p ≡ []) × (z ≡ []))
    ⊎ ((typ ≢ type_heartbeat) × (length p ≤ max_decompressed_len) × (compress c typ p ≡ ok z))

pub encode-eq-ok :
    (c : Compressors) (typ seq : ℕ) (p fb : List ℕ)
    → encode c typ seq p ≡ ok fb
    → (z : List ℕ) × Encoded c typ seq p z
      × (header_size + length z ≤ max_frame_len)
      × (fb ≡ encode_raw typ seq z (checksum_ieee z))
unfolding encode
encode-eq-ok c typ seq p fb e = elim (Bool-cases (typ == type_heartbeat)) [
  | inl beat ↦ (
    [],
    inl (ground arith, empty beat p e, refl),
    omega arith,
    ground (arith, empty beat p e, checksum_ieee-nil),
  )
  | inr other ↦ elim (Result-cases (compress c typ p)) [
    | inl (z, ez) ↦ (z, inr (ground arith, ground arith, ez), ground arith, ground arith)
    | inr (x, ez) ↦ absurd (ground arith)
  ]
]
  where
    empty : (typ == type_heartbeat) ≡ true → (q : List ℕ) → encode c typ seq q ≡ ok fb → q ≡ []
    empty beat [] r = refl
    empty beat (b ∷ bs) r = absurd (ground arith)

compress-lt : (c : Compressors) (typ : ℕ) (p z : List ℕ) → compress c typ p ≡ ok z → typ < 256
unfolding compress
compress-lt c typ p z e = ground arith

read_limited-whole : (n : ℕ) (p : List ℕ) → length p < n → read_limited n (whole p) ≡ some p
unfolding read_limited
read_limited-whole n p h = rw (lt→ltb _ _ h)

decompress-compress :
    (c : Compressors)
    → IsLossless c
    → (typ seq : ℕ) (p z : List ℕ) → length p ≤ max_decompressed_len
    → compress c typ p ≡ ok z
    → decompress c (frame_of typ seq z) ≡ ok p
unfolding compress decompress gunzip unzstd
decompress-compress c lossless typ seq p z h e = ground (
  arith,
  lossless.gzip p z,
  lossless.zstd p,
  read_limited-whole (max_decompressed_len + 1) p (omega arith),
)

Encoded-lt : (c : Compressors) (typ seq : ℕ) (p z : List ℕ) → Encoded c typ seq p z → typ < 256
Encoded-lt c typ seq p z (inl h) = omega (arith, h.0)
Encoded-lt c typ seq p z (inr h) = compress-lt c typ p z h.2

Encoded-decompress :
    (c : Compressors)
    → IsLossless c
    → (typ seq : ℕ) (p z : List ℕ) → Encoded c typ seq p z
    → (typ ≡ type_heartbeat) ⊎ (decompress c (frame_of typ seq z) ≡ ok p)
Encoded-decompress c lossless typ seq p z (inl h) = inl h.0
Encoded-decompress c lossless typ seq p z (inr h) =
    inr (decompress-compress c lossless typ seq p z h.1 h.2)

-- A frame that `encode` wrote is decoded to its type and sequence number, with nothing on the
-- way lost: a data frame's payload decompresses to the text that was encoded.
pub decode-encode :
    (c : Compressors)
    → IsLossless c
    → (typ seq : ℕ) (p fb : List ℕ) → seq < 2 ^ 64
    → encode c typ seq p ≡ ok fb
    → (f : Frame) × (decode fb ≡ ok f)
      × (f.type ≡ typ)
      × (f.seq ≡ seq)
      × ((typ ≡ type_heartbeat) ⊎ (decompress c f ≡ ok p))
decode-encode c lossless typ seq p fb hs e =
    let (z, shape, small, written) = encode-eq-ok c typ seq p fb e in
    let typ-lt = Encoded-lt c typ seq p z shape in
    (
      frame_of typ seq z,
      rw written (decode-encode_raw typ seq z typ-lt hs small),
      refl,
      refl,
      Encoded-decompress c lossless typ seq p z shape,
    )
