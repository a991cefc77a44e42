-- ===== src/Examples/Frames.antt =====
-- Concrete frames of internal/protocol, with compressors that copy their input.
use vm_sync.Base.{
  ℕ, ◌≡◌, ◌^◌, ◌<◌, ◌≤◌, ◌⊎◌, refl, arith, List, [], ◌∷◌, ◌++◌, Bool, Option, some, length, All,
  All-append, ltb, ◌%◌,
}
use vm_sync.Protocol.Bytes.{IsByte, put_be, put_be-IsByte}
use vm_sync.Protocol.Crc.{checksum_ieee}
use vm_sync.Protocol.Frame.{Frame, Header, ok, magic, version, max_frame_len, type_heartbeat}
use vm_sync.Protocol.Codec.{
  Compressors, IsLossless, whole, encode, compress, encode_raw, put_header, decode, decompress,
}
use vm_sync.Protocol.RoundTrip.{decode-encode, decode-encode_raw}
use vm_sync.Protocol.Accepts.{decode_sound}
use vm_sync.Protocol.Reseq.{put_seq, decode-put_seq}
use vm_sync.Vm.Probe.{probe_oldest_data, probe_oldest_data-eq}

abbrev pub copying : Compressors
copying = record {
  gzip_compress = some;
  zstd_encode_all = λ p. p;
  gzip_open = λ z. some (whole z);
  zstd_reset = λ z. some (whole z);
}

copying-IsLossless : IsLossless copying
copying-IsLossless = record { gzip = λ p z e. ground (arith, e); zstd = λ p. refl }

-- A frame with the text "up 1".
abbrev pub text : List ℕ
text = 117 ∷ 112 ∷ 32 ∷ 49 ∷ []

abbrev pub text_crc : ℕ
text_crc = checksum_ieee text

abbrev pub frame_bytes : ℕ → List ℕ
frame_bytes seq = encode_raw 1 seq text (checksum_ieee text)

abbrev pub frame : ℕ → Frame
frame seq = record { version = 1; type = 1; seq = seq; crc = checksum_ieee text; payload = text }

pub decode-frame : (seq : ℕ) → seq < 2 ^ 64 → decode (frame_bytes seq) ≡ ok (frame seq)
decode-frame seq h = decode-encode_raw 1 seq text (omega arith) h (omega arith)

abbrev written : ℕ → ℕ → List ℕ → ℕ → Header
written typ seq p crc = record {
  magic = magic;
  version = version;
  type = typ;
  seq = seq;
  length = length p % 2 ^ 32;
  crc = crc;
}

encode_raw-IsByte :
    (typ seq : ℕ) (p : List ℕ) (crc : ℕ)
    → typ < 256
    → All IsByte p
    → All IsByte (encode_raw typ seq p crc)
unfolding encode_raw put_header
encode_raw-IsByte typ seq p crc h k =
    All-append IsByte (put_header (written typ seq p crc)) p
      (All-append IsByte (put_be 2 magic)
        (version ∷ typ ∷ [] ++ (put_be 8 seq ++ (put_be 4 (length p % 2 ^ 32) ++ put_be 4 crc)))
        (put_be-IsByte 2 magic)
        (
          omega arith,
          (
            h,
            All-append IsByte (put_be 8 seq) (put_be 4 (length p % 2 ^ 32) ++ put_be 4 crc)
                (put_be-IsByte 8 seq)
                (All-append IsByte (put_be 4 (length p % 2 ^ 32)) (put_be 4 crc)
                  (put_be-IsByte 4 (length p % 2 ^ 32)) (put_be-IsByte 4 crc)),
          ),
        ))
      k

bytes_7 : All IsByte (frame_bytes 7)
bytes_7 =
    encode_raw-IsByte 1 7 text (checksum_ieee text) (omega arith)
      (omega arith, (omega arith, (omega arith, (omega arith, tt))))

encode-text : encode copying 1 7 text ≡ ok (frame_bytes 7)
unfolding encode compress
encode-text = refl

decode-encode_example :
    (f : Frame) × (decode (frame_bytes 7) ≡ ok f)
    × (f.type ≡ 1)
    × (f.seq ≡ 7)
    × ((1 ≡ type_heartbeat) ⊎ (decompress copying f ≡ ok text))
decode-encode_example =
    decode-encode copying copying-IsLossless 1 7 text (frame_bytes 7) (omega arith) encode-text

decode_sound_example :
    (frame_bytes 7 ≡ encode_raw 1 7 text text_crc)
    × (1 ≡ version)
    × (text_crc ≡ checksum_ieee text)
    × (length (frame_bytes 7) ≤ max_frame_len)
decode_sound_example = decode_sound (frame_bytes 7) (frame 7) bytes_7 (decode-frame 7 (omega arith))

decode-put_seq_example : decode (put_seq 9 (frame_bytes 7)) ≡ ok (frame 9)
decode-put_seq_example =
    decode-put_seq 9 (frame_bytes 7) (frame 7) bytes_7 (omega arith) (decode-frame 7 (omega arith))

-- The database has samples from the time 1000 on.
abbrev since_1000 : ℕ → Option Bool
since_1000 x = some (ltb 1000 x)

probe_oldest_data-eq_example : probe_oldest_data since_1000 5000 ≡ some 1000
probe_oldest_data-eq_example =
    probe_oldest_data-eq since_1000 1000 5000 (λ x. refl) (omega arith) (omega arith)
