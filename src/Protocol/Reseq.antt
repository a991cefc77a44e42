-- ===== src/Protocol/Reseq.antt =====
-- The sequence number of an encoded frame, written anew: bytes 4 to 12.
use vm_sync.Base.{ℕ, ◌+◌, ◌<◌, ◌^◌, ◌≡◌, refl, ◌∙◌, ap, arith, List, ◌++◌}
use vm_sync.Base.{length, take, drop, All, length-append, length-take, All-take}
use vm_sync.Protocol.Bytes.{IsByte, put_be}
use vm_sync.Protocol.Frame.{ok, Frame}
use vm_sync.Protocol.Codec.{put_header, encode_raw, decode, read_header}
use vm_sync.Protocol.Layout.{length-put_header, read_header-Fits}
use vm_sync.Protocol.RoundTrip.{decode-encode_raw}
use vm_sync.Protocol.Accepts.{Decoded, decode-eq-ok, decode_sound}

-- binary.BigEndian.PutUint64(fb[4:12], seq)
unfoldable pub put_seq : ℕ → List ℕ → List ℕ
put_seq seq fb = take 4 fb ++ (put_be 8 seq ++ drop 12 fb)

put_seq-encode_raw :
    (s typ seq : ℕ) (p : List ℕ) (crc : ℕ)
    → put_seq s (encode_raw typ seq p crc) ≡ encode_raw typ s p crc
unfolding put_seq encode_raw put_header put_be
put_seq-encode_raw s typ seq p crc = refl

length-encode_raw :
    (typ seq : ℕ) (p : List ℕ) (crc : ℕ) → length (encode_raw typ seq p crc) ≡ 20 + length p
unfolding encode_raw
length-encode_raw typ seq p crc =
    length-append (put_header _) p ∙ ap (λ (n : ℕ). n + length p) (length-put_header _)

-- Rewriting the sequence number of a frame that decodes changes that number alone: the type, the
-- payload and its checksum are kept, and the frame still decodes.
pub decode-put_seq :
    (s : ℕ) (fb : List ℕ) (f : Frame)
    → All IsByte fb
    → s < 2 ^ 64
    → decode fb ≡ ok f
    → decode (put_seq s fb) ≡ ok (record f { seq = s })
decode-put_seq s fb f bytes hs e =
    let (shape, version, crc, small) = decode_sound fb f bytes e in
    ap (λ (b : List ℕ). decode (put_seq s b)) shape
    ∙ ap decode (put_seq-encode_raw s f.type f.seq f.payload f.crc)
    ∙ ap (λ (c : ℕ). decode (encode_raw f.type s f.payload c)) crc
    ∙ decode-encode_raw f.type s f.payload type-lt hs
        (omega (arith, small, ap length shape, length-encode_raw f.type f.seq f.payload f.crc))
    ∙ cc (version, crc)
  where
    d : Decoded fb f (read_header (take 20 fb))
    d = decode-eq-ok fb f e

    type-lt : f.type < 256
    type-lt = omega (
      arith,
      d.type,
      (read_header-Fits (take 20 fb) (All-take IsByte 20 fb bytes)
          (omega (arith, length-take 20 fb, d.long))).type,
    )
