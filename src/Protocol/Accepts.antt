-- ===== src/Protocol/Accepts.antt =====
-- What `decode` accepts.
use vm_sync.Base.{ℕ, ◌≤◌, ◌^◌, ◌%◌, ◌≡◌, sym, ◌∙◌, ap, arith, List, ◌++◌}
use vm_sync.Base.{length, take, drop, All}
use vm_sync.Base.{take-append-drop, length-take}
use vm_sync.Base.{All-take, length-drop}
use vm_sync.Protocol.Bytes.{IsByte}
use vm_sync.Protocol.Crc.{checksum_ieee}
use vm_sync.Protocol.Frame.{magic, version, max_frame_len, ok, Frame, Header}
use vm_sync.Protocol.Codec.{put_header, encode_raw, read_header, check_header, parse_header, decode}
use vm_sync.Protocol.Layout.{put_header-read_header}

-- What a successful `decode` has checked; `h` is the header that it read.
pub record Decoded (fb : List ℕ) (f : Frame) (h : Header) : Type 0 where
  pub long : 20 ≤ length fb
  pub is_magic : h.magic ≡ magic
  pub is_version : h.version ≡ version
  pub exact : length (drop 20 fb) ≡ h.length
  pub small : length fb ≤ max_frame_len
  pub version : f.version ≡ h.version
  pub type : f.type ≡ h.type
  pub seq : f.seq ≡ h.seq
  pub crc : f.crc ≡ h.crc
  pub payload : f.payload ≡ drop 20 fb
  pub checked : checksum_ieee (drop 20 fb) ≡ h.crc

pub decode-eq-ok :
    (fb : List ℕ) (f : Frame) → decode fb ≡ ok f → Decoded fb f (read_header (take 20 fb))
unfolding decode parse_header check_header
decode-eq-ok fb f e =
    let len = length-take 20 fb in
    let rest = length-drop 20 fb in
    record {
      long = ground arith;
      is_magic = ground arith;
      is_version = ground arith;
      exact = ground arith;
      small = ground arith;
      version = ground arith;
      type = ground arith;
      seq = ground arith;
      crc = ground arith;
      payload = ground arith;
      checked = ground arith;
    }

-- `decode` accepts only what `encode_raw` writes: the frame's fields determine every byte, the
-- checksum is that of the payload, and the frame is within the limit.
pub decode_sound :
    (fb : List ℕ) (f : Frame)
    → All IsByte fb
    → decode fb ≡ ok f
    → (fb ≡ encode_raw f.type f.seq f.payload f.crc)
      × (f.version ≡ version)
      × (f.crc ≡ checksum_ieee f.payload)
      × (length fb ≤ max_frame_len)
unfolding encode_raw
decode_sound fb f bytes e = (
  sym (take-append-drop 20 fb)
      ∙ rw (← put_header-read_header (take 20 fb) head_bytes head_length, d.payload)
          (ap (λ (h : Header). put_header h ++ drop 20 fb) same_header),
  cc (d.version, d.is_version),
  cc (d.crc, d.checked, d.payload),
  d.small,
)
  where
    d : Decoded fb f (read_header (take 20 fb))
    d = decode-eq-ok fb f e

    head_bytes : All IsByte (take 20 fb)
    head_bytes = All-take IsByte 20 fb bytes

    head_length : length (take 20 fb) ≡ 20
    head_length = omega (arith, length-take 20 fb, d.long)

    same_header : read_header (take 20 fb) ≡ record {
      magic = magic;
      version = version;
      type = f.type;
      seq = f.seq;
      length = length (drop 20 fb) % 2 ^ 32;
      crc = f.crc;
    }
    same_header = ground (arith, d)
