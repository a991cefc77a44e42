-- ===== src/Wal/Records.antt =====
-- A segment that holds whole records: what the scan makes of it.
use vm_sync.Base.{
  ℕ, ◌+◌, ◌%◌, ◌^◌, ◌≤◌, ◌≡◌, refl, sym, ap, ◌∙◌, arith, List, [], ◌∷◌, ◌++◌, append_assoc,
}
use vm_sync.Base.{length, take, drop, leb, if◌then◌else◌}
use vm_sync.Base.{length-append, drop-append_left, drop-drop, take-append_le}
use vm_sync.Protocol.Bytes.{be_value, put_be, be_value-put_be, length-put_be}
use vm_sync.Protocol.Frame.{header_size, max_frame_len, Header, ok}
use vm_sync.Protocol.Codec.{parse_header}
use vm_sync.Wal.Scan.{FrameIndex, record_length, header_at}

-- A frame with the header that its first 20 bytes hold.
pub record Framed : Type 0 where
  pub bytes : List ℕ
  pub header : Header

pub record IsFramed (x : Framed) : Type 0 where
  pub parsed : parse_header (take header_size x.bytes) ≡ ok x.header
  pub whole : length x.bytes ≡ header_size + x.header.length
  pub small : length x.bytes ≤ max_frame_len

-- What an append writes: the length as a uint32, then the frame.
unfoldable pub record_of : List ℕ → List ℕ
record_of fb = put_be 4 (length fb % 2 ^ 32) ++ fb

unfoldable pub segment_of : List Framed → List ℕ
segment_of [] = []
segment_of (x ∷ xs) = record_of x.bytes ++ segment_of xs

abbrev pub index_of : ℕ → ℕ → Framed → FrameIndex
index_of seg off x = record {
  seg = seg;
  offset = off;
  length = length x.bytes;
  seq = x.header.seq;
  typ = x.header.type;
}

-- The frames of a segment from `off` on whose record ends behind `skip`.
unfoldable pub pending_from : ℕ → ℕ → ℕ → List Framed → List FrameIndex
pending_from seg skip off [] = []
pending_from seg skip off (x ∷ xs) =
    let next = off + 4 + length x.bytes in
    let rest = pending_from seg skip next xs in
    if leb next skip then rest else index_of seg off x ∷ rest

pub length-record_of : (fb : List ℕ) → length (record_of fb) ≡ 4 + length fb
unfolding record_of
length-record_of fb = length-append (put_be 4 (length fb % 2 ^ 32)) fb ∙ rw (length-put_be 4)

pub take-put_be : (v : ℕ) (xs : List ℕ) → take 4 (put_be 4 v ++ xs) ≡ put_be 4 v
unfolding put_be
take-put_be v xs = refl

pub drop-put_be : (v : ℕ) (xs : List ℕ) → drop 4 (put_be 4 v ++ xs) ≡ xs
unfolding put_be
drop-put_be v xs = refl

record_of-append :
    (fb rest : List ℕ) → record_of fb ++ rest ≡ put_be 4 (length fb % 2 ^ 32) ++ (fb ++ rest)
unfolding record_of
record_of-append fb rest = append_assoc (put_be 4 (length fb % 2 ^ 32)) fb rest

-- Reading at the start of a record.
module _ (front rest : List ℕ) (x : Framed) (v : IsFramed x) where
  abbrev file : List ℕ
  file = front ++ (record_of x.bytes ++ rest)

  at_front : drop (length front) file ≡ put_be 4 (length x.bytes % 2 ^ 32) ++ (x.bytes ++ rest)
  at_front = drop-append_left front (record_of x.bytes ++ rest) ∙ record_of-append x.bytes rest

  pub read_length : record_length file (length front) ≡ length x.bytes
  read_length =
      ap (λ (b : List ℕ). be_value (take 4 b)) at_front
      ∙ ap be_value (take-put_be (length x.bytes % 2 ^ 32) (x.bytes ++ rest))
      ∙ be_value-put_be 4 (length x.bytes % 2 ^ 32) (omega arith)
      ∙ omega (arith, v.small)

  behind_length : drop (length front + 4) file ≡ x.bytes ++ rest
  behind_length =
      sym (drop-drop 4 (length front) file)
      ∙ ap (drop 4) at_front
      ∙ drop-put_be (length x.bytes % 2 ^ 32) (x.bytes ++ rest)

  pub read_header_at : header_at file (length front) ≡ ok x.header
  read_header_at =
      ap (λ (b : List ℕ). parse_header (take header_size b)) behind_length
      ∙ ap parse_header (take-append_le header_size x.bytes rest (omega (arith, v.whole)))
      ∙ v.parsed

  pub length-file : length file ≡ length front + (4 + length x.bytes) + length rest
  length-file = omega (
    arith,
    length-append front (record_of x.bytes ++ rest),
    length-append (record_of x.bytes) rest,
    length-record_of x.bytes,
  )
