-- ===== src/Wal/Scan.antt =====
-- indexSegment and resyncRecord of internal/wal/wal.go, on the bytes of one segment file.
-- A record is four bytes of length and the frame.
use vm_sync.Base.{ℕ, zero, suc, ◌+◌, ◌-◌, List, [], ◌∷◌, min}
use vm_sync.Base.{
  Bool, true, false, ◌&&◌, ◌||◌, not, Option, none, some, length, take, drop, ltb, leb, ◌==◌,
  if◌then◌else◌,
}
use vm_sync.Protocol.Bytes.{be_value}
use vm_sync.Protocol.Frame.{header_size, max_frame_len, Header, Result, ok, err}
use vm_sync.Protocol.Codec.{parse_header}

abbrev pub record_head_len : ℕ
record_head_len = 4

-- Where a frame lies in the log.
pub record FrameIndex : Type 0 where
  pub seg : ℕ
  pub offset : ℕ
  pub length : ℕ
  pub seq : ℕ
  pub typ : ℕ

-- The frame's header at a record's start `p`, if the 24 bytes are there and the two lengths agree.
abbrev pub record_length : List ℕ → ℕ → ℕ
record_length bytes p = be_value (take record_head_len (drop p bytes))

abbrev pub header_at : List ℕ → ℕ → Result Header
header_at bytes p = parse_header (take header_size (drop (p + record_head_len) bytes))

abbrev pub bad_length : ℕ → Bool
bad_length n = n == 0 || ltb max_frame_len n

abbrev pub header_agrees : ℕ → Result Header → Bool
header_agrees n (err e) = false
header_agrees n (ok h) = n == header_size + h.length

-- The calls of ReadAt. Each is made at most once in a scan at a record's start `p`.
pub data ReadAt : Type 0 where
  scan_head : ReadAt
  scan_body : ReadAt
  resync_head : ReadAt
  resync_body : ReadAt

-- Which of them fail though the file has the bytes, and how many bytes they have read then.
abbrev pub ReadFaults : Type 0
ReadFaults = ReadAt → ℕ → Option ℕ

abbrev pub all_readable : ReadFaults
all_readable k p = none

abbrev pub is_failed : Option ℕ → Bool
is_failed none = false
is_failed (some n) = true

abbrev pub is_failed_empty : Option ℕ → Bool
is_failed_empty none = false
is_failed_empty (some n) = n == 0

-- The tests that resyncRecord makes at `p` before it reads the frame's header, and all of them.
abbrev pub has_length : List ℕ → ℕ → Bool
has_length bytes p =
    not (bad_length (record_length bytes p))
    && leb (p + record_head_len + record_length bytes p) (length bytes)

unfoldable pub is_record : List ℕ → ℕ → Bool
is_record bytes p = has_length bytes p && header_agrees (record_length bytes p) (header_at bytes p)

-- The loop from `p`, with the positions left as fuel.
unfoldable pub resync_loop : ReadFaults → ℕ → List ℕ → ℕ → Option ℕ
resync_loop reads zero bytes p = none
resync_loop reads (suc fuel) bytes p =
    let rest = resync_loop reads fuel bytes (p + 1) in
    if is_failed (reads resync_head p)
    then none
    else if is_failed (reads resync_body p) && has_length bytes p
    then none
    else if is_record bytes p
    then some p
    else rest

-- The first position after `bad_off` where a record can be: p + 24 must not pass the limit.
unfoldable pub resync_record : ReadFaults → List ℕ → ℕ → Option ℕ
unfolding resync_loop
resync_record reads bytes bad_off =
    let limit = min (bad_off + (max_frame_len + record_head_len)) (length bytes) in
    resync_loop reads (limit + 1 - (bad_off + 1 + (record_head_len + header_size))) bytes
      (bad_off + 1)

-- What the scan of a segment gives: the file as it leaves it, and the frames to be sent; or the
-- refusal to guess. `unfinished` is a scan that is still in its loop when the fuel is used up.
pub data Scanned : Type 0 where
  indexed : List ℕ → List FrameIndex → Scanned
  corrupt : ℕ → Scanned
  unfinished : Scanned

abbrev pub prepend : FrameIndex → Scanned → Scanned
prepend fi (indexed bytes fis) = indexed bytes (fi ∷ fis)
prepend fi (corrupt off) = corrupt off
prepend fi unfinished = unfinished

-- skipCorrupt where no record follows: cut the file, unless that would cut what is acknowledged.
abbrev pub cut_tail : List ℕ → ℕ → ℕ → Scanned
cut_tail bytes skip bad_off =
    if ltb bad_off skip then corrupt bad_off else indexed (take bad_off bytes) []

-- The loop over the records from `off`. Each round moves on by a byte at least, so the size of the
-- file is fuel enough. A torn record ends it whether or not resyncRecord finds one, and a read that fails
-- is taken for one; a read of nothing is taken for the end.
unfoldable pub scan_loop : ReadFaults → ℕ → List ℕ → ℕ → ℕ → ℕ → Scanned
scan_loop reads zero bytes seg skip off = unfinished
scan_loop reads (suc fuel) bytes seg skip off =
    let left = length bytes - off in
    let n = record_length bytes off in
    let resume : Scanned = elim (resync_record reads bytes off) [
      | some next ↦ scan_loop reads fuel bytes seg skip next
      | none ↦ cut_tail bytes skip off
    ] in
    let torn : Scanned = elim (resync_record reads bytes off) [
      | some next ↦ indexed bytes []
      | none ↦ cut_tail bytes skip off
    ] in
    let after = scan_loop reads fuel bytes seg skip (off + record_head_len + n) in
    if is_failed_empty (reads scan_head off) || leb (length bytes) off
    then indexed bytes []
    else if is_failed (reads scan_head off) || ltb left record_head_len
    then torn
    else if bad_length n
    then resume
    else if is_failed (reads scan_body off) || ltb left (record_head_len + header_size)
    then torn
    else elim (header_at bytes off) [
      | err e ↦ resume
      | ok h ↦
          if not (n == header_size + h.length)
          then resume
          else if leb (off + record_head_len + n) skip
          then after
          else prepend (record { seg = seg; offset = off; length = n; seq = h.seq; typ = h.type })
              after
    ]

unfoldable pub index_segment : ReadFaults → List ℕ → ℕ → ℕ → Scanned
unfolding scan_loop resync_record is_record
index_segment reads bytes seg skip = scan_loop reads (length bytes + 1) bytes seg skip 0
