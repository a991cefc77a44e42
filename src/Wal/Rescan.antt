-- ===== src/Wal/Rescan.antt =====
-- indexSegment of internal/wal/wal.go on a segment that holds whole records, and on a torn one.
use vm_sync.Base.{
  ℕ, zero, suc, ◌+◌, ◌-◌, ◌≤◌, ◌<◌, ◌≡◌, refl, sym, ap, subst, ◌∙◌, arith, List, [], ◌∷◌, ◌++◌,
  append_assoc,
}
use vm_sync.Base.{Bool, true, false, length, leb, ltb, ◌==◌, if◌then◌else◌, All, length-append}
use vm_sync.Protocol.Frame.{header_size, max_frame_len, Header, ok}
use vm_sync.Wal.Scan.{
  all_readable, FrameIndex, indexed, prepend, scan_loop, record_length, header_at, record_head_len,
  bad_length,
}
use vm_sync.Wal.Records.{
  Framed, IsFramed, record_of, segment_of, index_of, pending_from, length-record_of, read_length,
  read_header_at, length-file,
}

-- A round of the scan at a record that passes the tests.
pub scan_step :
    (fuel : ℕ) (bytes : List ℕ) (seg skip off n : ℕ) (h : Header)
    → record_length bytes off ≡ n
    → header_at bytes off ≡ ok h
    → n ≡ header_size + h.length
    → n ≤ max_frame_len
    → off + 24 ≤ length bytes
    → scan_loop all_readable (suc fuel) bytes seg skip off ≡ (
        if leb (off + record_head_len + n) skip
        then scan_loop all_readable fuel bytes seg skip (off + record_head_len + n)
        else prepend
            (record { seg = seg; offset = off; length = n; seq = h.seq; typ = h.type })
            (scan_loop all_readable fuel bytes seg skip (off + record_head_len + n)))
unfolding scan_loop
scan_step fuel bytes seg skip off n h e p w m fit =
    rw (more, head, e, sized, body, p, e, agrees) refl
  where
    more : leb (length bytes) off ≡ false
    more = ground (arith, w)

    head : ltb (length bytes - off) record_head_len ≡ false
    head = ground (arith, w)

    sized : bad_length n ≡ false
    sized = ground (arith, w)

    body : ltb (length bytes - off) 24 ≡ false
    body = ground (arith, w)

    agrees : (n == header_size + h.length) ≡ true
    agrees = ground (arith, w)

leb_refl : (n : ℕ) → leb n n ≡ true
leb_refl n = ground arith

pub length-segment_of : (xs : List Framed) → length xs ≤ length (segment_of xs)
unfolding segment_of
length-segment_of [] = omega arith
length-segment_of (x ∷ xs) = omega (
  arith,
  length-append (record_of x.bytes) (segment_of xs),
  length-record_of x.bytes,
  length-segment_of xs,
)

-- The scan of whole records with something behind them, by what it does at their end.
pub scan_whole :
    (seg skip more fuel : ℕ) (xs : List Framed) (front tail file kept : List ℕ)
    (fis : List FrameIndex) (off : ℕ)
    → All IsFramed xs
    → length xs + more < fuel
    → file ≡ front ++ (segment_of xs ++ tail)
    → off ≡ length front
    → ((k : ℕ)
        → more ≤ k
        → scan_loop all_readable (suc k) file seg skip (off + length (segment_of xs))
          ≡ indexed kept fis)
    → scan_loop all_readable fuel file seg skip off
      ≡ indexed kept (pending_from seg skip off xs ++ fis)
unfolding scan_loop segment_of pending_from
scan_whole seg skip more zero xs front tail file kept fis off v h e o ends = absurd (omega arith)
scan_whole seg skip more (suc fuel) [] front tail file kept fis off v h e o ends =
    subst (λ (n : ℕ). scan_loop all_readable (suc fuel) file seg skip n ≡ indexed kept fis)
      (omega arith) (ends fuel (omega arith))
scan_whole seg skip more (suc fuel) (x ∷ xs) front tail file kept fis off v h e o ends =
    scan_step fuel file seg skip off (length x.bytes) x.header
      (rw (here, o) (read_length front (segment_of xs ++ tail) x v.0))
      (rw (here, o) (read_header_at front (segment_of xs ++ tail) x v.0)) v.0.whole v.0.small
      (rw (here, o) (omega (arith, v.0.whole, length-file front (segment_of xs ++ tail) x v.0)))
    ∙ rw
        (scan_whole seg skip more fuel xs (front ++ record_of x.bytes) tail file kept fis
          (off + 4 + length x.bytes) v.1 (omega arith)
          (here ∙ sym (append_assoc front (record_of x.bytes) (segment_of xs ++ tail)))
          (omega (arith, o, length-append front (record_of x.bytes), length-record_of x.bytes))
          (λ k l.
            subst (λ (n : ℕ). scan_loop all_readable (suc k) file seg skip n ≡ indexed kept fis)
              (omega (
                arith,
                length-append (record_of x.bytes) (segment_of xs),
                length-record_of x.bytes,
              ))
              (ends k l)))
        (split_if (leb (off + 4 + length x.bytes) skip))
  where
    split_if :
        (b : Bool)
        → (if b
            then indexed kept (pending_from seg skip (off + 4 + length x.bytes) xs ++ fis)
            else indexed kept
                (index_of seg off x ∷ (pending_from seg skip (off + 4 + length x.bytes) xs ++ fis)))
          ≡ indexed kept (
              (if b
                then pending_from seg skip (off + 4 + length x.bytes) xs
                else index_of seg off x ∷ pending_from seg skip (off + 4 + length x.bytes) xs)
              ++ fis)
    split_if true = refl
    split_if false = refl

    here : file ≡ front ++ (record_of x.bytes ++ (segment_of xs ++ tail))
    here =
        e ∙ ap (λ (r : List ℕ). front ++ r) (append_assoc (record_of x.bytes) (segment_of xs) tail)
