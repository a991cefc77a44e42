-- ===== src/Wal/Tail.antt =====
-- indexSegment of internal/wal/wal.go at the end of a segment: whole records, or a torn one.
use vm_sync.Base.{
  ℕ, zero, suc, ◌+◌, ◌-◌, ◌≤◌, ◌<◌, ◌≡◌, refl, sym, ap, subst, ◌∙◌, arith, List, [], ◌∷◌, ◌++◌,
  append-nil, none, take, min, take-append_left,
}
use vm_sync.Base.{length, All, length-append}
use vm_sync.Protocol.Frame.{header_size, max_frame_len, Header, ok}
use vm_sync.Wal.Scan.{
  all_readable, FrameIndex, indexed, scan_loop, index_segment, resync_loop, resync_record,
  record_head_len,
}
use vm_sync.Wal.Records.{Framed, IsFramed, segment_of, pending_from}
use vm_sync.Base.{drop, drop-append_left, drop-drop}
use vm_sync.Protocol.Bytes.{be_value, put_be, be_value-put_be, length-put_be}
use vm_sync.Protocol.Codec.{parse_header}
use vm_sync.Wal.Records.{take-put_be, drop-put_be}
use vm_sync.Wal.Rescan.{scan_step, scan_whole, length-segment_of}

-- A loop without a position to try.
no_room :
    (bytes : List ℕ) (off : ℕ)
    → length bytes < off + 24
    → resync_record all_readable bytes off ≡ none
unfolding resync_record resync_loop
no_room bytes off h = rw (none_left) refl
  where
    none_left : min (off + (max_frame_len + 4)) (length bytes) + 1 - (off + 1 + 24) ≡ 0
    none_left = omega arith

-- Less than a record head and a frame header behind the last record is cut off.
scan_torn :
    (fuel : ℕ) (bytes : List ℕ) (seg skip off : ℕ)
    → off < length bytes
    → length bytes < off + 24
    → skip ≤ off
    → scan_loop all_readable (suc fuel) bytes seg skip off ≡ indexed (take off bytes) []
unfolding scan_loop
scan_torn fuel bytes seg skip off more short after =
    ground (arith, no_room bytes off short, more, short, after)

scan_end :
    (fuel : ℕ) (bytes : List ℕ) (seg skip off : ℕ)
    → length bytes ≤ off
    → scan_loop all_readable (suc fuel) bytes seg skip off ≡ indexed bytes []
unfolding scan_loop
scan_end fuel bytes seg skip off h = ground (arith, h)

-- The scan of a segment made of whole records leaves the file as it is and gives every frame whose
-- record ends behind the acknowledged prefix `skip`, in the order of the file, each with the
-- segment's number, the offset of its record, its length, and the type and number in its header.
pub index_segment-segment_of :
    (seg skip : ℕ) (xs : List Framed)
    → All IsFramed xs
    → index_segment all_readable (segment_of xs) seg skip
      ≡ indexed (segment_of xs) (pending_from seg skip 0 xs)
unfolding index_segment
index_segment-segment_of seg skip xs v =
    scan_whole seg skip 0 (length (segment_of xs) + 1) xs [] [] (segment_of xs) (segment_of xs) [] 0
      v (omega (arith, length-segment_of xs)) (sym (append-nil (segment_of xs))) refl
      (λ k l. scan_end k (segment_of xs) seg skip (0 + length (segment_of xs)) (omega arith))
    ∙ ap (indexed (segment_of xs)) (append-nil (pending_from seg skip 0 xs))

-- When between 1 and 23 bytes follow the whole records, and the acknowledged prefix ends within the
-- records, the scan cuts these bytes off and gives the same frames as without them.
pub index_segment-torn :
    (seg skip : ℕ) (xs : List Framed) (tail : List ℕ)
    → All IsFramed xs
    → 0 < length tail
    → length tail < 24
    → skip ≤ length (segment_of xs)
    → index_segment all_readable (segment_of xs ++ tail) seg skip
      ≡ indexed (segment_of xs) (pending_from seg skip 0 xs)
unfolding index_segment
index_segment-torn seg skip xs tail v some_bytes short within =
    scan_whole seg skip 0 (length (segment_of xs ++ tail) + 1) xs [] tail (segment_of xs ++ tail)
      (segment_of xs) [] 0 v (omega (arith, length-segment_of xs, size)) refl refl
      (λ k l.
        scan_torn k (segment_of xs ++ tail) seg skip (0 + length (segment_of xs))
          (omega (arith, size)) (omega (arith, size)) (omega arith)
        ∙ ap (λ (b : List ℕ). indexed b [])
            (ap (λ (n : ℕ). take n (segment_of xs ++ tail)) (omega arith)
              ∙ take-append_left (segment_of xs) tail))
    ∙ ap (indexed (segment_of xs)) (append-nil (pending_from seg skip 0 xs))
  where
    size : length (segment_of xs ++ tail) ≡ length (segment_of xs) + length tail
    size = length-append (segment_of xs) tail

-- When the last record is cut short behind its frame's header, whole records stand before it, the
-- acknowledged prefix ends within those and no read fails, the scan does not cut it off: the file
-- stays as it is, and the index ends with an entry whose frame goes beyond the end of the file.
pub index_segment-torn_body :
    (seg skip : ℕ) (xs : List Framed) (part : List ℕ) (n : ℕ) (h : Header)
    → All IsFramed xs
    → parse_header (take header_size part) ≡ ok h
    → n ≡ header_size + h.length
    → n ≤ max_frame_len
    → header_size ≤ length part
    → length part < n
    → skip ≤ length (segment_of xs)
    → index_segment all_readable (segment_of xs ++ (put_be 4 n ++ part)) seg skip
      ≡ indexed (segment_of xs ++ (put_be 4 n ++ part)) (
          pending_from seg skip 0 xs
          ++ (record {
            seg = seg;
            offset = length (segment_of xs);
            length = n;
            seq = h.seq;
            typ = h.type;
          }
              ∷ []))
unfolding index_segment
index_segment-torn_body seg skip xs part n h v p w m whole short within =
    scan_whole seg skip 1 (length file + 1) xs [] (put_be 4 n ++ part) file file (entry ∷ []) 0 v
      (omega (arith, length-segment_of xs, size)) refl refl ends
  where
    file : List ℕ
    file = segment_of xs ++ (put_be 4 n ++ part)

    entry : FrameIndex
    entry = record {
      seg = seg;
      offset = length (segment_of xs);
      length = n;
      seq = h.seq;
      typ = h.type;
    }

    size : length file ≡ length (segment_of xs) + (4 + length part)
    size = omega (
      arith,
      length-append (segment_of xs) (put_be 4 n ++ part),
      length-append (put_be 4 n) part,
      length-put_be 4 n,
    )

    from : drop (length (segment_of xs)) file ≡ put_be 4 n ++ part
    from = drop-append_left (segment_of xs) (put_be 4 n ++ part)

    past_end :
        (k : ℕ)
        → scan_loop all_readable
            (suc k)
            file
            seg
            skip
            (length (segment_of xs) + record_head_len + n)
          ≡ indexed file []
    past_end k =
        scan_end k file seg skip (length (segment_of xs) + record_head_len + n)
          (omega (arith, size, short))

    at_end :
        (k : ℕ)
        → 1 ≤ k
        → scan_loop all_readable (suc k) file seg skip (length (segment_of xs))
          ≡ indexed file (entry ∷ [])
    at_end zero l = absurd (omega arith)
    at_end (suc k) l =
        scan_step (suc k) file seg skip (length (segment_of xs)) n h
          (ap (λ (b : List ℕ). be_value (take 4 b)) from
            ∙ ap be_value (take-put_be n part)
            ∙ be_value-put_be 4 n (omega (arith, m)))
          (ap (λ (b : List ℕ). parse_header (take header_size b))
              (sym (drop-drop 4 (length (segment_of xs)) file)
                ∙ ap (drop 4) from
                ∙ drop-put_be n part)
            ∙ p)
          w m (omega (arith, size, whole))
        ∙ rw (past_end k) (ground (arith, within, w))

    ends :
        (k : ℕ)
        → 1 ≤ k
        → scan_loop all_readable (suc k) file seg skip (0 + length (segment_of xs))
          ≡ indexed file (entry ∷ [])
    ends k l =
        subst
          (λ (o : ℕ). scan_loop all_readable (suc k) file seg skip o ≡ indexed file (entry ∷ []))
          (omega arith) (at_end k l)
