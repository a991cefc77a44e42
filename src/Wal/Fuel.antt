-- ===== src/Wal/Fuel.antt =====
-- The loop of indexSegment in internal/wal/wal.go comes to an end: its fuel is enough.
use vm_sync.Base.{
  ℕ, zero, suc, ◌+◌, ◌-◌, ◌≤◌, ◌<◌, ◌≡◌, ◌≢◌, refl, ap, arith, List, [], some, length, min, Bool,
  true, false, Bool-cases, leb, ltb, ◌==◌, not, inl, inr, ◌∙◌, sym, if◌then◌else◌, Option, none,
  take,
}
use vm_sync.Protocol.Frame.{max_frame_len, header_size, Header, Result, ok, err}
use vm_sync.Wal.Scan.{
  ReadFaults, FrameIndex, Scanned, indexed, corrupt, unfinished, prepend, cut_tail, scan_loop,
  index_segment, resync_loop, resync_record, record_head_len, record_length, header_at,
}

abbrev pub is_finished : Scanned → Bool
is_finished (indexed bytes fis) = true
is_finished (corrupt off) = true
is_finished unfinished = false

is_finished-prepend : (fi : FrameIndex) (s : Scanned) → is_finished (prepend fi s) ≡ is_finished s
is_finished-prepend fi (indexed bytes fis) = refl
is_finished-prepend fi (corrupt off) = refl
is_finished-prepend fi unfinished = refl

is_finished-if :
    (t : Bool) (a b : Scanned)
    → is_finished a ≡ true
    → is_finished b ≡ true
    → is_finished (if t then a else b) ≡ true
is_finished-if true a b h k = h
is_finished-if false a b h k = k

module _ (reads : ReadFaults) (bytes : List ℕ) where
  resync_loop-le : (fuel p q : ℕ) → resync_loop reads fuel bytes p ≡ some q → p ≤ q
  unfolding resync_loop
  resync_loop-le zero p q h = absurd (ground (arith, h))
  resync_loop-le (suc fuel) p q h = ground (arith, h, resync_loop-le fuel (p + 1) q)

  resync_record-lt : (off q : ℕ) → resync_record reads bytes off ≡ some q → off < q
  unfolding resync_record
  resync_record-lt off q h = omega (
    arith,
    resync_loop-le
        (min (off + (max_frame_len + record_head_len)) (length bytes)
          + 1
          - (off + 1 + (record_head_len + header_size)))
        (off + 1) q h,
  )

  module _ (seg skip : ℕ) where
    scan_past :
        (fuel off : ℕ)
        → length bytes ≤ off
        → scan_loop reads (suc fuel) bytes seg skip off ≡ indexed bytes []
    unfolding scan_loop
    scan_past fuel off h = ground (arith, h)

    cut_ends : (off : ℕ) → is_finished (cut_tail bytes skip off) ≡ true
    cut_ends off =
        is_finished-if (ltb off skip) (corrupt off) (indexed (take off bytes) []) refl refl

    -- The tests of a round, by the ways in which it can go on.
    round_ends :
        (t1 t2 t3 t4 : Bool) (torn resume rest : Scanned)
        → is_finished torn ≡ true
        → is_finished resume ≡ true
        → is_finished rest ≡ true
        → is_finished (
            if t1
            then indexed bytes []
            else if t2
            then torn
            else if t3
            then resume
            else if t4
            then torn
            else rest)
          ≡ true
    round_ends t1 t2 t3 t4 torn resume rest h k l =
        is_finished-if t1 _ _ refl
          (is_finished-if t2 _ _ h (is_finished-if t3 _ _ k (is_finished-if t4 _ _ h l)))

    record_ends :
        (off n : ℕ) (r : Result Header) (resume after : Scanned)
        → is_finished resume ≡ true
        → is_finished after ≡ true
        → is_finished (elim r [
          | err e ↦ resume
          | ok h ↦
              if not (n == header_size + h.length)
              then resume
              else if leb (off + record_head_len + n) skip
              then after
              else prepend
                  (record { seg = seg; offset = off; length = n; seq = h.seq; typ = h.type })
                  after
        ])
          ≡ true
    record_ends off n (err e) resume after h k = h
    record_ends off n (ok hd) resume after h k =
        is_finished-if (not (n == header_size + hd.length)) _ _ h (
          is_finished-if (leb (off + record_head_len + n) skip) _ _ k
            (is_finished-prepend _ after ∙ k))

    found_ends :
        (r : Option ℕ) (off : ℕ) (go : ℕ → Scanned)
        → ((next : ℕ) → r ≡ some next → is_finished (go next) ≡ true)
        → is_finished (elim r [ some next ↦ go next | none ↦ cut_tail bytes skip off ]) ≡ true
    found_ends none off go h = cut_ends off
    found_ends (some next) off go h = h next refl

    scan_ends :
        (fuel off : ℕ)
        → 0 < fuel
        → length bytes < off + fuel
        → is_finished (scan_loop reads fuel bytes seg skip off) ≡ true
    unfolding scan_loop
    scan_ends zero off s h = absurd (omega arith)
    scan_ends (suc fuel) off s h = elim (Bool-cases (leb (length bytes) off)) [
      | inl past ↦ ap is_finished (scan_past fuel off (ground (arith, past)))
      | inr more ↦
          round_ends _ _ _ _ _ _ _
            (found_ends (resync_record reads bytes off) off (λ next. indexed bytes [])
              (λ next e. refl))
            (found_ends (resync_record reads bytes off) off (scan_loop reads fuel bytes seg skip)
              (λ next e.
                scan_ends fuel next (ground (arith, more, h))
                  (omega (arith, resync_record-lt off next e))))
            (record_ends off (record_length bytes off) (header_at bytes off) _ _
              (found_ends (resync_record reads bytes off) off (scan_loop reads fuel bytes seg skip)
                (λ next e.
                  scan_ends fuel next (ground (arith, more, h))
                    (omega (arith, resync_record-lt off next e))))
              (scan_ends fuel (off + record_head_len + record_length bytes off)
                (ground (arith, more, h)) (omega arith)))
    ]

    scan_loop-ends :
        (fuel : ℕ) → length bytes < fuel → scan_loop reads fuel bytes seg skip 0 ≢ unfinished
    scan_loop-ends fuel h e =
        absurd
          (ground (arith, sym (ap is_finished e) ∙ scan_ends fuel 0 (omega arith) (omega arith)))

-- The scan of a segment of any bytes, whichever of its reads fail, comes out of its loop within one
-- round more than the file has bytes.
pub index_segment-ends :
    (reads : ReadFaults) (bytes : List ℕ) (seg skip : ℕ)
    → index_segment reads bytes seg skip ≢ unfinished
unfolding index_segment
index_segment-ends reads bytes seg skip =
    scan_loop-ends reads bytes seg skip (length bytes + 1) (omega arith)
