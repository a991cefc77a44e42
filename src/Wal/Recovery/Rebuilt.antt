-- ===== src/Wal/Recovery/Rebuilt.antt =====
-- scanSegments of internal/wal/wal.go: the index that it makes of the directory.
use vm_sync.Base.{
  ℕ, ◌≤◌, ◌≡◌, refl, sym, ap, subst, ◌∙◌, arith, List, [], ◌∷◌, All, Option, Bool, true, false,
  if◌then◌else◌, ltb, Distinct, contains,
}
use vm_sync.Wal.State.{Checkpoint, Wal, done, and_then, call}
use vm_sync.Wal.Open.{
  readable_files, segment_numbers, split_at, index_files, remove_files, start_from, scan_segments,
}
use vm_sync.Wal.Recovery.Segments.{Segment, IsSegment, Has, whole, numbers, entries}
use vm_sync.Wal.Recovery.Reindex.{Calm, Runs, Runs-and_then, call-Runs, Indexing}
use vm_sync.Wal.Recovery.Listing.{
  Ascending, segment_numbers-Ascending, stale-lt, alive-ge, alive-Ascending, Apart-nil, Indexed,
  index_files-Runs, remove_files-Runs,
}
use vm_sync.Wal.Recovery.Starting.{
  start_at, entries_agree, segments_agree, all_agree, all_outside, over, start_at-kept,
}

module _ (faults : List (Option ℕ)) (cp : Checkpoint) (ss : List Segment) where
  -- The log that the scan gives.
  abbrev pub Rebuilt : Wal → Type 0
  Rebuilt v =
      (v.acked ≡ 0)
      × ((v.index ≡ entries cp ss)
          × (All (Has whole v.disk.files) ss
              × ((v.cp.next_seq ≡ cp.next_seq) × (v.cp.cursor_ns ≡ cp.cursor_ns))))

  start_from-Indexing :
      (first : ℕ) (v : Wal)
      → Indexing faults cp [] [] ss v
      → Calm faults v
      → Indexing faults (start_at first cp) [] [] ss (start_from first v)
        × Calm faults (start_from first v)
  start_from-Indexing first v b c = by_test (ltb v.cp.seg_start first) refl
    where
      by_test :
          (t : Bool)
          → ltb v.cp.seg_start first ≡ t
          → Indexing faults (start_at first cp) [] [] ss (
              if t then record v { cp = record v.cp { seg_start = first; acked_bytes = 0 } } else v)
            × Calm faults (
                if t
                then record v { cp = record v.cp { seg_start = first; acked_bytes = 0 } }
                else v)
      by_test true e = (
        (
          ap (λ (q : Checkpoint). record q { seg_start = first; acked_bytes = 0 }) b.0
              ∙ sym (
                  ap
                    (λ (t : Bool).
                      if t then record cp { seg_start = first; acked_bytes = 0 } else cp)
                    (ap (λ (q : Checkpoint). ltb q.seg_start first) (sym b.0) ∙ e)),
          b.1,
        ),
        c,
      )
      by_test false e = (
        (
          b.0
              ∙ sym (
                  ap
                    (λ (t : Bool).
                      if t then record cp { seg_start = first; acked_bytes = 0 } else cp)
                    (ap (λ (q : Checkpoint). ltb q.seg_start first) (sym b.0) ∙ e)),
          b.1,
        ),
        c,
      )

module _ (faults : List (Option ℕ)) (cp : Checkpoint) where
  over-Runs :
      (ss : List Segment) (v : Wal)
      → All (IsSegment cp) ss
      → Distinct (numbers ss)
      → Ascending (numbers ss)
      → Indexing faults cp [] [] ss v
      → Calm faults v
      → Runs faults (Rebuilt faults cp ss) (over (numbers ss) v)
  over-Runs [] v ok d up b c = (
    (
      b.1.0,
      (
        b.1.1.0,
        (tt, (ap (λ (q : Checkpoint). q.next_seq) b.0, ap (λ (q : Checkpoint). q.cursor_ns) b.0)),
      ),
    ),
    c,
  )
  over-Runs (s ∷ ss) v ok d up b c =
      let cp' = start_at s.number cp in
      let same = all_agree s.number cp (numbers (s ∷ ss)) (omega arith, up.0) in
      let start = start_from-Indexing faults cp (s ∷ ss) s.number v b c in
      Runs-and_then faults (Indexed faults cp' (entries cp' (s ∷ ss)) [] (s ∷ ss))
        (Rebuilt faults cp (s ∷ ss))
        (index_files readable_files (numbers (s ∷ ss)) (start_from s.number v))
        (λ _ u. done tt (record u { acked = 0 }))
        (index_files-Runs faults cp' [] [] (s ∷ ss) (start_from s.number v)
          (segments_agree cp cp' (s ∷ ss) same ok) d (Apart-nil (numbers (s ∷ ss))) start.0 start.1)
        (λ _ u r e. (
          (
            refl,
            (
              r.1.1.0 ∙ entries_agree cp cp' (s ∷ ss) same,
              (
                r.1.1.1.1,
                (
                  ap (λ (q : Checkpoint). q.next_seq) r.0 ∙ (start_at-kept cp s.number).0,
                  ap (λ (q : Checkpoint). q.cursor_ns) r.0 ∙ (start_at-kept cp s.number).1,
                ),
              ),
            ),
          ),
          e,
        ))

  -- The stale files, and the others.
  after_list-Runs :
      (ss : List Segment) (v : Wal) (split : List ℕ × List ℕ)
      → split.1 ≡ numbers ss
      → All (λ k. contains k (numbers ss) ≡ false) split.0
      → All (IsSegment cp) ss
      → Distinct (numbers ss)
      → Ascending (numbers ss)
      → Indexing faults cp [] [] ss v
      → Calm faults v
      → Runs faults
          (Rebuilt faults cp ss)
          (and_then (remove_files split.0 v) (λ _ w. over split.1 w))
  after_list-Runs ss v split e stale ok d up b c =
      Runs-and_then faults (Indexing faults cp [] [] ss) (Rebuilt faults cp ss)
        (remove_files split.0 v) (λ _. over split.1)
        (remove_files-Runs faults cp split.0 ss v stale b c)
        (λ _ w b1 c1.
          subst (λ (l : List ℕ). Runs faults (Rebuilt faults cp ss) (over l w)) (sym e)
            (over-Runs ss w ok d up b1 c1))

  pub scan_segments-Runs :
      (ss : List Segment) (v : Wal)
      → ((split_at cp.seg_start (segment_numbers v.disk.files)).1 ≡ numbers ss)
      → All (IsSegment cp) ss
      → Distinct (numbers ss)
      → Indexing faults cp [] [] ss v
      → Calm faults v
      → Runs faults (Rebuilt faults cp ss) (scan_segments readable_files v)
  unfolding scan_segments
  scan_segments-Runs ss v e ok d b c =
      Runs-and_then faults Listed (Rebuilt faults cp ss) (call v)
        (λ _ w.
          let split = split_at w.cp.seg_start (segment_numbers w.disk.files) in
          and_then (remove_files split.0 w) (λ _. over split.1))
        (call-Runs faults Listed v (λ gs. (b, refl)) (b, refl) c)
        (λ _ w l c1.
          let split = split_at w.cp.seg_start (segment_numbers w.disk.files) in
          let start = ap (λ (q : Checkpoint). q.seg_start) l.0.0 in
          let f =
            ap (λ (q : ℕ). (split_at q (segment_numbers w.disk.files)).1) start
            ∙ ap (λ (files : List (ℕ × List ℕ)). (split_at cp.seg_start (segment_numbers files)).1)
                l.1
            ∙ e in
          after_list-Runs ss w split f
            (all_outside w.cp.seg_start split.0 (numbers ss)
              (stale-lt w.cp.seg_start (segment_numbers w.disk.files))
              (subst (All (λ j. w.cp.seg_start ≤ j)) f
                (alive-ge w.cp.seg_start (segment_numbers w.disk.files))))
            ok d
            (subst Ascending f (
              alive-Ascending w.cp.seg_start (segment_numbers w.disk.files)
                (segment_numbers-Ascending w.disk.files)))
            l.0 c1)
    where
      Listed : Wal → Type 0
      Listed w = Indexing faults cp [] [] ss w × (w.disk.files ≡ v.disk.files)
