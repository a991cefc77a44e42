-- ===== src/Wal/Recovery/Reopened.antt =====
-- Open of internal/wal/wal.go on a directory that a crash has left.
use vm_sync.Base.{
  ℕ, ◌+◌, ◌≤◌, ◌<◌, ◌≡◌, ◌%◌, ◌^◌, refl, ap, subst, ◌∙◌, arith, List, [], ◌∷◌, All, Bool, true,
  false, if◌then◌else◌, ◌==◌, ltb, drop, length, Bool-cases, inl, inr,
}
use vm_sync.Base.Int.{ℤ}
use vm_sync.Base.Maps
use vm_sync.Base.Maps.{get-put}
use vm_sync.Wal.Scan.{FrameIndex}
use vm_sync.Wal.State.{
  has_fault, Checkpoint, Wal, Disk, Step, opened, done, and_then, contents, call, pending,
}
use vm_sync.Wal.Append.{rotate, touch, attach}
use vm_sync.Wal.Open.{
  readable_files, split_at, segment_numbers, scan_segments, max_seq, restore_next_seq,
  last_segment_idx, load_checkpoint, fresh, open_wal,
}
use vm_sync.Wal.Outcome.{Ends, Ends-weaken}
use vm_sync.Wal.Written.{contents-put}
use vm_sync.Wal.Recovery.Segments.{Segment, Has, Holds, whole, entries}
use vm_sync.Wal.Recovery.Reindex.{
  contents-put_other, Calm, Runs, Runs-and_then, call-Runs, Indexing,
}
use vm_sync.Wal.Recovery.Rebuilt.{Rebuilt, scan_segments-Runs}

-- The log over the directory `d` with the segments `ss`: nothing of the index is acknowledged; what waits are the frames behind the place of
-- the checkpoint, in their order; the torn tails are cut off; the next number is above all of
-- these frames' and not below the stored one; the cursor is the stored one; and a segment is open, with
-- the next record's place at its end.
pub record Reopened (d : Disk) (ss : List Segment) (w : Wal) : Type 0 where
  pub acked : w.acked ≡ 0
  pub waiting : pending w ≡ entries (load_checkpoint d).0 ss
  pub files : All (Has whole w.disk.files) ss
  pub unused : All (λ fi. fi.seq < w.cp.next_seq) (entries (load_checkpoint d).0 ss)
  pub next_seq : (load_checkpoint d).0.next_seq ≤ w.cp.next_seq
  pub cursor : w.cp.cursor_ns ≡ (load_checkpoint d).0.cursor_ns
  pub is_open : w.cur_file ≡ opened
  pub at_end : w.cur_offset ≡ length (contents w.cur_seg w.disk.files)

below_max : (fis : List FrameIndex) (n : ℕ) → max_seq fis < n → All (λ fi. fi.seq < n) fis
unfolding max_seq
below_max [] n h = tt
below_max (fi ∷ fis) n h = (omega (arith, h), below_max fis n (omega (arith, h)))

restored_seq :
    (w : Wal)
    → max_seq w.index + 1 < 2 ^ 64
    → (max_seq w.index < (restore_next_seq w).cp.next_seq)
      × (w.cp.next_seq ≤ (restore_next_seq w).cp.next_seq)
unfolding restore_next_seq
restored_seq w h = ground (arith, h)

contents-touch :
    (k j : ℕ) (files : List (ℕ × List ℕ))
    → contents j (Maps.put k (contents k files) files) ≡ contents j files
contents-touch k j files = elim (Bool-cases (k == j)) [
  | inl same ↦
      subst (λ (i : ℕ). contents i (Maps.put k (contents k files) files) ≡ contents i files)
        (ground (arith, same)) (contents-put k (contents k files) files)
  | inr other ↦ contents-put_other k j (contents k files) files other
]

Has-touch :
    (k : ℕ) (files : List (ℕ × List ℕ)) (ss : List Segment)
    → All (Has whole files) ss
    → All (Has whole (Maps.put k (contents k files) files)) ss
Has-touch k files [] a = tt
Has-touch k files (s ∷ ss) a = (contents-touch k s.number files ∙ a.0, Has-touch k files ss a.1)

module _ (d : Disk) (ss : List Segment) (holds : Holds d ss) where
  abbrev cp : Checkpoint
  cp = (load_checkpoint d).0

  abbrev Scanned : Wal → Type 0
  Scanned = Indexing d.faults cp [] [] ss

  abbrev Listed : Wal → Type 0
  Listed w = Scanned w × (w.disk.files ≡ d.files)

  -- The log with its next number; only the file to write to is missing.
  abbrev Numbered : Wal → Type 0
  Numbered w =
      (w.acked ≡ 0)
      × ((w.index ≡ entries cp ss)
          × (All (Has whole w.disk.files) ss
              × ((max_seq (entries cp ss) < w.cp.next_seq)
                  × ((cp.next_seq ≤ w.cp.next_seq) × (w.cp.cursor_ns ≡ cp.cursor_ns)))))

  abbrev Attached : Wal → Type 0
  Attached w =
      Numbered w
      × ((w.cur_file ≡ opened) × (w.cur_offset ≡ length (contents w.cur_seg w.disk.files)))

  restore-Numbered :
      (w : Wal)
      → max_seq (entries cp ss) + 1 < 2 ^ 64
      → Rebuilt d.faults cp ss w
      → Numbered (restore_next_seq w)
  unfolding restore_next_seq
  restore-Numbered w small r = by_test (ltb w.cp.next_seq ((max_seq w.index + 1) % 2 ^ 64)) refl
    where
      least : (max_seq w.index + 1) % 2 ^ 64 ≡ max_seq (entries cp ss) + 1
      least = ap (λ (l : List FrameIndex). (max_seq l + 1) % 2 ^ 64) r.1.0 ∙ omega (arith, small)

      by_test :
          (t : Bool)
          → ltb w.cp.next_seq ((max_seq w.index + 1) % 2 ^ 64) ≡ t
          → Numbered (
              if t
              then record w { cp = record w.cp { next_seq = (max_seq w.index + 1) % 2 ^ 64 } }
              else w)
      by_test true e = (
        r.0,
        (
          r.1.0,
          (r.1.1.0, (omega (arith, least), (ground (arith, e, least, r.1.1.1.0), r.1.1.1.1))),
        ),
      )
      by_test false e = (
        r.0,
        (r.1.0, (r.1.1.0, (ground (arith, e, least), (omega (arith, r.1.1.1.0), r.1.1.1.1)))),
      )

  faultless : (w : Wal) → Calm d.faults w → Calm d.faults (restore_next_seq w)
  unfolding restore_next_seq
  faultless w c e = c (ground (arith, e))

  rotate-Runs : (w : Wal) → Numbered w → Calm d.faults w → Runs d.faults Attached (rotate w)
  unfolding rotate
  rotate-Runs w n c =
      Runs-and_then d.faults Numbered Attached (call w)
        (λ _ u. and_then (call (touch u)) (λ _ x. done tt (attach x)))
        (call-Runs d.faults Numbered w (λ gs. n) n c)
        (λ _ u m e.
          let files = Has-touch u.cur_seg u.disk.files ss m.1.1.0 in
          let k : Numbered (touch u) = (m.0, (m.1.0, (files, m.1.1.1))) in
          Runs-and_then d.faults Numbered Attached (call (touch u)) (λ _ x. done tt (attach x))
            (call-Runs d.faults Numbered (touch u) (λ gs. k) k e)
            (λ _ x i a. ((i, (refl, refl)), a)))

  Attached-Reopened : (w : Wal) → Attached w → Reopened d ss w
  Attached-Reopened w a = record {
    acked = a.0.0;
    waiting = ap (λ (n : ℕ). drop n w.index) a.0.0 ∙ a.0.1.0;
    files = a.0.1.1.0;
    unused = below_max (entries cp ss) w.cp.next_seq a.0.1.1.1.0;
    next_seq = a.0.1.1.1.1.0;
    cursor = a.0.1.1.1.1.1;
    is_open = a.1.0;
    at_end = a.1.1;
  }

  opening :
      (seg_size : ℤ)
      → max_seq (entries cp ss) + 1 < 2 ^ 64
      → Runs d.faults Attached (open_wal readable_files false seg_size d)
  unfolding open_wal fresh
  opening seg_size small =
      calls (fresh seg_size d) (λ w. and_then (call w) (λ _ u. and_then (call u) (λ _. scan)))
        (λ w l c.
          calls w (λ u. and_then (call u) (λ _. scan)) (λ u m e. calls u scan scanning m e) l c)
        ((refl, (refl, (refl, (tt, holds.files)))), refl) (λ e. e)
    where
      calls :
          (w : Wal) (f : Wal → Step Wal (Unit {0}))
          → ((u : Wal) → Listed u → Calm d.faults u → Runs d.faults Attached (f u))
          → Listed w
          → Calm d.faults w
          → Runs d.faults Attached (and_then (call w) (λ _. f))
      calls w f k l c =
          Runs-and_then d.faults Listed Attached (call w) (λ _. f)
            (call-Runs d.faults Listed w (λ gs. l) l c) (λ _ u. k u)

      to_last : Wal → Step Wal (Unit {0})
      to_last w = rotate (record w { cur_seg = last_segment_idx w })

      number_on : Wal → Step Wal (Unit {0})
      number_on w = and_then (call (restore_next_seq w)) (λ _. to_last)

      scan : Wal → Step Wal (Unit {0})
      scan w = and_then (scan_segments readable_files w) (λ _. number_on)

      scanning : (w : Wal) → Listed w → Calm d.faults w → Runs d.faults Attached (scan w)
      scanning w l c =
          Runs-and_then d.faults (Rebuilt d.faults cp ss) Attached (scan_segments readable_files w)
            (λ _. number_on)
            (scan_segments-Runs d.faults cp ss w
              (ap (λ (files : List (ℕ × List ℕ)). (split_at cp.seg_start (segment_numbers files)).1)
                  l.1
                ∙ holds.alive)
              holds.segments holds.distinct l.0 c)
            (λ _ u r e.
              let n = restore-Numbered u small r in
              Runs-and_then d.faults Numbered Attached (call (restore_next_seq u)) (λ _. to_last)
                (call-Runs d.faults Numbered (restore_next_seq u) (λ gs. n) n (faultless u e))
                (λ _ v m a. rotate-Runs (record v { cur_seg = last_segment_idx v }) m a))

-- Where the segment files from the checkpoint's on hold whole records, with a torn tail of less than 24
-- bytes behind them at most, and the acknowledged part of the first lies within them: Open, if it
-- returns, gives the log that waits for exactly the frames behind the checkpoint's place. It
-- does not panic, and it returns an error only if one of the coming calls of the system fails. No read of
-- a segment file fails, the frames' numbers are below 2^64 - 1, and no other process holds the directory.
pub open_wal-Reopened :
    (seg_size : ℤ) (d : Disk) (ss : List Segment)
    → Holds d ss
    → max_seq (entries (load_checkpoint d).0 ss) + 1 < 2 ^ 64
    → Ends
        (λ _. Reopened d ss)
        (λ _. has_fault d.faults ≡ true)
        (open_wal readable_files false seg_size d)
open_wal-Reopened seg_size d ss holds small =
    Ends-weaken (λ _ w. Attached d ss holds w × Calm d.faults w) (λ _. Reopened d ss)
      (λ _. has_fault d.faults ≡ true) (λ _. has_fault d.faults ≡ true)
      (open_wal readable_files false seg_size d) (λ _ w a. Attached-Reopened d ss holds w a.0)
      (λ _ e. e) (opening d ss holds seg_size small)
