-- ===== src/Wal/Recovery/Resumed.antt =====
-- Open of internal/wal/wal.go: the directory holds what the opened log knows, so that appending goes on.
use vm_sync.Base.{
  ℕ, ◌+◌, ◌≤◌, ◌<◌, ◌≡◌, ◌^◌, refl, sym, ap, subst, ◌∙◌, arith, List, [], ◌∷◌, ◌++◌, append-nil,
  All, length, true, false, Distinct, contains,
}
use vm_sync.Base.Int.{ℤ}
use vm_sync.Base.Maps
use vm_sync.Wal.Scan.{FrameIndex}
use vm_sync.Wal.State.{
  has_fault, Checkpoint, Wal, Disk, Step, done, failed, panicked, endless, contents,
}
use vm_sync.Wal.Open.{readable_files, segment_numbers, max_seq, load_checkpoint, open_wal}
use vm_sync.Wal.Outcome.{Ends, Ends-weaken}
use vm_sync.Wal.Recovery.Segments.{
  Segment, IsSegment, Has, Holds, whole, torn, numbers, entries_in, entries,
}
use vm_sync.Wal.Recovery.Listing.{alive-ge}
use vm_sync.Wal.Recovery.Reopened.{Reopened, open_wal-Reopened}
use vm_sync.Wal.Recovery.Directory.{with_last}
use vm_sync.Wal.Recovery.Grown.{All-last}
use vm_sync.Wal.Recovery.Named.{present}
use vm_sync.Wal.Recovery.Relist.{Placed}
use vm_sync.Wal.Recovery.Relisted.{open_wal-Placed}
use vm_sync.Wal.Recovery.Taken.{IsLogged, same_checkpoint}

-- The segments without their torn tails.
abbrev pub trim : Segment → Segment
trim s = record s { tail = [] }

abbrev pub trimmed : List Segment → List Segment
trimmed [] = []
trimmed (s ∷ ss) = trim s ∷ trimmed ss

module _ (s : Segment) where
  numbers-trimmed :
      (front : List Segment)
      → numbers (with_last front s) ≡ numbers (with_last (trimmed front) (trim s))
  numbers-trimmed [] = refl
  numbers-trimmed (f ∷ front) = ap (λ (l : List ℕ). f.number ∷ l) (numbers-trimmed front)

  entries-trimmed :
      (cp : Checkpoint) (front : List Segment)
      → entries cp (with_last (trimmed front) (trim s)) ≡ entries cp (with_last front s)
  entries-trimmed cp [] = refl
  entries-trimmed cp (f ∷ front) =
      ap (λ (l : List FrameIndex). entries_in cp f ++ l) (entries-trimmed cp front)

  trimmed_segments :
      (cp : Checkpoint) (front : List Segment)
      → All (IsSegment cp) (with_last front s)
      → All (IsSegment cp) (with_last (trimmed front) (trim s))
  trimmed_segments cp [] a =
      (record { framed = a.0.framed; short = omega arith; acked = a.0.acked }, tt)
  trimmed_segments cp (f ∷ front) a = (
    record { framed = a.0.framed; short = omega arith; acked = a.0.acked },
    trimmed_segments cp front a.1,
  )

trimmed_files :
    (files : List (ℕ × List ℕ)) (front : List Segment)
    → All (Has whole files) front
    → All (Has torn files) (trimmed front)
trimmed_files files [] a = tt
trimmed_files files (f ∷ front) a =
    (a.0 ∙ sym (append-nil (whole f)), trimmed_files files front a.1)

last_number :
    (front : List Segment) (s : Segment) → contains s.number (numbers (with_last front s)) ≡ true
last_number [] s = ground arith
last_number (f ∷ front) s = ground (arith, last_number front s)

all_numbers :
    (P : ℕ → Type 0) (front : List Segment) (s : Segment)
    → All P (numbers (with_last front s))
    → P s.number
all_numbers P [] s a = a.0
all_numbers P (f ∷ front) s a = all_numbers P front s a.1

-- Two facts of one outcome.
Ends-both :
    (P P' : Wal → Type 0) (Q Q' : Wal → Type 0) (s : Step Wal (Unit {0}))
    → Ends (λ _. P) Q s
    → Ends (λ _. P') Q' s
    → Ends (λ _ w. P w × P' w) Q s
Ends-both P P' Q Q' (done u w) h k = (h, k)
Ends-both P P' Q Q' (failed w) h k = h
Ends-both P P' Q Q' panicked h k = h
Ends-both P P' Q Q' endless h k = h

-- On a directory of whole records with torn tails of less than 24 bytes, where no file is behind the last segment, Open, if it
-- returns, gives a log whose directory holds what it knows, in whole records, with the last
-- segment open: nothing is acknowledged beyond the stored checkpoint. It ends without a panic, and
-- returns an error only if one of the coming calls of the system fails. No read of a segment file fails.
-- The frames' numbers are below 2^64 - 1.
pub open_wal-IsLogged :
    (seg_size : ℤ) (d : Disk) (front : List Segment) (s : Segment)
    → Holds d (with_last front s)
    → Distinct (Maps.keys d.files)
    → All (λ k. k ≤ s.number) (Maps.keys d.files)
    → max_seq (entries (load_checkpoint d).0 (with_last front s)) + 1 < 2 ^ 64
    → Ends
        (λ _. IsLogged (load_checkpoint d).0 [] (trimmed front) (trim s))
        (λ _. has_fault d.faults ≡ true)
        (open_wal readable_files false seg_size d)
open_wal-IsLogged seg_size d front s holds once behind small =
    Ends-weaken
      (λ _ w. Reopened d (with_last front s) w × Placed start s.number names d.checkpoint w)
      (λ _. IsLogged cp [] (trimmed front) (trim s)) (λ _. has_fault d.faults ≡ true)
      (λ _. has_fault d.faults ≡ true) (open_wal readable_files false seg_size d)
      (λ _ w p. logged w p.0 p.1) (λ _ e. e)
      (Ends-both (Reopened d (with_last front s)) (Placed start s.number names d.checkpoint)
        (λ _. has_fault d.faults ≡ true) (λ _. Unit {0}) (open_wal readable_files false seg_size d)
        (open_wal-Reopened seg_size d (with_last front s) holds small)
        (open_wal-Placed s.number names seg_size d
          (record { alive = holds.alive; once = once; behind = behind }) (last_number front s)))
  where
    cp : Checkpoint
    cp = (load_checkpoint d).0

    start : ℕ
    start = (load_checkpoint d).0.seg_start

    names : List ℕ
    names = numbers (with_last front s)

    logged :
        (w : Wal)
        → Reopened d (with_last front s) w
        → Placed start s.number names d.checkpoint w
        → IsLogged cp [] (trimmed front) (trim s) w
    logged w r p = record {
      stored = same_checkpoint d w.disk p.0.1;
      writing = record {
        alive = p.0.0.alive ∙ numbers-trimmed s front;
        once = p.0.0.once;
        distinct = subst Distinct (numbers-trimmed s front) holds.distinct;
        others =
            trimmed_files w.disk.files front (All-last (Has whole w.disk.files) front s r.files).0;
        bytes = (All-last (Has whole w.disk.files) front s r.files).1 ∙ sym (append-nil (whole s));
        present = present start s.number names s.number w.disk.files p.0.0 (last_number front s);
        behind = p.0.0.behind;
        started =
            all_numbers (λ k. start ≤ k) front s
              (subst (All (λ k. start ≤ k)) p.0.0.alive
                (alive-ge start (segment_numbers w.disk.files)));
      };
      segments = trimmed_segments s cp front holds.segments;
      clean = refl;
      place = p.1;
      at_end =
          r.at_end
          ∙ ap length (
              ap (λ (k : ℕ). contents k w.disk.files) p.1
              ∙ (All-last (Has whole w.disk.files) front s r.files).1);
      held = r.is_open;
      known = entries-trimmed s cp front ∙ sym r.waiting;
      acked = omega (arith, r.acked);
    }
