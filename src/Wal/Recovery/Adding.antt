-- ===== src/Wal/Recovery/Adding.antt =====
-- AppendEncoded of internal/wal/wal.go: its steps, and what they do to the segment that is written to.
use vm_sync.Base.{
  refl, true, ℕ, ◌≡◌, ◌%◌, ◌^◌, sym, ap, subst, ◌∙◌, List, [], ◌∷◌, ◌++◌, append-nil, append_assoc,
  Option, none, some, if◌then◌else◌, length,
}
use vm_sync.Base.Maps
use vm_sync.Protocol.Bytes.{put_be}
use vm_sync.Wal.Scan.{FrameIndex}
use vm_sync.Wal.Records.{record_of}
use vm_sync.Wal.State.{
  has_fault, Checkpoint, Wal, Handle, opened, Step, failed, contents, call, write, write_with, sync,
  is_open,
}
use vm_sync.Wal.Append.{write_record}
use vm_sync.Wal.Recovery.Segments.{Segment, whole, entries_in, entries}
use vm_sync.Wal.Recovery.Reindex.{Calm, Runs, Runs-and_then, call-Runs}
use vm_sync.Wal.Recovery.Directory.{with_last, IsWriting, IsWriting-put}

pub entries-with_last :
    (cp : Checkpoint) (front : List Segment) (s : Segment)
    → entries cp (with_last front s) ≡ entries cp front ++ entries_in cp s
entries-with_last cp [] s = append-nil (entries_in cp s)
entries-with_last cp (f ∷ front) s =
    ap (λ (l : List FrameIndex). entries_in cp f ++ l) (entries-with_last cp front s)
    ∙ sym (append_assoc (entries_in cp f) (entries cp front) (entries_in cp s))

-- What a state has in common with `w`, with the segment `s` open behind `front`, up to its tail.
module _ (w : Wal) (start : ℕ) where
  abbrev pub Same : Wal → Type 0
  Same v =
      (v.index ≡ w.index)
      × ((v.acked ≡ w.acked) × ((v.cp ≡ w.cp) × (v.disk.checkpoint ≡ w.disk.checkpoint)))

  abbrev pub Writing : List Segment → Segment → List ℕ → Wal → Type 0
  Writing front s tail v =
      Same v
      × ((v.cur_seg ≡ s.number)
          × ((v.cur_offset ≡ length (whole s))
              × ((v.cur_file ≡ opened)
                  × IsWriting start front (record s { tail = tail }) v.disk.files)))

  module _ (front : List Segment) (s : Segment) where
    appended :
        (tail bs : List ℕ) (v : Wal)
        → Writing front s tail v
        → IsWriting start front
            (record s { tail = tail ++ bs })
            (Maps.put v.cur_seg (contents v.cur_seg v.disk.files ++ bs) v.disk.files)
    appended tail bs v r =
        subst
          (λ (b : List ℕ).
            IsWriting start front (record s { tail = tail ++ bs })
              (Maps.put v.cur_seg (b ++ bs) v.disk.files))
          (sym (ap (λ (k : ℕ). contents k v.disk.files) r.1.0 ∙ r.1.1.1.1.bytes))
          (subst
            (λ (b : List ℕ).
              IsWriting start front (record s { tail = tail ++ bs })
                (Maps.put v.cur_seg b v.disk.files))
            (sym (append_assoc (whole s) tail bs))
            (subst
              (λ (k : ℕ).
                IsWriting start front (record s { tail = tail ++ bs })
                  (Maps.put k (whole s ++ (tail ++ bs)) v.disk.files))
              (sym r.1.0)
              (IsWriting-put start front (record s { tail = tail }) v.disk.files r.1.1.1.1
                (tail ++ bs))))

    write_with-Runs :
        (tail bs : List ℕ) (fs : List (Option ℕ)) (v : Wal)
        → Writing front s tail v
        → (has_fault fs ≡ true → has_fault w.disk.faults ≡ true)
        → Calm w.disk.faults v
        → Runs w.disk.faults (Writing front s (tail ++ bs)) (write_with fs bs v)
    unfolding write_with
    write_with-Runs tail bs [] v r calm c =
        ((r.0, (r.1.0, (r.1.1.0, (r.1.1.1.0, appended tail bs v r)))), c)
    write_with-Runs tail bs (none ∷ fs) v r calm c =
        ((r.0, (r.1.0, (r.1.1.0, (r.1.1.1.0, appended tail bs v r)))), calm)
    write_with-Runs tail bs (some n ∷ fs) v r calm c = calm refl

    if_open :
        (P : Wal → Type 0) (v : Wal) (m n : Step Wal (Unit {0}))
        → v.cur_file ≡ opened
        → Runs w.disk.faults P m
        → Runs w.disk.faults P (if is_open v.cur_file then m else n)
    if_open P v m n o h =
        subst (λ (f : Handle). Runs w.disk.faults P (if is_open f then m else n)) (sym o) h

    write-Runs :
        (tail bs : List ℕ) (v : Wal)
        → Writing front s tail v
        → Calm w.disk.faults v
        → Runs w.disk.faults (Writing front s (tail ++ bs)) (write bs v)
    unfolding write
    write-Runs tail bs v r c =
        if_open (Writing front s (tail ++ bs)) v (write_with v.disk.faults bs v) (failed v)
          r.1.1.1.0 (write_with-Runs tail bs v.disk.faults v r c c)

    pub write_record-Runs :
        (fb : List ℕ) (v : Wal)
        → Writing front s [] v
        → Calm w.disk.faults v
        → Runs w.disk.faults (Writing front s (record_of fb)) (write_record fb v)
    unfolding write_record record_of
    write_record-Runs fb v r c =
        Runs-and_then w.disk.faults (Writing front s (put_be 4 (length fb % 2 ^ 32)))
          (Writing front s (put_be 4 (length fb % 2 ^ 32) ++ fb))
          (write (put_be 4 (length fb % 2 ^ 32)) v) (λ _. write fb)
          (write-Runs [] (put_be 4 (length fb % 2 ^ 32)) v r c)
          (λ _ u. write-Runs (put_be 4 (length fb % 2 ^ 32)) fb u)

    pub sync-Runs :
        (tail : List ℕ) (v : Wal)
        → Writing front s tail v
        → Calm w.disk.faults v
        → Runs w.disk.faults (Writing front s tail) (sync v)
    unfolding sync
    sync-Runs tail v r c =
        if_open (Writing front s tail) v (call v) (failed v) r.1.1.1.0
          (call-Runs w.disk.faults (Writing front s tail) v (λ gs. r) r c)
