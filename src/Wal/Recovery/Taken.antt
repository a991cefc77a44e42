-- ===== src/Wal/Recovery/Taken.antt =====
-- AppendEncoded of internal/wal/wal.go on a directory that holds what the log knows.
use vm_sync.Base.{
  ℕ, ◌+◌, ◌≤◌, ◌<◌, ◌≡◌, refl, sym, ap, subst, ◌∙◌, arith, List, [], ◌∷◌, ◌++◌, append_assoc, All,
  All-append, Bool, true, if◌then◌else◌, ◌==◌, not, length, length-append, drop, drop-append_le,
}
use vm_sync.Wal.Scan.{FrameIndex, record_head_len}
use vm_sync.Wal.Records.{Framed, IsFramed, record_of, index_of, length-record_of}
use vm_sync.Wal.State.{Checkpoint, Wal, Disk, opened, Step, done, failed, and_then, sync, pending}
use vm_sync.Wal.Append.{append_encoded, ensure_space, write_record, add_entry, entry}
use vm_sync.Wal.Open.{split_at, segment_numbers, load_checkpoint, max_seq}
use vm_sync.Wal.Recovery.Segments.{Segment, IsSegment, Holds, Has, whole, torn, entries}
use vm_sync.Wal.Recovery.Reindex.{Runs, Runs-and_then}
use vm_sync.Wal.Recovery.Directory.{with_last, IsWriting}
use vm_sync.Wal.Recovery.Adding.{Writing, write_record-Runs, sync-Runs}
use vm_sync.Wal.Recovery.Grown.{
  All-last, grown, entries-grown, grown-IsSegment, IsWriting-grown, segment_of-append,
}
use vm_sync.Wal.Recovery.Room.{HasRoom, ensure_space-Runs}

-- The directory holds what the log knows: the segments `front` and, open for writing, `s`, with the frames
-- that wait behind `before`, the frames that are acknowledged but not yet in the stored checkpoint `cp`.
pub record IsLogged (cp : Checkpoint) (before : List FrameIndex) (front : List Segment)
    (s : Segment) (w : Wal) : Type 0 where
  pub stored : (load_checkpoint w.disk).0 ≡ cp
  pub writing : IsWriting cp.seg_start front s w.disk.files
  pub segments : All (IsSegment cp) (with_last front s)
  pub clean : s.tail ≡ []
  pub place : w.cur_seg ≡ s.number
  pub at_end : w.cur_offset ≡ length (whole s)
  pub held : w.cur_file ≡ opened
  pub known : entries cp (with_last front s) ≡ before ++ pending w
  pub acked : w.acked ≤ length w.index

pub IsLogged-Holds :
    (cp : Checkpoint) (before : List FrameIndex) (front : List Segment) (s : Segment) (w : Wal)
    → IsLogged cp before front s w
    → Holds w.disk (with_last front s)
IsLogged-Holds cp before front s w g = record {
  alive =
      ap (λ (q : Checkpoint). (split_at q.seg_start (segment_numbers w.disk.files)).1) g.stored
      ∙ g.writing.alive;
  distinct = g.writing.distinct;
  files = All-append (Has torn w.disk.files) front (s ∷ []) g.writing.others (g.writing.bytes, tt);
  segments =
      subst (λ (q : Checkpoint). All (IsSegment q) (with_last front s)) (sym g.stored) g.segments;
}

pub max_seq-append :
    (fis : List FrameIndex) (fi : FrameIndex) (n : ℕ)
    → max_seq fis < n
    → fi.seq < n
    → max_seq (fis ++ fi ∷ []) < n
unfolding max_seq
max_seq-append [] fi n h k = omega (arith, k)
max_seq-append (g ∷ fis) fi n h k = omega (arith, h, max_seq-append fis fi n (omega (arith, h)) k)

pub same_checkpoint :
    (d e : Disk) → e.checkpoint ≡ d.checkpoint → (load_checkpoint e).0 ≡ (load_checkpoint d).0
unfolding load_checkpoint
same_checkpoint d e h = rw h refl

-- The log has taken the frame.
pub record IsTaken (cp : Checkpoint) (before : List FrameIndex) (w : Wal) (x : Framed) (v : Wal)
    : Type 0 where
  pub front : List Segment
  pub last : Segment
  pub logged : IsLogged cp before front last v
  pub entry : FrameIndex
  pub waiting : pending v ≡ pending w ++ entry ∷ []
  pub header : (entry.seq ≡ x.header.seq) × (entry.typ ≡ x.header.type)

module _ (cp : Checkpoint) (before : List FrameIndex) (front : List Segment) (s : Segment) (w : Wal)
    (g : IsLogged cp before front s w) (x : Framed) (framed : IsFramed x) where
  module _ (r : Wal) (room : HasRoom w cp front s r) where
    last : IsSegment cp room.last
    last = (All-last (IsSegment cp) room.front' room.last room.segments).1

    abbrev Stored : Wal → Type 0
    Stored = Writing w cp.seg_start room.front' room.last (record_of x.bytes)

    taken :
        (v : Wal)
        → Stored v
        → IsTaken cp before w x
            (record (add_entry x.header.type x.header.seq x.bytes v) { notified = true })
    taken v k = record {
      front = room.front';
      last = grown room.last x;
      logged = record {
        stored = same_checkpoint w.disk v.disk k.0.1.1.1 ∙ g.stored;
        writing = IsWriting-grown cp.seg_start room.front' room.last x v.disk.files k.1.1.1.1;
        segments =
            All-append (IsSegment cp) room.front' (grown room.last x ∷ [])
              (All-last (IsSegment cp) room.front' room.last room.segments).0
              (grown-IsSegment cp room.last x last framed, tt);
        clean = refl;
        place = k.1.0;
        at_end = omega (
          arith,
          k.1.1.0,
          ap length (segment_of-append room.last.frames x),
          length-append (whole room.last) (record_of x.bytes),
          length-record_of x.bytes,
        );
        held = k.1.1.1.0;
        known =
            entries-grown cp room.front' room.last x last
            ∙ ap
                (λ (l : List FrameIndex).
                  l ++ index_of room.last.number (length (whole room.last)) x ∷ [])
                (room.kept ∙ g.known)
            ∙ append_assoc before (pending w)
                (index_of room.last.number (length (whole room.last)) x ∷ [])
            ∙ ap (λ (l : List FrameIndex). before ++ l) (sym waits);
        acked = omega (
          arith,
          k.0.1.0,
          ap length k.0.0,
          length-append v.index (entry v x.header.type x.header.seq x.bytes ∷ []),
          g.acked,
        );
      };
      entry = index_of room.last.number (length (whole room.last)) x;
      waiting = waits;
      header = (refl, refl);
    }
      where
        added : Wal
        added = record (add_entry x.header.type x.header.seq x.bytes v) { notified = true }

        same_entry :
            entry v x.header.type x.header.seq x.bytes
            ≡ index_of room.last.number (length (whole room.last)) x
        same_entry = ground (arith, k.1.0, k.1.1.0)

        waits :
            pending added ≡ pending w ++ index_of room.last.number (length (whole room.last)) x ∷ []
        waits =
            ap (λ (n : ℕ). drop n (v.index ++ entry v x.header.type x.header.seq x.bytes ∷ []))
              k.0.1.0
            ∙ ap
                (λ (l : List FrameIndex).
                  drop w.acked (l ++ entry v x.header.type x.header.seq x.bytes ∷ []))
                k.0.0
            ∙ drop-append_le w.acked w.index (entry v x.header.type x.header.seq x.bytes ∷ [])
                g.acked
            ∙ ap (λ (e : FrameIndex). pending w ++ e ∷ []) same_entry

  -- With the next number and a disk without faults the frame is taken.
  pub append_encoded-Runs :
      x.header.seq ≡ w.cp.next_seq
      → Runs w.disk.faults
          (IsTaken cp before w x)
          (append_encoded x.header.type x.header.seq x.bytes w)
  unfolding append_encoded
  append_encoded-Runs same =
      subst
        (λ (b : Bool).
          Runs w.disk.faults (IsTaken cp before w x) (if not b then failed w else steps))
        (sym met)
        (Runs-and_then w.disk.faults (HasRoom w cp front s) (IsTaken cp before w x)
          (ensure_space (length x.bytes + record_head_len) w)
          (λ _ r.
            and_then (write_record x.bytes r) (λ _ u. and_then (sync u) (λ _ v. done tt (noted v))))
          (ensure_space-Runs w cp front s g.clean g.segments g.writing.started
            (length x.bytes + record_head_len) w start (λ e. e))
          (λ _ r room c.
            Runs-and_then w.disk.faults (Stored r room) (IsTaken cp before w x)
              (write_record x.bytes r) (λ _ u. and_then (sync u) (λ _ v. done tt (noted v)))
              (write_record-Runs w cp.seg_start room.front' room.last x.bytes r room.at c)
              (λ _ u k e.
                Runs-and_then w.disk.faults (Stored r room) (IsTaken cp before w x) (sync u)
                  (λ _ v. done tt (noted v))
                  (sync-Runs w cp.seg_start room.front' room.last (record_of x.bytes) u k e)
                  (λ _ v j a. (taken r room v j, a)))))
    where
      met : (x.header.seq == w.cp.next_seq) ≡ true
      met = ground (arith, same)

      noted : Wal → Wal
      noted v = record (add_entry x.header.type x.header.seq x.bytes v) { notified = true }

      steps : Step Wal (Unit {0})
      steps = and_then (ensure_space (length x.bytes + record_head_len) w) (λ _ r.
          and_then (write_record x.bytes r) (λ _ u. and_then (sync u) (λ _ v. done tt (noted v))))

      start : Writing w cp.seg_start front s [] w
      start = (
        (refl, (refl, (refl, refl))),
        (
          g.place,
          (
            g.at_end,
            (
              g.held,
              subst
                  (λ (t : List ℕ).
                    IsWriting cp.seg_start front (record s { tail = t }) w.disk.files)
                  g.clean g.writing,
            ),
          ),
        ),
      )
