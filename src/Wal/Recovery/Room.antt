-- ===== src/Wal/Recovery/Room.antt =====
-- ensureSpace of internal/wal/wal.go: the segment that the next record goes to.
use vm_sync.Base.{
  ℕ, ◌+◌, ◌≤◌, ◌≡◌, refl, sym, ap, subst, ◌∙◌, arith, List, [], ◌∷◌, append-nil, All, All-append,
  Bool, true, false, if◌then◌else◌, leb, length,
}
use vm_sync.Base.Maps
use vm_sync.Wal.Records.{segment_of, pending_from}
use vm_sync.Wal.State.{
  Checkpoint, Wal, Handle, opened, closed, done, failed, and_then, contents, call, close_file,
  is_open,
}
use vm_sync.Wal.Append.{rotate, touch, attach, to_next, next_segment, ensure_with, ensure_space}
use vm_sync.Wal.Recovery.Segments.{Segment, IsSegment, entries}
use vm_sync.Wal.Recovery.Reindex.{Calm, Runs, Runs-and_then, call-Runs}
use vm_sync.Wal.Recovery.Directory.{
  with_last, IsWriting, IsWriting-next, contents-absent, not_above,
}
use vm_sync.Wal.Recovery.Adding.{Same, Writing, entries-with_last}

-- A segment with an end to write to, where the frames that wait are those of `front` and `s`.
pub record HasRoom (w : Wal) (cp : Checkpoint) (front : List Segment) (s : Segment) (v : Wal)
    : Type 0 where
  pub front' : List Segment
  pub last : Segment
  pub at : Writing w cp.seg_start front' last [] v
  pub segments : All (IsSegment cp) (with_last front' last)
  pub clean : last.tail ≡ []
  pub kept : entries cp (with_last front' last) ≡ entries cp (with_last front s)

module _ (w : Wal) (cp : Checkpoint) (front : List Segment) (s : Segment) (clean : s.tail ≡ [])
    (segments : All (IsSegment cp) (with_last front s)) (started : cp.seg_start ≤ s.number) where
  abbrev empty_last : Segment
  empty_last = record { number = s.number + 1; frames = []; tail = [] }

  -- The file is closed, and the number of the next one is set.
  abbrev Turning : Wal → Type 0
  Turning v =
      Same w cp.seg_start v
      × ((v.cur_seg ≡ s.number + 1) × IsWriting cp.seg_start front s v.disk.files)

  abbrev Touched : Wal → Type 0
  Touched v =
      Same w cp.seg_start v
      × ((v.cur_seg ≡ s.number + 1)
          × IsWriting cp.seg_start (with_last front s) empty_last v.disk.files)

  touched : (v : Wal) → Turning v → Touched (touch v)
  touched v r = (
    r.0,
    (
      r.1.0,
      subst
          (λ (k : ℕ).
            IsWriting cp.seg_start (with_last front s) empty_last
              (Maps.put k (contents k v.disk.files) v.disk.files))
          (sym r.1.0)
          (subst
            (λ (b : List ℕ).
              IsWriting cp.seg_start (with_last front s) empty_last
                (Maps.put (s.number + 1) b v.disk.files))
            (sym (
              contents-absent (s.number + 1) v.disk.files
                (not_above s.number (Maps.keys v.disk.files) r.1.1.behind)))
            (IsWriting-next cp.seg_start front s v.disk.files r.1.1)),
    ),
  )

  empty_last-IsSegment : IsSegment cp empty_last
  unfolding segment_of
  empty_last-IsSegment = record {
    framed = tt;
    short = omega arith;
    acked = ground (arith, started);
  }

  attached : (v : Wal) → Touched v → HasRoom w cp front s (attach v)
  unfolding segment_of pending_from
  attached v r = record {
    front' = with_last front s;
    last = empty_last;
    at = (
      r.0,
      (
        r.1.0,
        (ap length (ap (λ (k : ℕ). contents k v.disk.files) r.1.0 ∙ r.1.1.bytes), (refl, r.1.1)),
      ),
    );
    segments =
        All-append (IsSegment cp) (with_last front s) (empty_last ∷ []) segments
          (empty_last-IsSegment, tt);
    clean = refl;
    kept =
        entries-with_last cp (with_last front s) empty_last
        ∙ append-nil (entries cp (with_last front s));
  }

  rotate-Runs :
      (v : Wal)
      → Turning v
      → Calm w.disk.faults v
      → Runs w.disk.faults (HasRoom w cp front s) (rotate v)
  unfolding rotate
  rotate-Runs v r c =
      Runs-and_then w.disk.faults Turning (HasRoom w cp front s) (call v)
        (λ _ u. and_then (call (touch u)) (λ _ x. done tt (attach x)))
        (call-Runs w.disk.faults Turning v (λ gs. r) r c)
        (λ _ u m e.
          let k = touched u m in
          Runs-and_then w.disk.faults Touched (HasRoom w cp front s) (call (touch u))
            (λ _ x. done tt (attach x)) (call-Runs w.disk.faults Touched (touch u) (λ gs. k) k e)
            (λ _ x i a. (attached x i, a)))

  abbrev Shut : Wal → Type 0
  Shut v =
      Same w cp.seg_start v × ((v.cur_seg ≡ s.number) × IsWriting cp.seg_start front s v.disk.files)

  next_segment-Runs :
      (v : Wal)
      → Shut v
      → v.cur_file ≡ opened
      → Calm w.disk.faults v
      → Runs w.disk.faults (HasRoom w cp front s) (next_segment v)
  unfolding next_segment close_file
  next_segment-Runs v r o c =
      Runs-and_then w.disk.faults Shut (HasRoom w cp front s) (close_file v)
        (λ _ u. rotate (to_next u))
        (subst
          (λ (f : Handle).
            Runs w.disk.faults Shut
              (if is_open f then call (record v { cur_file = closed }) else failed v))
          (sym o) (call-Runs w.disk.faults Shut (record v { cur_file = closed }) (λ gs. r) r c))
        (λ _ u m e. rotate-Runs (to_next u) (m.0, (ap (λ (k : ℕ). k + 1) m.1.0, m.1.1)) e)

  pub ensure_space-Runs :
      (need : ℕ) (v : Wal)
      → Writing w cp.seg_start front s [] v
      → Calm w.disk.faults v
      → Runs w.disk.faults (HasRoom w cp front s) (ensure_space need v)
  unfolding ensure_space ensure_with
  ensure_space-Runs need v r c =
      subst (λ (f : Handle). Runs w.disk.faults (HasRoom w cp front s) (ensure_with f need v))
        (sym r.1.1.1.0) (by_test (leb (v.cur_offset + need) v.seg_size))
    where
      cleaned : IsWriting cp.seg_start front s v.disk.files
      cleaned =
          subst (λ (t : List ℕ). IsWriting cp.seg_start front (record s { tail = t }) v.disk.files)
            (sym clean) r.1.1.1.1

      by_test :
          (t : Bool)
          → Runs w.disk.faults (HasRoom w cp front s) (if t then done tt v else next_segment v)
      by_test true = (
        record {
          front' = front;
          last = s;
          at = r;
          segments = segments;
          clean = clean;
          kept = refl;
        },
        c,
      )
      by_test false = next_segment-Runs v (r.0, (r.1.0, cleaned)) r.1.1.1.0 c
