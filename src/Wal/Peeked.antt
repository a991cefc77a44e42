-- ===== src/Wal/Peeked.antt =====
-- Peek of internal/wal/wal.go: it reads the first frame and changes nothing but the disk's faults.
use vm_sync.Base.{◌+◌, ◌≡◌, refl, List, [], ◌∷◌, ◌==◌, leb, length, take, drop}
use vm_sync.Base.Maps
use vm_sync.Wal.Scan.{FrameIndex, record_head_len}
use vm_sync.Wal.State.{
  Wal, FrameData, Handle, no_file, opened, closed, Step, done, failed, and_then, contents, call,
  pending,
}
use vm_sync.Wal.Commit.{
  peek, peek_batch, peek_first, first_of, read_frames, read_frame, read_with, read_by_path,
  read_record,
}
use vm_sync.Wal.Outcome.{Ends, Ends-if, Ends-and_then, IsApart, call-keeps}

-- The same frames are left, and the same numbers.
pub record Unread (w v : Wal) : Type 0 where
  pub left : pending v ≡ pending w
  pub start : v.cp.seg_start ≡ w.cp.seg_start

module _ (w : Wal) where
  Unread-IsApart : IsApart (Unread w)
  Unread-IsApart = record {
    faults = λ v fs k. record { left = k.left; start = k.start };
    stored = λ v k. record { left = k.left; start = k.start };
    time = λ v now k. record { left = k.left; start = k.start };
  }

  abbrev Keeps : {A : Type 0} → Step Wal A → Type 0
  Keeps s = Ends (λ _. Unread w) (Unread w) s

  read_record-Keeps : (fi : FrameIndex) (v : Wal) → Unread w v → Keeps (read_record fi v)
  read_record-Keeps fi v k =
      Ends-if (λ _. Unread w) (Unread w)
        (leb (fi.offset + record_head_len + fi.length) (length (contents fi.seg v.disk.files)))
        (done (take fi.length (drop (fi.offset + record_head_len) (contents fi.seg v.disk.files)))
          v)
        (failed v) (λ _. k) (λ _. k)

  read_open-Keeps :
      (fi : FrameIndex) (v : Wal) → Unread w v → Keeps (and_then (call v) (λ _. read_record fi))
  read_open-Keeps fi v k =
      Ends-and_then (λ _. Unread w) (λ _. Unread w) (Unread w) (call v) (λ _. read_record fi)
        (call-keeps (Unread w) Unread-IsApart v k) (λ _ u. read_record-Keeps fi u)

  read_by_path-Keeps : (fi : FrameIndex) (v : Wal) → Unread w v → Keeps (read_by_path fi v)
  unfolding read_by_path
  read_by_path-Keeps fi v k =
      Ends-if (λ _. Unread w) (Unread w) (Maps.has fi.seg v.disk.files)
        (and_then (call v) (λ _ u. and_then (call u) (λ _. read_record fi))) (failed v)
        (λ _.
          Ends-and_then (λ _. Unread w) (λ _. Unread w) (Unread w) (call v)
            (λ _ u. and_then (call u) (λ _. read_record fi))
            (call-keeps (Unread w) Unread-IsApart v k) (λ _ u. read_open-Keeps fi u))
        (λ _. k)

  read_with-Keeps : (h : Handle) (fi : FrameIndex) (v : Wal) → Unread w v → Keeps (read_with h fi v)
  unfolding read_with
  read_with-Keeps no_file fi v k = read_by_path-Keeps fi v k
  read_with-Keeps opened fi v k = read_open-Keeps fi v k
  read_with-Keeps closed fi v k = k

  pub read_frame-Keeps : (fi : FrameIndex) (v : Wal) → Unread w v → Keeps (read_frame fi v)
  unfolding read_frame
  read_frame-Keeps fi v k =
      Ends-if (λ _. Unread w) (Unread w) (fi.seg == v.cur_seg) (read_with v.cur_file fi v)
        (read_by_path fi v) (λ _. read_with-Keeps v.cur_file fi v k)
        (λ _. read_by_path-Keeps fi v k)

-- The frame that is read is the first that is not acknowledged.
pub record Peeked (w : Wal) (fd : FrameData) (v : Wal) : Type 0 where
  pub unread : Unread w v
  pub first : FrameIndex
  pub others : List FrameIndex
  pub pending : pending w ≡ first ∷ others
  pub seq : fd.seq ≡ first.seq

abbrev Reads : Wal → FrameIndex → List FrameData → Wal → Type 0
Reads w fi [] v = ⊥
Reads w fi (fd ∷ fds) v = Unread w v × (fd.seq ≡ fi.seq)

first_of-Peeked :
    (w : Wal) (fi : FrameIndex) (fis : List FrameIndex) (fds : List FrameData) (v : Wal)
    → pending w ≡ fi ∷ fis
    → Reads w fi fds v
    → Ends (Peeked w) (Unread w) (first_of fds v)
first_of-Peeked w fi fis [] v e r = r
first_of-Peeked w fi fis (fd ∷ fds) v e r = record {
  unread = r.0;
  first = fi;
  others = fis;
  pending = e;
  seq = r.1;
}

peek_first-Peeked :
    (w : Wal) (l : List FrameIndex)
    → pending w ≡ l
    → Ends (Peeked w) (Unread w) (and_then (peek_first l 1 w) first_of)
unfolding peek_first read_frames
peek_first-Peeked w [] e = record { left = refl; start = refl }
peek_first-Peeked w (fi ∷ fis) e =
    Ends-and_then (Reads w fi) (Peeked w) (Unread w) (read_frames (fi ∷ []) w) first_of
      (Ends-and_then (λ _. Unread w) (Reads w fi) (Unread w) (read_frame fi w)
        (λ bytes v. done (record { seq = fi.seq; bytes = bytes } ∷ []) v)
        (read_frame-Keeps w fi w (record { left = refl; start = refl })) (λ bytes v k. (k, refl)))
      (λ fds v. first_of-Peeked w fi fis fds v e)

-- Peek ends without a panic, leaves every frame in the log, and what it gives has the number of the
-- first frame that is not acknowledged.
pub peek-Peeked : (w : Wal) → Ends (Peeked w) (Unread w) (peek w)
unfolding peek peek_batch
peek-Peeked w = peek_first-Peeked w (pending w) refl
