-- ===== src/Wal/Recovery/Segments.antt =====
-- The directory of internal/wal/wal.go as a crash may leave it: segment files of whole records, each
-- with less behind them than the head of a record and of a frame.
use vm_sync.Base.{
  ℕ, ◌≤◌, ◌<◌, ◌≡◌, ap, ◌∙◌, arith, List, [], ◌∷◌, ◌++◌, append-nil, map, length, All,
  if◌then◌else◌, ◌==◌, Distinct,
}
use vm_sync.Wal.Scan.{all_readable, FrameIndex, indexed, index_segment}
use vm_sync.Wal.Records.{Framed, IsFramed, segment_of, pending_from}
use vm_sync.Wal.Tail.{index_segment-segment_of, index_segment-torn}
use vm_sync.Wal.State.{Checkpoint, Disk, contents}
use vm_sync.Wal.Open.{load_checkpoint, segment_numbers, split_at}

pub record Segment : Type 0 where
  pub number : ℕ
  pub frames : List Framed
  pub tail : List ℕ

abbrev pub whole : Segment → List ℕ
whole s = segment_of s.frames

abbrev pub torn : Segment → List ℕ
torn s = whole s ++ s.tail

-- How much of a segment is acknowledged.
abbrev pub acked_in : Checkpoint → ℕ → ℕ
acked_in cp k = if k == cp.seg_start then cp.acked_bytes else 0

-- The frames of a segment that are not acknowledged, and those of all segments.
abbrev pub entries_in : Checkpoint → Segment → List FrameIndex
entries_in cp s = pending_from s.number (acked_in cp s.number) 0 s.frames

abbrev pub entries : Checkpoint → List Segment → List FrameIndex
entries cp [] = []
entries cp (s ∷ ss) = entries_in cp s ++ entries cp ss

pub record IsSegment (cp : Checkpoint) (s : Segment) : Type 0 where
  pub framed : All IsFramed s.frames
  pub short : length s.tail < 24
  pub acked : acked_in cp s.number ≤ length (whole s)

abbrev pub numbers : List Segment → List ℕ
numbers = map Segment.number

-- The file of a segment holds these bytes.
abbrev pub Has : (Segment → List ℕ) → List (ℕ × List ℕ) → Segment → Type 0
Has bytes files s = contents s.number files ≡ bytes s

-- The segments from the checkpoint's on, in the order of their numbers.
pub record Holds (d : Disk) (ss : List Segment) : Type 0 where
  pub alive : (split_at (load_checkpoint d).0.seg_start (segment_numbers d.files)).1 ≡ numbers ss
  pub distinct : Distinct (numbers ss)
  pub files : All (Has torn d.files) ss
  pub segments : All (IsSegment (load_checkpoint d).0) ss

pub index_segment-whole :
    (cp : Checkpoint) (s : Segment)
    → IsSegment cp s
    → index_segment all_readable (torn s) s.number (acked_in cp s.number)
      ≡ indexed (whole s) (entries_in cp s)
index_segment-whole cp s v = by_tail s.tail v.short
  where
    by_tail :
        (tail : List ℕ)
        → length tail < 24
        → index_segment all_readable (whole s ++ tail) s.number (acked_in cp s.number)
          ≡ indexed (whole s) (entries_in cp s)
    by_tail [] h =
        ap (λ (b : List ℕ). index_segment all_readable b s.number (acked_in cp s.number))
          (append-nil (whole s))
        ∙ index_segment-segment_of s.number (acked_in cp s.number) s.frames v.framed
    by_tail (b ∷ tail) h =
        index_segment-torn s.number (acked_in cp s.number) s.frames (b ∷ tail) v.framed
          (omega arith) h v.acked
