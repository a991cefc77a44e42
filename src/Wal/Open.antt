-- ===== src/Wal/Open.antt =====
-- Opening in internal/wal/wal.go (Open, scanSegments, lastSegmentIdx) and loadCheckpoint of
-- internal/wal/cursor.go.
use vm_sync.Base.{
  ℕ, ◌+◌, ◌%◌, ◌^◌, List, [], ◌∷◌, ◌++◌, Bool, true, false, none, some, if◌then◌else◌, ltb, leb,
  not, ◌==◌, length, max,
}
use vm_sync.Base.Int.{ℤ, pos, ltb_ℤ, pos_part}
use vm_sync.Base.Maps
use vm_sync.Wal.Scan.{
  FrameIndex, ReadFaults, all_readable, indexed, corrupt, unfinished, index_segment,
}
use vm_sync.Wal.State.{
  Wal, Disk, Checkpoint, no_file, Step, endless, Op, ◌>>=◌, ◌>>◌, return, fail, fetch, modify,
  contents, with_files, call, default_segment_size, default_dlq_max_size,
}
use vm_sync.Wal.Append.{rotate}

-- sort.Ints
unfoldable pub insert : ℕ → List ℕ → List ℕ
insert k [] = k ∷ []
insert k (j ∷ js) = let rest = insert k js in if leb k j then k ∷ j ∷ js else j ∷ rest

unfoldable pub segment_numbers : List (ℕ × List ℕ) → List ℕ
unfolding insert
segment_numbers [] = []
segment_numbers ((k, bytes) ∷ files) = insert k (segment_numbers files)

unfoldable pub split_at : ℕ → List ℕ → List ℕ × List ℕ
split_at start [] = ([], [])
split_at start (k ∷ ks) =
    let (stale, alive) = split_at start ks in
    if ltb k start then (k ∷ stale, alive) else (stale, k ∷ alive)

unfoldable pub remove_files : List ℕ → Op (Unit {0})
unfolding call
remove_files [] = return tt
remove_files (k ∷ ks) = do
  call
  modify λ w. with_files (Maps.remove k w.disk.files) w
  remove_files ks

-- Which reads of the segment files fail.
abbrev pub readable_files : ℕ → ReadFaults
readable_files k = all_readable

-- indexSegment: the file is opened and measured, scanned, and cut if the scan says so.
unfoldable pub index_file : (ℕ → ReadFaults) → ℕ → Op (Unit {0})
unfolding call index_segment
index_file reads k = do
  call
  call
  w ← fetch
  let bytes = contents k w.disk.files
  let skip = if k == w.cp.seg_start then w.cp.acked_bytes else 0
  elim (index_segment (reads k) bytes k skip) [
    | corrupt off ↦ fail
    | unfinished ↦ (λ v. endless)
    | indexed kept fis ↦ (do
      (if length kept == length bytes then return tt else call)
      modify (with_files (Maps.put k kept w.disk.files))
      modify λ v. record v { index = v.index ++ fis })
  ]

unfoldable pub index_files : (ℕ → ReadFaults) → List ℕ → Op (Unit {0})
unfolding index_file
index_files reads [] = return tt
index_files reads (k ∷ ks) = do index_file reads k; index_files reads ks

-- The start of the log where the checkpoint's segment is gone.
abbrev pub start_from : ℕ → Wal → Wal
start_from first w =
    if ltb w.cp.seg_start first
    then record w { cp = record w.cp { seg_start = first; acked_bytes = 0 } }
    else w

unfoldable pub scan_segments : (ℕ → ReadFaults) → Op (Unit {0})
unfolding call segment_numbers split_at remove_files index_files
scan_segments reads = do
  call
  w ← fetch
  let (stale, alive) = split_at w.cp.seg_start (segment_numbers w.disk.files)
  remove_files stale
  (elim alive [
    | [] ↦ modify λ v. record v { cp = record v.cp { acked_bytes = 0 } }
    | first ∷ rest ↦ (do
      modify (start_from first)
      index_files reads (first ∷ rest)
      modify λ v. record v { acked = 0 })
  ])

unfoldable pub max_seq : List FrameIndex → ℕ
max_seq [] = 0
max_seq (fi ∷ fis) = max fi.seq (max_seq fis)

-- next_seq is one above every frame of the log, and not below the checkpoint's.
unfoldable pub restore_next_seq : Wal → Wal
unfolding max_seq
restore_next_seq w =
    let least = (max_seq w.index + 1) % 2 ^ 64 in
    if ltb w.cp.next_seq least then record w { cp = record w.cp { next_seq = least } } else w

unfoldable pub max_number : List ℕ → ℕ
max_number [] = 0
max_number (k ∷ ks) = max k (max_number ks)

unfoldable pub last_segment_idx : Wal → ℕ
unfolding segment_numbers max_number
last_segment_idx w = elim (segment_numbers w.disk.files) [
  | [] ↦ w.cp.seg_start
  | k ∷ ks ↦ max_number (k ∷ ks)
]

abbrev pub empty_checkpoint : Checkpoint
empty_checkpoint = record {
  cursor_ns = pos 0;
  next_seq = 0;
  seg_start = 0;
  acked_bytes = 0;
  backfill_ns = pos 0;
}

-- loadCheckpoint: the zero value without a file; a file without backfill_ns is of an old version.
unfoldable pub load_checkpoint : Disk → Checkpoint × Bool
load_checkpoint d = elim (d.checkpoint) [
  | none ↦ (empty_checkpoint, false)
  | some (cp, has_field) ↦ (cp, not has_field)
]

-- A new WAL struct over a directory.
unfoldable pub fresh : ℤ → Disk → Wal
unfolding load_checkpoint
fresh seg_size d =
    let (cp, legacy) = load_checkpoint d in
    record {
      seg_size = if ltb_ℤ (pos 0) seg_size then pos_part seg_size else default_segment_size;
      dlq_max = default_dlq_max_size;
      cp = cp;
      index = [];
      acked = 0;
      cur_seg = 0;
      cur_file = no_file;
      cur_offset = 0;
      last_cp = none;
      notified = false;
      legacy_checkpoint = legacy;
      locked = true;
      disk = d;
    }

-- `locked_elsewhere` says that another process holds the directory's lock. The calls are those of
-- MkdirAll, the lock file, the checkpoint file and the directory; the last segment is opened as in
-- rotate.
unfoldable pub open_wal : (ℕ → ReadFaults) → Bool → ℤ → Disk → Step Wal (Unit {0})
unfolding call fresh scan_segments restore_next_seq last_segment_idx rotate
open_wal reads locked_elsewhere seg_size d =
    (do
      call
      call
      (if locked_elsewhere then fail else return tt)
      call
      scan_segments reads
      modify restore_next_seq
      call
      modify λ w. record w { cur_seg = last_segment_idx w }
      rotate)
      (fresh seg_size d)
