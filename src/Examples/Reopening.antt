-- ===== src/Examples/Reopening.antt =====
-- Runs of internal/wal over directories that a crash has left.
use vm_sync.Base.{◌≡◌, refl, arith, [], ◌∷◌, true, false, none, some}
use vm_sync.Base.Int.{pos}
use vm_sync.Base.Maps
use vm_sync.Protocol.Bytes.{put_be, be_loop}
use vm_sync.Protocol.Crc.{checksum_ieee}
use vm_sync.Protocol.Codec.{encode_raw, put_header, parse_header, check_header, read_header}
use vm_sync.Wal.Scan.{FrameIndex}
use vm_sync.Wal.Records.{IsFramed, record_of, segment_of, pending_from}
use vm_sync.Wal.State.{has_fault, Wal, Disk, Checkpoint, opened, contents}
use vm_sync.Wal.Append.{append_encoded}
use vm_sync.Wal.Open.{
  readable_files, insert, segment_numbers, split_at, load_checkpoint, max_seq, open_wal,
}
use vm_sync.Wal.Outcome.{Ends}
use vm_sync.Wal.Recovery.Segments.{Segment, IsSegment, Holds, torn}
use vm_sync.Wal.Recovery.Reopened.{Reopened, open_wal-Reopened}
use vm_sync.Wal.Recovery.Taken.{IsLogged}
use vm_sync.Wal.Recovery.Resumed.{trim, open_wal-IsLogged}
use vm_sync.Wal.Recovery.Survives.{IsKept, append_encoded-IsKept}
use vm_sync.Examples.Frames.{frame_bytes}
use vm_sync.Examples.Log.{framed, framed_7}

framed_8 : IsFramed (framed 8)
unfolding checksum_ieee parse_header check_header read_header encode_raw put_header put_be be_loop
framed_8 = record { parsed = refl; whole = refl; small = omega arith }

-- The first of the two frames in segment 3 is acknowledged; segment 2 is stale.
abbrev checkpoint : Checkpoint
checkpoint = record {
  cursor_ns = pos 500;
  next_seq = 8;
  seg_start = 3;
  acked_bytes = 28;
  backfill_ns = pos 0;
}

abbrev segment_3 : Segment
segment_3 = record { number = 3; frames = framed 7 ∷ framed 8 ∷ []; tail = 0 ∷ 0 ∷ 4 ∷ [] }

abbrev disk_of : Segment → Disk
disk_of s = record {
  files = (3, torn s) ∷ (2, 1 ∷ []) ∷ [];
  checkpoint = some (checkpoint, true);
  dlq_frames = [];
  dlq_reasons = [];
  faults = none ∷ none ∷ [];
}

abbrev crashed : Disk
crashed = disk_of segment_3

segment_3-IsSegment : IsSegment checkpoint segment_3
unfolding segment_of record_of encode_raw put_header put_be
segment_3-IsSegment = record {
  framed = (framed_7, (framed_8, tt));
  short = omega arith;
  acked = omega arith;
}

crashed-Holds : Holds crashed (segment_3 ∷ [])
unfolding load_checkpoint segment_numbers insert split_at contents Maps.get
crashed-Holds = record {
  alive = refl;
  distinct = (refl, tt);
  files = (refl, tt);
  segments = (segment_3-IsSegment, tt);
}

open_wal-Reopened_example :
    Ends
      (λ _. Reopened crashed (segment_3 ∷ []))
      (λ _. has_fault crashed.faults ≡ true)
      (open_wal readable_files false (pos 0) crashed)
unfolding load_checkpoint pending_from max_seq encode_raw put_header put_be
open_wal-Reopened_example =
    open_wal-Reopened (pos 0) crashed (segment_3 ∷ []) crashed-Holds (omega arith)

open_wal-IsLogged_example :
    Ends
      (λ _. IsLogged checkpoint [] [] (trim segment_3))
      (λ _. has_fault crashed.faults ≡ true)
      (open_wal readable_files false (pos 0) crashed)
unfolding load_checkpoint pending_from max_seq encode_raw put_header put_be
open_wal-IsLogged_example =
    open_wal-IsLogged (pos 0) crashed [] segment_3 crashed-Holds (refl, (refl, tt))
      (omega arith, (omega arith, tt)) (omega arith)

-- The log that writes to segment 3, with one frame that waits.
abbrev frames_7 : Segment
frames_7 = record { number = 3; frames = framed 7 ∷ []; tail = [] }

abbrev entry_7 : FrameIndex
entry_7 = record { seg = 3; offset = 0; length = 24; seq = 7; typ = 1 }

abbrev unacknowledged : Checkpoint
unacknowledged = record checkpoint { acked_bytes = 0 }

abbrev running : Wal
running = record {
  seg_size = 1000;
  dlq_max = 1000;
  cp = record unacknowledged { acked_bytes = 28 };
  index = entry_7 ∷ [];
  acked = 1;
  cur_seg = 3;
  cur_file = opened;
  cur_offset = 28;
  last_cp = none;
  notified = false;
  legacy_checkpoint = false;
  locked = true;
  disk = record (disk_of frames_7) { checkpoint = some (unacknowledged, true) };
}

running-IsLogged : IsLogged unacknowledged (entry_7 ∷ []) [] frames_7 running
unfolding load_checkpoint segment_numbers insert split_at contents Maps.get segment_of record_of
    pending_from encode_raw put_header put_be
running-IsLogged = record {
  stored = refl;
  writing = record {
    alive = refl;
    once = (refl, (refl, tt));
    distinct = (refl, tt);
    others = tt;
    bytes = refl;
    present = refl;
    behind = (omega arith, (omega arith, tt));
    started = omega arith;
  };
  segments = (record { framed = (framed_7, tt); short = omega arith; acked = omega arith }, tt);
  clean = refl;
  place = refl;
  at_end = refl;
  held = refl;
  known = refl;
  acked = omega arith;
}

append_encoded-IsKept_example :
    Ends
      (λ _. IsKept (entry_7 ∷ []) (pos 0) running (framed 8))
      (λ _. has_fault running.disk.faults ≡ true)
      (append_encoded 1 8 (frame_bytes 8) running)
unfolding max_seq
append_encoded-IsKept_example =
    append_encoded-IsKept unacknowledged (entry_7 ∷ []) [] frames_7 (pos 0) running (framed 8)
      running-IsLogged framed_8 refl (omega arith) (omega arith)
