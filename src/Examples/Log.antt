-- ===== src/Examples/Log.antt =====
-- Runs of internal/wal on a small log.
use vm_sync.Base.{
  ℕ, ◌≡◌, ◌≢◌, ◌↔◌, refl, arith, List, [], ◌∷◌, ◌++◌, true, false, Option, none, some, take,
}
use vm_sync.Base.Int.{pos, negsuc}
use vm_sync.Base.Maps
use vm_sync.Protocol.Bytes.{put_be, be_loop}
use vm_sync.Protocol.Crc.{checksum_ieee}
use vm_sync.Protocol.Frame.{header_size, Header, ok}
use vm_sync.Protocol.Codec.{encode_raw, put_header, parse_header, check_header, read_header}
use vm_sync.Wal.Scan.{
  all_readable, ReadAt, scan_head, scan_body, resync_head, resync_body, FrameIndex, indexed,
  unfinished, index_segment,
}
use vm_sync.Wal.Records.{Framed, IsFramed, segment_of, pending_from}
use vm_sync.Wal.Fuel.{index_segment-ends}
use vm_sync.Wal.Tail.{index_segment-torn_body}
use vm_sync.Wal.State.{Wal, Disk, no_file, opened, panicked, pending, contents}
use vm_sync.Wal.Commit.{commit}
use vm_sync.Wal.Append.{append_encoded}
use vm_sync.Wal.Cursor.{apply_backfill_policy}
use vm_sync.Wal.Outcome.{Ends}
use vm_sync.Wal.Rewind.{IsAt, apply_backfill_policy-cursor}
use vm_sync.Wal.Leaving.{Left}
use vm_sync.Wal.Order.{commit-first, commit-panicked}
use vm_sync.Wal.Written.{Written, Kept}
use vm_sync.Wal.Durable.{append_encoded-Written}
use vm_sync.Wal.Wedged.{Attempt, AllFail, before_rotation, append_encoded-wedged}
use vm_sync.Examples.Frames.{text_crc, frame_bytes}

abbrev pub header : ℕ → Header
header seq = record { magic = 0x5057; version = 1; type = 1; seq = seq; length = 4; crc = text_crc }

abbrev pub framed : ℕ → Framed
framed seq = record { bytes = frame_bytes seq; header = header seq }

parsed_7 : parse_header (take header_size (frame_bytes 7)) ≡ ok (header 7)
unfolding checksum_ieee parse_header check_header read_header encode_raw put_header put_be be_loop
parsed_7 = refl

pub framed_7 : IsFramed (framed 7)
unfolding encode_raw put_header put_be
framed_7 = record { parsed = parsed_7; whole = refl; small = omega arith }

abbrev one_frame : List Framed
one_frame = framed 7 ∷ []

-- The header alone was written of a frame of 24 bytes.
abbrev cut_frame : List ℕ
cut_frame = take header_size (frame_bytes 7)

parsed_cut : parse_header (take header_size cut_frame) ≡ ok (header 7)
unfolding checksum_ieee parse_header check_header read_header encode_raw put_header put_be be_loop
parsed_cut = refl

index_segment-torn_body_example :
    index_segment all_readable ([] ++ (put_be 4 24 ++ cut_frame)) 3 0
    ≡ indexed
        ([] ++ (put_be 4 24 ++ cut_frame))
        (record { seg = 3; offset = 0; length = 24; seq = 7; typ = 1 } ∷ [])
unfolding segment_of pending_from encode_raw put_header put_be
index_segment-torn_body_example =
    index_segment-torn_body 3 0 [] cut_frame 24 (header 7) tt parsed_cut refl (omega arith)
      (omega arith) (omega arith) (omega arith)

abbrev empty_disk : Disk
empty_disk = record {
  files = [];
  checkpoint = none;
  dlq_frames = [];
  dlq_reasons = [];
  faults = [];
}

abbrev pub entry_5 : FrameIndex
entry_5 = record { seg = 2; offset = 0; length = 24; seq = 5; typ = 1 }

abbrev pub entry_6 : FrameIndex
entry_6 = record { seg = 3; offset = 0; length = 24; seq = 6; typ = 1 }

-- A log with the frames 5 and 6 in the segments 2 and 3; the second call of the system fails.
abbrev pub two_frames : Wal
two_frames = record {
  seg_size = 100;
  dlq_max = 1000;
  cp = record {
    cursor_ns = pos 500;
    next_seq = 7;
    seg_start = 1;
    acked_bytes = 0;
    backfill_ns = pos 0;
  };
  index = entry_5 ∷ entry_6 ∷ [];
  acked = 0;
  cur_seg = 4;
  cur_file = no_file;
  cur_offset = 90;
  last_cp = none;
  notified = false;
  legacy_checkpoint = false;
  locked = true;
  disk = record empty_disk { faults = none ∷ some 0 ∷ [] };
}

apply_backfill_policy-cursor_example :
    Ends
      (λ moved w'. IsAt (pos 100) (negsuc 0) w' × (moved ≡ true))
      (IsAt (pos 100) (negsuc 0))
      (apply_backfill_policy 1 (negsuc 0) (pos 100) two_frames)
apply_backfill_policy-cursor_example =
    apply_backfill_policy-cursor 1 (negsuc 0) (pos 100) two_frames

commit-first_example : Ends (λ _. Left (entry_6 ∷ [])) (Left (entry_6 ∷ [])) (commit 1 5 two_frames)
commit-first_example =
    commit-first 1 two_frames entry_5 (entry_6 ∷ []) refl (omega arith, (omega arith, tt))

abbrev drained : Wal
drained = record two_frames { acked = 2 }

commit-panicked_example : (commit 1 6 drained ≡ panicked) ↔ (pending drained ≡ [])
commit-panicked_example = commit-panicked 1 6 drained tt

abbrev writing : Wal
writing = record two_frames { cur_file = opened; cur_offset = 0; disk = empty_disk }

append_encoded-Written_example :
    Ends
      (λ _. Written writing 1 7 (frame_bytes 7))
      (Kept writing)
      (append_encoded 1 7 (frame_bytes 7) writing)
unfolding contents Maps.get
append_encoded-Written_example = append_encoded-Written 1 7 (frame_bytes 7) writing (λ _. refl)

append_encoded-wedged_example :
    Ends
      (λ _ _. ⊥)
      (λ v. (calls : List Attempt) → AllFail calls v)
      (append_encoded 1 7 (frame_bytes 7) (before_rotation two_frames 0 []))
unfolding encode_raw put_header put_be
append_encoded-wedged_example =
    append_encoded-wedged 1 (frame_bytes 7) 0 [] two_frames (omega arith)

-- The read of a frame's header fails in the scan.
abbrev body_fails : ReadAt → ℕ → Option ℕ
body_fails scan_body p = some 1
body_fails scan_head p = none
body_fails resync_head p = none
body_fails resync_body p = none

index_segment-ends_example :
    index_segment body_fails (put_be 4 24 ++ frame_bytes 7) 3 0 ≢ unfinished
index_segment-ends_example = index_segment-ends body_fails (put_be 4 24 ++ frame_bytes 7) 3 0
