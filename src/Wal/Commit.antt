-- ===== src/Wal/Commit.antt =====
-- Reading and acknowledging in internal/wal/wal.go (Peek, PeekBatch, Commit, MoveToDLQ, Close) and the
-- writing of the checkpoint and the dead letters in internal/wal/cursor.go and internal/wal/dlq.go.
use vm_sync.Base.{
  ℕ, zero, suc, ◌+◌, ◌-◌, List, [], ◌∷◌, Bool, true, false, ◌&&◌, ◌||◌, Option, none, some,
  if◌then◌else◌, ltb, not, ◌==◌, length, take,
}
use vm_sync.Base.Maps
use vm_sync.Wal.Scan.{FrameIndex, record_head_len}
use vm_sync.Wal.State.{
  Wal, FrameData, Handle, no_file, opened, closed, Step, done, failed, panicked, endless, Op,
  and_then, ◌>>=◌, ◌>>◌, return, fail, fetch, modify, call, close_file, read_bytes, pending,
  checkpoint_interval,
}

-- The frame's bytes, behind the record's head.
abbrev pub read_record : FrameIndex → Op (List ℕ)
read_record fi = read_bytes fi.seg (fi.offset + record_head_len) fi.length

-- os.Open of the segment's path, and ReadAt.
unfoldable pub read_by_path : FrameIndex → Op (List ℕ)
unfolding call
read_by_path fi w =
    if Maps.has fi.seg w.disk.files then (call >> (call >> read_record fi)) w else failed w

-- By curFile if that is the segment's file and not nil, which fails if it was closed.
unfoldable pub read_with : Handle → FrameIndex → Op (List ℕ)
unfolding read_by_path call
read_with no_file fi w = read_by_path fi w
read_with opened fi w = (call >> read_record fi) w
read_with closed fi w = failed w

unfoldable pub read_frame : FrameIndex → Op (List ℕ)
unfolding read_with read_by_path
read_frame fi w = if fi.seg == w.cur_seg then read_with w.cur_file fi w else read_by_path fi w

unfoldable pub read_frames : List FrameIndex → Op (List FrameData)
unfolding read_frame
read_frames [] = return []
read_frames (fi ∷ fis) = do
  bytes ← read_frame fi
  rest ← read_frames fis
  return (record { seq = fi.seq; bytes = bytes } ∷ rest)

-- `n` 0 asks for all of them.
unfoldable pub peek_first : List FrameIndex → ℕ → Op (List FrameData)
unfolding read_frames
peek_first [] n w = failed w
peek_first (fi ∷ fis) n w = read_frames (if n == 0 then fi ∷ fis else take n (fi ∷ fis)) w

unfoldable pub peek_batch : ℕ → Op (List FrameData)
unfolding peek_first
peek_batch n w = peek_first (pending w) n w

abbrev pub first_of : List FrameData → Op FrameData
first_of [] w = panicked
first_of (fd ∷ fds) w = done fd w

unfoldable pub peek : Op FrameData
unfolding peek_batch
peek w = and_then (peek_batch 1 w) first_of

abbrev pub store : Wal → Wal
store w = record w { disk = record w.disk { checkpoint = some (w.cp, true) } }

-- saveCheckpoint: create, write, sync and close the new file, rename it, and sync the directory.
unfoldable pub save_checkpoint : Op (Unit {0})
unfolding call
save_checkpoint = do call; call; call; call; call; modify store; call; call

unfoldable pub persist : ℕ → Op (Unit {0})
unfolding save_checkpoint
persist now = do save_checkpoint; modify λ w. record w { last_cp = some now }

-- Less than a second has passed.
abbrev pub is_recent : ℕ → Option ℕ → Bool
is_recent now none = false
is_recent now (some at) = ltb now (at + checkpoint_interval)

unfoldable pub persist_throttled : ℕ → Op (Unit {0})
unfolding persist
persist_throttled now w = if is_recent now w.last_cp then done tt w else persist now w

-- No frame that is not acknowledged lies in the segment.
abbrev pub seg_done : ℕ → List FrameIndex → Bool
seg_done start [] = true
seg_done start (fi ∷ fis) = not (fi.seg == start)

-- What follows the removal of the oldest segment's file.
abbrev pub forget_segment : Wal → Wal
forget_segment w = record w {
  disk = record w.disk { files = Maps.remove w.cp.seg_start w.disk.files };
  cp = record w.cp { seg_start = w.cp.seg_start + 1; acked_bytes = 0 };
  index = pending w;
  acked = 0;
}

abbrev pub drop_file : Op (Unit {0})
drop_file = modify λ w. record w { cur_file = no_file; cur_seg = w.cur_seg + 1; cur_offset = 0 }

-- The removed segment was the one that is written.
unfoldable pub leave_with : Handle → Op (Unit {0})
unfolding close_file
leave_with no_file = drop_file
leave_with opened = close_file >> drop_file
leave_with closed = close_file >> drop_file

unfoldable pub leave_segment : ℕ → Op (Unit {0})
unfolding leave_with
leave_segment removed w = if removed == w.cur_seg then leave_with w.cur_file w else done tt w

unfoldable pub remove_segment : Op (Unit {0})
unfolding call leave_segment
remove_segment w =
    let removed = w.cp.seg_start in (do call; modify forget_segment; leave_segment removed) w

abbrev pub unless_empty : List FrameIndex → Op Bool → Op Bool
unless_empty [] k w = done true w
unless_empty (fi ∷ fis) k w = k w

-- The loop over the segments that are acknowledged entirely; the answer is whether one was removed.
unfoldable pub remove_loop : ℕ → Bool → Op Bool
unfolding remove_segment
remove_loop zero removed w = endless
remove_loop (suc fuel) removed w =
    if seg_done w.cp.seg_start (pending w)
    then and_then (remove_segment w) (λ _ v. unless_empty (pending v) (remove_loop fuel true) v)
    else done removed w

-- Rounds enough where no frame lies before the oldest segment: one for each segment up to the next
-- frame's, and the last test.
abbrev pub rounds : ℕ → List FrameIndex → ℕ
rounds start [] = 1
rounds start (fi ∷ fis) = fi.seg - start + 1

abbrev pub acknowledge : FrameIndex → Wal → Wal
acknowledge fi w = record w {
  acked = w.acked + 1;
  cp = record w.cp { acked_bytes = fi.offset + record_head_len + fi.length };
}

abbrev pub persist_after : ℕ → Bool → Op (Unit {0})
persist_after now removed w = if removed then persist now w else persist_throttled now w

abbrev pub finish_commit : ℕ → Op (Unit {0})
finish_commit now w =
    and_then (remove_loop (rounds w.cp.seg_start (pending w)) false w) (persist_after now)

-- With no frame left the text of the error reads the frame behind the last, and panics.
abbrev pub commit_first : List FrameIndex → ℕ → ℕ → Op (Unit {0})
commit_first [] now seq w = panicked
commit_first (fi ∷ fis) now seq w =
    if fi.seq == seq then finish_commit now (acknowledge fi w) else failed w

unfoldable pub commit : ℕ → ℕ → Op (Unit {0})
unfolding remove_loop persist persist_throttled
commit now seq w = commit_first (pending w) now seq w

-- dlqSize
unfoldable pub files_size : List (ℕ × List ℕ) → ℕ
files_size [] = 0
files_size ((k, bytes) ∷ m) = length bytes + files_size m

abbrev pub dlq_size : Wal → ℕ
dlq_size w = files_size w.disk.dlq_frames + files_size w.disk.dlq_reasons

-- writeDLQ; `text` is the file of the reason, with its time.
unfoldable pub write_dlq : ℕ → List ℕ → List ℕ → Op (Unit {0})
unfolding call
write_dlq seq fb text = do
  call
  modify λ w. record w { disk = record w.disk { dlq_frames = Maps.put seq fb w.disk.dlq_frames } }
  call
  modify
      λ w. record w { disk = record w.disk { dlq_reasons = Maps.put seq text w.disk.dlq_reasons } }

unfoldable pub move_to_dlq : ℕ → ℕ → List ℕ → Op (Unit {0})
unfolding commit write_dlq call files_size
move_to_dlq now seq text w = elim (pending w) [
  | [] ↦ failed w
  | fi ∷ fis ↦
      if not (fi.seq == seq) || not (Maps.has fi.seg w.disk.files)
      then failed w
      else (do
        call
        call
        bytes ← read_bytes fi.seg (fi.offset + record_head_len) fi.length
        v ← fetch
        (if ltb v.dlq_max (dlq_size v) then fail else return tt)
        call
        write_dlq seq bytes text
        commit now seq)
          w
]

-- Close: an error of one part does not keep the others from being done.
abbrev pub settle : Step Wal (Unit {0}) → (Bool → Op (Unit {0})) → Step Wal (Unit {0})
settle (done a w) k = k true w
settle (failed w) k = k false w
settle panicked k = panicked
settle endless k = endless

unfoldable pub close : ℕ → Op (Unit {0})
unfolding close_file persist
close now w =
    let shut : Step Wal (Unit {0}) = elim (w.cur_file) [
      | no_file ↦ done tt w
      | opened ↦ close_file w
      | closed ↦ close_file w
    ] in
    settle shut λ good w. settle (persist now (record w { cur_file = no_file })) λ saved w.
      let w' = record w { locked = false } in if good && saved then done tt w' else failed w'

abbrev pub pending_count : Wal → ℕ
pending_count w = length w.index - w.acked

unfoldable pub record_bytes : List FrameIndex → ℕ
record_bytes [] = 0
record_bytes (fi ∷ fis) = record_head_len + fi.length + record_bytes fis

abbrev pub pending_bytes : Wal → ℕ
pending_bytes w = record_bytes (pending w)
