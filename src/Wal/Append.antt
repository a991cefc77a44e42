-- ===== src/Wal/Append.antt =====
-- Appending in internal/wal/wal.go: ensureSpace, rotate, appendEncodedLocked, AppendBatch, Append.
use vm_sync.Base.{
  ℕ, ◌+◌, ◌%◌, ◌^◌, List, [], ◌∷◌, ◌++◌, true, if◌then◌else◌, ltb, leb, not, ◌==◌, length,
}
use vm_sync.Base.Maps
use vm_sync.Protocol.Bytes.{put_be}
use vm_sync.Protocol.Frame.{header_size, ok, err}
use vm_sync.Protocol.Codec.{Compressors, encode}
use vm_sync.Protocol.Reseq.{put_seq}
use vm_sync.Wal.Scan.{FrameIndex, record_head_len}
use vm_sync.Wal.State.{
  Wal, Handle, no_file, opened, closed, done, failed, Op, ◌>>=◌, ◌>>◌, return, fetch, modify,
  contents, with_files, call, write, sync, close_file,
}

-- os.OpenFile with O_CREATE: a new file is empty.
abbrev pub touch : Wal → Wal
touch w = with_files (Maps.put w.cur_seg (contents w.cur_seg w.disk.files) w.disk.files) w

-- The offset is the size that Stat gives.
abbrev pub attach : Wal → Wal
attach w = record w { cur_file = opened; cur_offset = length (contents w.cur_seg w.disk.files) }

unfoldable pub rotate : Op (Unit {0})
unfolding call
rotate = do call; modify touch; call; modify attach

abbrev pub to_next : Wal → Wal
to_next w = record w { cur_seg = w.cur_seg + 1 }

unfoldable pub next_segment : Op (Unit {0})
unfolding rotate close_file
next_segment = do close_file; modify to_next; rotate

unfoldable pub ensure_with : Handle → ℕ → Op (Unit {0})
unfolding rotate next_segment
ensure_with no_file need w = rotate w
ensure_with opened need w =
    if leb (w.cur_offset + need) w.seg_size then done tt w else next_segment w
ensure_with closed need w =
    if leb (w.cur_offset + need) w.seg_size then done tt w else next_segment w

unfoldable pub ensure_space : ℕ → Op (Unit {0})
unfolding ensure_with
ensure_space need w = ensure_with w.cur_file need w

-- What the index holds of a frame that is written at the end.
abbrev pub entry : Wal → ℕ → ℕ → List ℕ → FrameIndex
entry w typ seq fb = record {
  seg = w.cur_seg;
  offset = w.cur_offset;
  length = length fb;
  seq = seq;
  typ = typ;
}

abbrev pub add_entry : ℕ → ℕ → List ℕ → Wal → Wal
add_entry typ seq fb w = record w {
  index = w.index ++ (entry w typ seq fb ∷ []);
  cur_offset = w.cur_offset + (record_head_len + length fb);
  cp = record w.cp { next_seq = (seq + 1) % 2 ^ 64 };
}

-- notifyAppend: a channel of one place, without waiting.
abbrev pub notify_append : Op (Unit {0})
notify_append = modify λ w. record w { notified = true }

unfoldable pub write_record : List ℕ → Op (Unit {0})
unfolding write
write_record fb = do write (put_be 4 (length fb % 2 ^ 32)); write fb

unfoldable pub append_encoded : ℕ → ℕ → List ℕ → Op (Unit {0})
unfolding ensure_space write_record sync
append_encoded typ seq fb w =
    if not (seq == w.cp.next_seq)
    then failed w
    else (do
      ensure_space (length fb + record_head_len)
      write_record fb
      sync
      modify (add_entry typ seq fb)
      notify_append)
        w

-- One frame of AppendBatch: its number is the next one, written into its header.
unfoldable pub append_one : ℕ → List ℕ → Op ℕ
unfolding ensure_space write_record
append_one typ fb w =
    if ltb (length fb) header_size
    then failed w
    else (do
      ensure_space (length fb + record_head_len)
      v ← fetch
      let seq = v.cp.next_seq
      write_record (put_seq seq fb)
      modify (add_entry typ seq (put_seq seq fb))
      return seq)
        w

unfoldable pub append_all : ℕ → List (List ℕ) → Op (List ℕ)
unfolding append_one
append_all typ [] = return []
append_all typ (fb ∷ fbs) = do
  seq ← append_one typ fb
  seqs ← append_all typ fbs
  return (seq ∷ seqs)

unfoldable pub append_batch : ℕ → List (List ℕ) → Op (List ℕ)
unfolding append_all sync
append_batch typ [] = return []
append_batch typ (fb ∷ fbs) = do seqs ← append_all typ (fb ∷ fbs); sync; notify_append; return seqs

unfoldable pub append : Compressors → ℕ → List ℕ → Op ℕ
unfolding append_encoded
append c typ payload w = elim (encode c typ w.cp.next_seq payload) [
  | err e ↦ failed w
  | ok fb ↦ (do append_encoded typ w.cp.next_seq fb; return w.cp.next_seq) w
]
