-- ===== src/Wal/Steady.antt =====
-- AppendBatch of internal/wal/wal.go leaves the cursor alone, however it ends.
use vm_sync.Base.{
  ℕ, ◌+◌, ◌≡◌, List, [], ◌∷◌, Bool, true, Option, none, some, if◌then◌else◌, ltb, leb, length,
}
use vm_sync.Base.Int.{ℤ}
use vm_sync.Protocol.Frame.{header_size}
use vm_sync.Protocol.Reseq.{put_seq}
use vm_sync.Wal.Scan.{record_head_len}
use vm_sync.Wal.State.{
  Wal, Handle, no_file, opened, closed, Step, done, failed, and_then, call, write, write_with, sync,
  close_file, is_open,
}
use vm_sync.Wal.Append.{
  append_batch, append_all, append_one, ensure_space, ensure_with, rotate, touch, attach, to_next,
  next_segment, write_record, add_entry,
}
use vm_sync.Wal.Outcome.{Ends, Ends-if, Ends-and_then, IsApart, call-keeps}
use vm_sync.Wal.Written.{record_head}

abbrev pub HasCursor : ℤ → Wal → Type 0
HasCursor c w = w.cp.cursor_ns ≡ c

HasCursor-IsApart : (c : ℤ) → IsApart (HasCursor c)
HasCursor-IsApart c = record { faults = λ w fs h. h; stored = λ w h. h; time = λ w now h. h }

module _ (c : ℤ) where
  abbrev Steady : {A : Type 0} → Step Wal A → Type 0
  Steady s = Ends (λ _. HasCursor c) (HasCursor c) s

  Steady-and_then :
      {A : Type 0} {B : Type 0} (s : Step Wal A) (f : A → Wal → Step Wal B)
      → Steady s
      → ((a : A) (w : Wal) → HasCursor c w → Steady (f a w))
      → Steady (and_then s f)
  Steady-and_then s f h k =
      Ends-and_then (λ _. HasCursor c) (λ _. HasCursor c) (HasCursor c) s f h k

  Steady-if :
      {A : Type 0} (b : Bool) (s s' : Step Wal A)
      → Steady s
      → Steady s'
      → Steady (if b then s else s')
  Steady-if b s s' h k = Ends-if (λ _. HasCursor c) (HasCursor c) b s s' (λ _. h) (λ _. k)

  call-Steady : (w : Wal) → HasCursor c w → Steady (call w)
  call-Steady w h = call-keeps (HasCursor c) (HasCursor-IsApart c) w h

  rotate-Steady : (w : Wal) → HasCursor c w → Steady (rotate w)
  unfolding rotate
  rotate-Steady w h =
      Steady-and_then (call w) (λ _ u. and_then (call (touch u)) (λ _ x. done tt (attach x)))
        (call-Steady w h)
        (λ _ u j.
          Steady-and_then (call (touch u)) (λ _ x. done tt (attach x)) (call-Steady (touch u) j)
            (λ _ x i. i))

  close_file-Steady : (w : Wal) → HasCursor c w → Steady (close_file w)
  unfolding close_file
  close_file-Steady w h =
      Steady-if (is_open w.cur_file) (call (record w { cur_file = closed })) (failed w)
        (call-Steady (record w { cur_file = closed }) h) h

  next_segment-Steady : (w : Wal) → HasCursor c w → Steady (next_segment w)
  unfolding next_segment
  next_segment-Steady w h =
      Steady-and_then (close_file w) (λ _ u. rotate (to_next u)) (close_file-Steady w h)
        (λ _ u j. rotate-Steady (to_next u) j)

  ensure_with-Steady :
      (f : Handle) (need : ℕ) (w : Wal) → HasCursor c w → Steady (ensure_with f need w)
  unfolding ensure_with
  ensure_with-Steady no_file need w h = rotate-Steady w h
  ensure_with-Steady opened need w h =
      Steady-if (leb (w.cur_offset + need) w.seg_size) (done tt w) (next_segment w) h
        (next_segment-Steady w h)
  ensure_with-Steady closed need w h =
      Steady-if (leb (w.cur_offset + need) w.seg_size) (done tt w) (next_segment w) h
        (next_segment-Steady w h)

  write_with-Steady :
      (l : List (Option ℕ)) (bs : List ℕ) (w : Wal) → HasCursor c w → Steady (write_with l bs w)
  unfolding write_with
  write_with-Steady [] bs w h = h
  write_with-Steady (none ∷ fs) bs w h = h
  write_with-Steady (some n ∷ fs) bs w h = h

  write-Steady : (bs : List ℕ) (w : Wal) → HasCursor c w → Steady (write bs w)
  unfolding write
  write-Steady bs w h =
      Steady-if (is_open w.cur_file) (write_with w.disk.faults bs w) (failed w)
        (write_with-Steady w.disk.faults bs w h) h

  write_record-Steady : (fb : List ℕ) (w : Wal) → HasCursor c w → Steady (write_record fb w)
  unfolding write_record
  write_record-Steady fb w h =
      Steady-and_then (write (record_head fb) w) (λ _. write fb) (write-Steady (record_head fb) w h)
        (λ _ u. write-Steady fb u)

  sync-Steady : (w : Wal) → HasCursor c w → Steady (sync w)
  unfolding sync
  sync-Steady w h = Steady-if (is_open w.cur_file) (call w) (failed w) (call-Steady w h) h

  append_one-Steady :
      (typ : ℕ) (fb : List ℕ) (w : Wal) → HasCursor c w → Steady (append_one typ fb w)
  unfolding append_one ensure_space
  append_one-Steady typ fb w h = Steady-if (ltb (length fb) header_size) (failed w) _ h (
      Steady-and_then (ensure_space (length fb + record_head_len) w)
        (λ _ v.
          and_then (write_record (put_seq v.cp.next_seq fb) v)
            (λ _ u. done v.cp.next_seq (add_entry typ v.cp.next_seq (put_seq v.cp.next_seq fb) u)))
        (ensure_with-Steady w.cur_file (length fb + record_head_len) w h)
        (λ _ v j.
          Steady-and_then (write_record (put_seq v.cp.next_seq fb) v)
            (λ _ u. done v.cp.next_seq (add_entry typ v.cp.next_seq (put_seq v.cp.next_seq fb) u))
            (write_record-Steady (put_seq v.cp.next_seq fb) v j) (λ _ u i. i)))

  append_all-Steady :
      (typ : ℕ) (fbs : List (List ℕ)) (w : Wal) → HasCursor c w → Steady (append_all typ fbs w)
  unfolding append_all
  append_all-Steady typ [] w h = h
  append_all-Steady typ (fb ∷ fbs) w h =
      Steady-and_then (append_one typ fb w)
        (λ seq v. and_then (append_all typ fbs v) (λ seqs u. done (seq ∷ seqs) u))
        (append_one-Steady typ fb w h)
        (λ seq v j.
          Steady-and_then (append_all typ fbs v) (λ seqs u. done (seq ∷ seqs) u)
            (append_all-Steady typ fbs v j) (λ seqs u i. i))

  pub append_batch-Steady :
      (typ : ℕ) (fbs : List (List ℕ)) (w : Wal) → HasCursor c w → Steady (append_batch typ fbs w)
  unfolding append_batch
  append_batch-Steady typ [] w h = h
  append_batch-Steady typ (fb ∷ fbs) w h =
      Steady-and_then (append_all typ (fb ∷ fbs) w)
        (λ seqs v. and_then (sync v) (λ _ u. done seqs (record u { notified = true })))
        (append_all-Steady typ (fb ∷ fbs) w h)
        (λ seqs v j.
          Steady-and_then (sync v) (λ _ u. done seqs (record u { notified = true }))
            (sync-Steady v j) (λ _ u i. i))
