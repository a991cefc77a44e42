-- ===== src/Wal/Wedged.antt =====
-- A rotation in internal/wal/wal.go that fails: ensureSpace has closed curFile, and keeps it.
use vm_sync.Base.{
  ℕ, ◌+◌, ◌<◌, ◌≡◌, refl, sym, ap, subst, arith, List, [], ◌∷◌, ltb, true, false, Option, none,
  some, ◌==◌, not, leb, length,
}
use vm_sync.Protocol.Frame.{header_size}
use vm_sync.Protocol.Reseq.{put_seq}
use vm_sync.Wal.Scan.{record_head_len}
use vm_sync.Wal.State.{
  Wal, Handle, opened, closed, Step, done, failed, and_then, call, call_with, write, write_with,
  sync, close_file, is_open,
}
use vm_sync.Wal.Append.{
  append_encoded, append_one, append_all, append_batch, ensure_space, ensure_with, rotate,
  next_segment, to_next, write_record, add_entry,
}
use vm_sync.Wal.Outcome.{Ends, Ends-if, Ends-and_then, Ends-weaken}
use vm_sync.Wal.Written.{record_head}

abbrev pub IsClosed : Wal → Type 0
IsClosed w = w.cur_file ≡ closed

-- No result, and the file is still closed.
abbrev pub Fails : Step Wal (Unit {0}) → Type 0
Fails = Ends (λ _ _. ⊥) IsClosed

not_open : (w : Wal) → IsClosed w → is_open w.cur_file ≡ false
not_open w c = ap is_open c

close_file-Fails : (w : Wal) → IsClosed w → Fails (close_file w)
unfolding close_file
close_file-Fails w c =
    Ends-if (λ _ _. ⊥) IsClosed (is_open w.cur_file) (call (record w { cur_file = closed }))
      (failed w) (λ o. absurd (ground (arith, o, not_open w c))) (λ _. c)

write-Fails : (bs : List ℕ) (w : Wal) → IsClosed w → Fails (write bs w)
unfolding write
write-Fails bs w c =
    Ends-if (λ _ _. ⊥) IsClosed (is_open w.cur_file) (write_with w.disk.faults bs w) (failed w)
      (λ o. absurd (ground (arith, o, not_open w c))) (λ _. c)

next_segment-Fails : (w : Wal) → IsClosed w → Fails (next_segment w)
unfolding next_segment
next_segment-Fails w c =
    Ends-and_then (λ _ _. ⊥) (λ _ _. ⊥) IsClosed (close_file w) (λ _ u. rotate (to_next u))
      (close_file-Fails w c) (λ _ _ f. absurd f)

ensure_space-IsClosed :
    (need : ℕ) (w : Wal) → IsClosed w → Ends (λ _. IsClosed) IsClosed (ensure_space need w)
unfolding ensure_space ensure_with
ensure_space-IsClosed need w c =
    subst (λ (h : Handle). Ends (λ _. IsClosed) IsClosed (ensure_with h need w)) (sym c)
      (Ends-if (λ _. IsClosed) IsClosed (leb (w.cur_offset + need) w.seg_size) (done tt w)
        (next_segment w) (λ _. c)
        (λ _.
          Ends-and_then (λ _ _. ⊥) (λ _. IsClosed) IsClosed (close_file w)
            (λ _ u. rotate (to_next u)) (close_file-Fails w c) (λ _ _ f. absurd f)))

-- With a file that was closed and is still held every append fails and leaves it so: nothing opens a
-- file again.
pub append_encoded-Fails :
    (typ seq : ℕ) (fb : List ℕ) (w : Wal) → IsClosed w → Fails (append_encoded typ seq fb w)
unfolding append_encoded
append_encoded-Fails typ seq fb w c =
    Ends-if (λ _ _. ⊥) IsClosed (not (seq == w.cp.next_seq)) (failed w) _ (λ _. c)
      (λ _.
        Ends-and_then (λ _. IsClosed) (λ _ _. ⊥) IsClosed
          (ensure_space (length fb + record_head_len) w)
          (λ _ v. and_then (write_record fb v) (λ _ u.
            and_then (sync u)
              (λ _ x. done tt (record (add_entry typ seq fb x) { notified = true }))))
          (ensure_space-IsClosed (length fb + record_head_len) w c)
          (λ _ v d.
            Ends-and_then (λ _ _. ⊥) (λ _ _. ⊥) IsClosed (write_record fb v)
              (λ _ u.
                and_then (sync u)
                  (λ _ x. done tt (record (add_entry typ seq fb x) { notified = true })))
              (Ends-and_then (λ _ _. ⊥) (λ _ _. ⊥) IsClosed (write (record_head fb) v)
                (λ _. write fb) (write-Fails (record_head fb) v d) (λ _ _ f. absurd f))
              (λ _ _ f. absurd f)))

write_record-Fails : (fb : List ℕ) (w : Wal) → IsClosed w → Fails (write_record fb w)
unfolding write_record
write_record-Fails fb w c =
    Ends-and_then (λ _ _. ⊥) (λ _ _. ⊥) IsClosed (write (record_head fb) w) (λ _. write fb)
      (write-Fails (record_head fb) w c) (λ _ _ f. absurd f)

append_one-Fails :
    (typ : ℕ) (fb : List ℕ) (w : Wal) → IsClosed w → Ends (λ _ _. ⊥) IsClosed (append_one typ fb w)
unfolding append_one
append_one-Fails typ fb w c =
    Ends-if (λ _ _. ⊥) IsClosed (ltb (length fb) header_size) (failed w) _ (λ _. c)
      (λ _.
        Ends-and_then (λ _. IsClosed) (λ _ _. ⊥) IsClosed
          (ensure_space (length fb + record_head_len) w) _
          (ensure_space-IsClosed (length fb + record_head_len) w c)
          (λ _ v d.
            Ends-and_then (λ _ _. ⊥) (λ _ _. ⊥) IsClosed (write_record (put_seq v.cp.next_seq fb) v)
              _ (write_record-Fails (put_seq v.cp.next_seq fb) v d) (λ _ _ f. absurd f)))

append_batch-Fails :
    (typ : ℕ) (fb : List ℕ) (fbs : List (List ℕ)) (w : Wal)
    → IsClosed w
    → Ends (λ _ _. ⊥) IsClosed (append_batch typ (fb ∷ fbs) w)
unfolding append_batch append_all
append_batch-Fails typ fb fbs w c =
    Ends-and_then (λ _ _. ⊥) (λ _ _. ⊥) IsClosed (append_all typ (fb ∷ fbs) w) _
      (Ends-and_then (λ _ _. ⊥) (λ _ _. ⊥) IsClosed (append_one typ fb w) _
        (append_one-Fails typ fb w c) (λ _ _ f. absurd f))
      (λ _ _ f. absurd f)

-- A call of AppendEncoded, or of AppendBatch with a frame at least.
pub data Attempt : Type 0 where
  one : (typ seq : ℕ) (fb : List ℕ) → Attempt
  batch : (typ : ℕ) (fb : List ℕ) (fbs : List (List ℕ)) → Attempt

-- These calls, made one after the other on the log, all return an error.
abbrev pub AllFail : List Attempt → Wal → Type 0
AllFail [] w = Unit {0}
AllFail (one typ seq fb ∷ calls) w = Ends (λ _ _. ⊥) (AllFail calls) (append_encoded typ seq fb w)
AllFail (batch typ fb fbs ∷ calls) w =
    Ends (λ _ _. ⊥) (AllFail calls) (append_batch typ (fb ∷ fbs) w)

IsClosed-AllFail : (calls : List Attempt) (w : Wal) → IsClosed w → AllFail calls w
IsClosed-AllFail [] w c = tt
IsClosed-AllFail (one typ seq fb ∷ calls) w c =
    Ends-weaken (λ _ _. ⊥) (λ _ _. ⊥) IsClosed (AllFail calls) (append_encoded typ seq fb w)
      (λ _ _ f. f) (IsClosed-AllFail calls) (append_encoded-Fails typ seq fb w c)
IsClosed-AllFail (batch typ fb fbs ∷ calls) w c =
    Ends-weaken (λ _ _. ⊥) (λ _ _. ⊥) IsClosed (AllFail calls) (append_batch typ (fb ∷ fbs) w)
      (λ _ _ f. f) (IsClosed-AllFail calls) (append_batch-Fails typ fb fbs w c)

-- An open log whose next call of the system succeeds and the one after it does not.
abbrev pub before_rotation : Wal → ℕ → List (Option ℕ) → Wal
before_rotation w k fs = record w {
  cur_file = opened;
  disk = record w.disk { faults = none ∷ some k ∷ fs };
}

rotation-Fails :
    (k : ℕ) (fs : List (Option ℕ)) (w : Wal) → Fails (next_segment (before_rotation w k fs))
unfolding next_segment close_file rotate call call_with
rotation-Fails k fs w = refl

-- If a frame does not fit into the segment, the old file is closed and the new one cannot be opened,
-- then the append fails, and so do all calls of AppendEncoded, and of AppendBatch with a frame at least,
-- that are made one after the other on the log that it leaves, whatever the disk does by then.
pub append_encoded-wedged :
    (typ : ℕ) (fb : List ℕ) (k : ℕ) (fs : List (Option ℕ)) (w : Wal)
    → w.seg_size < w.cur_offset + (length fb + record_head_len)
    → Ends
        (λ _ _. ⊥)
        (λ v. (calls : List Attempt) → AllFail calls v)
        (append_encoded typ w.cp.next_seq fb (before_rotation w k fs))
unfolding append_encoded ensure_space ensure_with
append_encoded-wedged typ fb k fs w big =
    Ends-weaken (λ _ _. ⊥) (λ _ _. ⊥) IsClosed (λ v. (calls : List Attempt) → AllFail calls v)
      (append_encoded typ w.cp.next_seq fb w') (λ _ _ f. f)
      (λ v c calls. IsClosed-AllFail calls v c)
      (Ends-if (λ _ _. ⊥) IsClosed (not (w.cp.next_seq == w.cp.next_seq)) (failed w') _
        (λ other. absurd (ground (arith, other)))
        (λ _.
          Ends-and_then (λ _ _. ⊥) (λ _ _. ⊥) IsClosed (ensure_space need w')
            (λ _ v. and_then (write_record fb v) (λ _ u.
              and_then (sync u)
                (λ _ x. done tt (record (add_entry typ w.cp.next_seq fb x) { notified = true }))))
            (Ends-if (λ _ _. ⊥) IsClosed (leb (w.cur_offset + need) w.seg_size) (done tt w')
              (next_segment w') (λ fits. absurd (ground (arith, fits, big)))
              (λ _. rotation-Fails k fs w))
            (λ _ _ f. absurd f)))
  where
    need : ℕ
    need = length fb + record_head_len

    w' : Wal
    w' = before_rotation w k fs
