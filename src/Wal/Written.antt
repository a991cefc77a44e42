-- ===== src/Wal/Written.antt =====
-- appendEncodedLocked of internal/wal/wal.go: what it adds is what a later read gives.
use vm_sync.Base.{
  ℕ, ◌+◌, ◌≤◌, ◌%◌, ◌^◌, ◌≡◌, refl, ap, ◌∙◌, arith, List, [], ◌∷◌, ◌++◌, append_assoc, true, Option,
  none, some, leb, length, take, drop,
}
use vm_sync.Base.Maps
use vm_sync.Base.Maps.{get-put}
use vm_sync.Protocol.Bytes.{put_be}
use vm_sync.Wal.Scan.{FrameIndex, record_head_len}
use vm_sync.Wal.State.{
  Wal, Handle, no_file, opened, closed, Step, done, failed, and_then, contents, call, write,
  write_with, close_file, is_open,
}
use vm_sync.Wal.Append.{ensure_with, rotate, touch, attach, to_next, next_segment, write_record}
use vm_sync.Wal.Outcome.{Ends, Ends-if, Ends-and_then, Ends-weaken, IsApart, call-keeps}

-- What an error leaves: the frames, how many are acknowledged, and the numbers to be stored.
pub record Kept (w v : Wal) : Type 0 where
  pub index : v.index ≡ w.index
  pub acked : v.acked ≡ w.acked
  pub cp : v.cp ≡ w.cp

abbrev pub written_bytes : Wal → List ℕ
written_bytes w = contents w.cur_seg w.disk.files

-- The offset of the next record is the end of an open file.
abbrev pub IsAligned : Wal → Type 0
IsAligned w = is_open w.cur_file ≡ true → w.cur_offset ≡ length (written_bytes w)

abbrev pub Ready : Wal → Wal → Type 0
Ready w v = Kept w v × IsAligned v

-- The log has the frame at its end, and the bytes that a read of it gives.
pub record Written (w : Wal) (typ seq : ℕ) (fb : List ℕ) (v : Wal) : Type 0 where
  pub entry : FrameIndex
  pub index : v.index ≡ w.index ++ (entry ∷ [])
  pub acked : v.acked ≡ w.acked
  pub next_seq : v.cp.next_seq ≡ (seq + 1) % 2 ^ 64
  pub header : (entry.seq ≡ seq) × (entry.typ ≡ typ)
  pub whole :
      entry.offset + record_head_len + entry.length ≤ length (contents entry.seg v.disk.files)
  pub bytes :
      take entry.length (drop (entry.offset + record_head_len) (contents entry.seg v.disk.files))
      ≡ fb
  pub aligned : IsAligned v

pub contents-put :
    (seg : ℕ) (b : List ℕ) (files : List (ℕ × List ℕ)) → contents seg (Maps.put seg b files) ≡ b
unfolding contents
contents-put seg b files = rw (contents, get-put seg seg b files) (ground arith)

module _ (w : Wal) where
  Kept-IsApart : IsApart (Kept w)
  Kept-IsApart = record {
    faults = λ v fs k. record { index = k.index; acked = k.acked; cp = k.cp };
    stored = λ v k. record { index = k.index; acked = k.acked; cp = k.cp };
    time = λ v now k. record { index = k.index; acked = k.acked; cp = k.cp };
  }

  abbrev EndsReady : Step Wal (Unit {0}) → Type 0
  EndsReady = Ends (λ _. Ready w) (Kept w)

  rotate-Ready : (v : Wal) → Kept w v → EndsReady (rotate v)
  unfolding rotate
  rotate-Ready v k =
      Ends-and_then (λ _. Kept w) (λ _. Ready w) (Kept w) (call v)
        (λ _ u. and_then (call (touch u)) (λ _ x. done tt (attach x)))
        (call-keeps (Kept w) Kept-IsApart v k)
        (λ _ u j.
          Ends-and_then (λ _. Kept w) (λ _. Ready w) (Kept w) (call (touch u))
            (λ _ x. done tt (attach x))
            (call-keeps (Kept w) Kept-IsApart (touch u)
              (record { index = j.index; acked = j.acked; cp = j.cp }))
            (λ _ x i. (record { index = i.index; acked = i.acked; cp = i.cp }, λ _. refl)))

  close_file-Kept : (v : Wal) → Kept w v → Ends (λ _. Kept w) (Kept w) (close_file v)
  unfolding close_file
  close_file-Kept v k =
      Ends-if (λ _. Kept w) (Kept w) (is_open v.cur_file) (call (record v { cur_file = closed }))
        (failed v)
        (λ _.
          call-keeps (Kept w) Kept-IsApart (record v { cur_file = closed })
            (record { index = k.index; acked = k.acked; cp = k.cp }))
        (λ _. k)

  next_segment-Ready : (v : Wal) → Kept w v → EndsReady (next_segment v)
  unfolding next_segment
  next_segment-Ready v k =
      Ends-and_then (λ _. Kept w) (λ _. Ready w) (Kept w) (close_file v) (λ _ u. rotate (to_next u))
        (close_file-Kept v k)
        (λ _ u j. rotate-Ready (to_next u) (record { index = j.index; acked = j.acked; cp = j.cp }))

  pub ensure_with-Ready :
      (h : Handle) (need : ℕ) (v : Wal) → Ready w v → EndsReady (ensure_with h need v)
  unfolding ensure_with
  ensure_with-Ready no_file need v r = rotate-Ready v r.0
  ensure_with-Ready opened need v r =
      Ends-if (λ _. Ready w) (Kept w) (leb (v.cur_offset + need) v.seg_size) (done tt v)
        (next_segment v) (λ _. r) (λ _. next_segment-Ready v r.0)
  ensure_with-Ready closed need v r =
      Ends-if (λ _. Ready w) (Kept w) (leb (v.cur_offset + need) v.seg_size) (done tt v)
        (next_segment v) (λ _. r) (λ _. next_segment-Ready v r.0)

-- A write that succeeds has added the bytes to the file of an open handle.
pub record Grown (w : Wal) (bs : List ℕ) (v : Wal) : Type 0 where
  pub kept : Kept w v
  pub held : v.cur_file ≡ w.cur_file
  pub is_open : is_open w.cur_file ≡ true
  pub place : (v.cur_seg ≡ w.cur_seg) × (v.cur_offset ≡ w.cur_offset)
  pub bytes : written_bytes v ≡ written_bytes w ++ bs

write_with-Grown :
    (l : List (Option ℕ)) (bs : List ℕ) (w : Wal)
    → is_open w.cur_file ≡ true
    → Ends (λ _. Grown w bs) (Kept w) (write_with l bs w)
unfolding write_with
write_with-Grown [] bs w o = record {
  kept = record { index = refl; acked = refl; cp = refl };
  held = refl;
  is_open = o;
  place = (refl, refl);
  bytes = contents-put w.cur_seg (written_bytes w ++ bs) w.disk.files;
}
write_with-Grown (none ∷ fs) bs w o = record {
  kept = record { index = refl; acked = refl; cp = refl };
  held = refl;
  is_open = o;
  place = (refl, refl);
  bytes = contents-put w.cur_seg (written_bytes w ++ bs) w.disk.files;
}
write_with-Grown (some n ∷ fs) bs w o = record { index = refl; acked = refl; cp = refl }

write-Grown : (bs : List ℕ) (w : Wal) → Ends (λ _. Grown w bs) (Kept w) (write bs w)
unfolding write
write-Grown bs w =
    Ends-if (λ _. Grown w bs) (Kept w) (is_open w.cur_file) (write_with w.disk.faults bs w)
      (failed w) (λ o. write_with-Grown w.disk.faults bs w o)
      (λ _. record { index = refl; acked = refl; cp = refl })

pub Kept-trans : (u v w : Wal) → Kept u v → Kept v w → Kept u w
Kept-trans u v w j k = record {
  index = k.index ∙ j.index;
  acked = k.acked ∙ j.acked;
  cp = k.cp ∙ j.cp;
}

Grown-trans : (u v w : Wal) (bs cs : List ℕ) → Grown u bs v → Grown v cs w → Grown u (bs ++ cs) w
Grown-trans u v w bs cs g h = record {
  kept = Kept-trans u v w g.kept h.kept;
  held = h.held ∙ g.held;
  is_open = g.is_open;
  place = (h.place.0 ∙ g.place.0, h.place.1 ∙ g.place.1);
  bytes = h.bytes ∙ ap (λ (b : List ℕ). b ++ cs) g.bytes ∙ append_assoc (written_bytes u) bs cs;
}

abbrev pub record_head : List ℕ → List ℕ
record_head fb = put_be 4 (length fb % 2 ^ 32)

pub write_record-Grown :
    (fb : List ℕ) (w : Wal)
    → Ends (λ _. Grown w (record_head fb ++ fb)) (Kept w) (write_record fb w)
unfolding write_record
write_record-Grown fb w =
    Ends-and_then (λ _. Grown w (record_head fb)) (λ _. Grown w (record_head fb ++ fb)) (Kept w)
      (write (record_head fb) w) (λ _. write fb) (write-Grown (record_head fb) w)
      (λ _ v g.
        Ends-weaken (λ _. Grown v fb) (λ _. Grown w (record_head fb ++ fb)) (Kept v) (Kept w)
          (write fb v) (λ _ u h. Grown-trans w v u (record_head fb) fb g h)
          (λ u k. Kept-trans w v u g.kept k) (write-Grown fb v))
