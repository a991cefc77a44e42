-- ===== src/Wal/Durable.antt =====
-- AppendEncoded of internal/wal/wal.go: a frame that is added is there to be read, and an error adds
-- none.
use vm_sync.Base.{
  ℕ, ◌+◌, ◌%◌, ◌^◌, ◌≡◌, refl, sym, ap, ◌∙◌, arith, List, [], ◌∷◌, ◌++◌, append-nil, true, ◌==◌,
  not, length, take, drop, length-append, drop-append_left, drop-drop, take-append_left,
}
use vm_sync.Protocol.Bytes.{length-put_be}
use vm_sync.Wal.Scan.{FrameIndex, record_head_len}
use vm_sync.Wal.State.{Wal, done, failed, and_then, call, sync, is_open}
use vm_sync.Wal.Append.{append_encoded, ensure_space, write_record, add_entry, entry}
use vm_sync.Wal.Outcome.{Ends, Ends-if, Ends-and_then, Ends-weaken, IsApart, call-keeps}
use vm_sync.Wal.Written.{
  Kept, Written, Ready, Grown, IsAligned, written_bytes, record_head, Kept-trans, ensure_with-Ready,
  write_record-Grown,
}

-- The frame behind what was there.
reads_back :
    (old head fb : List ℕ)
    → length head ≡ 4
    → take (length fb) (drop (length old + 4) (old ++ (head ++ fb))) ≡ fb
reads_back old head fb h =
    ap (take (length fb)) (
      sym (drop-drop 4 (length old) (old ++ (head ++ fb)))
      ∙ ap (drop 4) (drop-append_left old (head ++ fb))
      ∙ ap (λ (n : ℕ). drop n (head ++ fb)) (sym h)
      ∙ drop-append_left head fb)
    ∙ ap (take (length fb)) (sym (append-nil fb))
    ∙ take-append_left fb []

module _ (w : Wal) (typ : ℕ) (fb : List ℕ) where
  abbrev GrownBy : Wal → Wal → Type 0
  GrownBy v u = Grown v (record_head fb ++ fb) u

  Grown-IsApart : (v : Wal) → IsApart (GrownBy v)
  Grown-IsApart v = record {
    faults = λ u fs g. record {
      kept = record { index = g.kept.index; acked = g.kept.acked; cp = g.kept.cp };
      held = g.held;
      is_open = g.is_open;
      place = g.place;
      bytes = g.bytes;
    };
    stored = λ u g. record {
      kept = record { index = g.kept.index; acked = g.kept.acked; cp = g.kept.cp };
      held = g.held;
      is_open = g.is_open;
      place = g.place;
      bytes = g.bytes;
    };
    time = λ u now g. record {
      kept = record { index = g.kept.index; acked = g.kept.acked; cp = g.kept.cp };
      held = g.held;
      is_open = g.is_open;
      place = g.place;
      bytes = g.bytes;
    };
  }

  sync-Grown : (v u : Wal) → GrownBy v u → Ends (λ _. GrownBy v) (Kept v) (sync u)
  unfolding sync
  sync-Grown v u g =
      Ends-if (λ _. GrownBy v) (Kept v) (is_open u.cur_file) (call u) (failed u)
        (λ _.
          Ends-weaken (λ _. GrownBy v) (λ _. GrownBy v) (GrownBy v) (Kept v) (call u) (λ _ x h. h)
            (λ x h. h.kept) (call-keeps (GrownBy v) (Grown-IsApart v) u g))
        (λ _. g.kept)

  module _ (seq : ℕ) (v u : Wal) (r : Ready w v) (g : GrownBy v u) where
    at_end : u.cur_offset ≡ length (written_bytes v)
    at_end = g.place.1 ∙ r.1 g.is_open

    size : length (written_bytes u) ≡ length (written_bytes v) + (4 + length fb)
    size =
        ap length g.bytes
        ∙ omega (
          arith,
          length-append (written_bytes v) (record_head fb ++ fb),
          length-append (record_head fb) fb,
          length-put_be 4 (length fb % 2 ^ 32),
        )

    entered : Written w typ seq fb (record (add_entry typ seq fb u) { notified = true })
    entered = record {
      entry = entry u typ seq fb;
      index =
          ap (λ (l : List FrameIndex). l ++ (entry u typ seq fb ∷ [])) (g.kept.index ∙ r.0.index);
      acked = g.kept.acked ∙ r.0.acked;
      next_seq = refl;
      header = (refl, refl);
      whole = omega (arith, at_end, size);
      bytes =
          ap (λ (n : ℕ). take (length fb) (drop (n + 4) (written_bytes u))) at_end
          ∙ ap (λ (b : List ℕ). take (length fb) (drop (length (written_bytes v) + 4) b)) g.bytes
          ∙ reads_back (written_bytes v) (record_head fb) fb (length-put_be 4 (length fb % 2 ^ 32));
      aligned = λ _. omega (arith, at_end, size);
    }

-- Where the next record's offset is the end of the segment file, AppendEncoded ends without a panic.
-- If it returns, then the index has one entry more, at the end, with the frame's type and number;
-- the segment file has at the entry's place the frame's bytes, all of them; the next number is the
-- following one modulo 2^64, and the next record's offset is again the end of the file. If it returns an error,
-- the index, what is acknowledged and the numbers of the checkpoint are as before.
pub append_encoded-Written :
    (typ seq : ℕ) (fb : List ℕ) (w : Wal)
    → IsAligned w
    → Ends (λ _. Written w typ seq fb) (Kept w) (append_encoded typ seq fb w)
unfolding append_encoded ensure_space
append_encoded-Written typ seq fb w a =
    Ends-if Good (Kept w) (not (seq == w.cp.next_seq)) (failed w) _ (λ _. same)
      (λ _.
        Ends-and_then (λ _. Ready w) Good (Kept w) (ensure_space (length fb + record_head_len) w)
          (λ _ v. and_then (write_record fb v) (λ _ u.
            and_then (sync u)
              (λ _ x. done tt (record (add_entry typ seq fb x) { notified = true }))))
          (ensure_with-Ready w w.cur_file (length fb + record_head_len) w (same, a))
          (λ _ v r.
            Ends-and_then (λ _. GrownBy w typ fb v) Good (Kept w) (write_record fb v)
              (λ _ u.
                and_then (sync u)
                  (λ _ x. done tt (record (add_entry typ seq fb x) { notified = true })))
              (Ends-weaken (λ _. GrownBy w typ fb v) (λ _. GrownBy w typ fb v) (Kept v) (Kept w)
                (write_record fb v) (λ _ x h. h) (λ x. Kept-trans w v x r.0)
                (write_record-Grown fb v))
              (λ _ u g.
                Ends-and_then (λ _. GrownBy w typ fb v) Good (Kept w) (sync u)
                  (λ _ x. done tt (record (add_entry typ seq fb x) { notified = true }))
                  (Ends-weaken (λ _. GrownBy w typ fb v) (λ _. GrownBy w typ fb v) (Kept v) (Kept w)
                    (sync u) (λ _ x h. h) (λ x. Kept-trans w v x r.0) (sync-Grown w typ fb v u g))
                  (λ _ x h. entered w typ fb seq v x r h))))
  where
    Good : Unit {0} → Wal → Type 0
    Good _ = Written w typ seq fb

    same : Kept w w
    same = record { index = refl; acked = refl; cp = refl }
