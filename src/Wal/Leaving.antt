-- ===== src/Wal/Leaving.antt =====
-- Commit of internal/wal/wal.go: the loop that removes the segments behind the acknowledged prefix.
use vm_sync.Base.{
  ℕ, zero, suc, ◌+◌, ◌≤◌, ◌≡◌, refl, sym, ap, subst, arith, List, [], ◌∷◌, Bool, true, false, ◌==◌,
}
use vm_sync.Wal.Scan.{FrameIndex}
use vm_sync.Wal.State.{
  Wal, Handle, no_file, opened, closed, Step, done, failed, and_then, call, close_file, pending,
  is_open,
}
use vm_sync.Wal.Commit.{
  remove_loop, remove_segment, leave_segment, leave_with, forget_segment, drop_file, seg_done,
  rounds, unless_empty, persist_after,
}
use vm_sync.Wal.Outcome.{
  Ends, Ends-if, Ends-and_then, Ends-weaken, IsApart, call-keeps, persist-keeps,
  persist_throttled-keeps,
}

-- The frames lie in segments that do not go back, from `start` on.
abbrev pub Follows : ℕ → List FrameIndex → Type 0
Follows start [] = Unit {0}
Follows start (fi ∷ fis) = (start ≤ fi.seg) × Follows fi.seg fis

-- What is left to be acknowledged, and where it starts.
abbrev pub Left : List FrameIndex → Wal → Type 0
Left fis w = (pending w ≡ fis) × Follows w.cp.seg_start fis

abbrev LeftAt : List FrameIndex → ℕ → Wal → Type 0
LeftAt fis start w = (pending w ≡ fis) × (w.cp.seg_start ≡ start)

Left-IsApart : (fis : List FrameIndex) → IsApart (Left fis)
Left-IsApart fis = record { faults = λ w fs h. h; stored = λ w h. h; time = λ w now h. h }

LeftAt-IsApart : (fis : List FrameIndex) (start : ℕ) → IsApart (LeftAt fis start)
LeftAt-IsApart fis start = record { faults = λ w fs h. h; stored = λ w h. h; time = λ w now h. h }

module _ (fis : List FrameIndex) where
  close-keeps :
      (start : ℕ) (w : Wal)
      → LeftAt fis start w
      → Ends (λ _. LeftAt fis start) (LeftAt fis start) (close_file w)
  unfolding close_file
  close-keeps start w h =
      Ends-if (λ _. LeftAt fis start) (LeftAt fis start) (is_open w.cur_file)
        (call (record w { cur_file = closed })) (failed w)
        (λ _.
          call-keeps (LeftAt fis start) (LeftAt-IsApart fis start) (record w { cur_file = closed })
            h)
        (λ _. h)

  leave_with-keeps :
      (start : ℕ) (f : Handle) (w : Wal)
      → LeftAt fis start w
      → Ends (λ _. LeftAt fis start) (LeftAt fis start) (leave_with f w)
  unfolding leave_with
  leave_with-keeps start no_file w h = h
  leave_with-keeps start opened w h =
      Ends-and_then (λ _. LeftAt fis start) (λ _. LeftAt fis start) (LeftAt fis start)
        (close_file w) (λ _. drop_file) (close-keeps start w h) (λ _ v at. at)
  leave_with-keeps start closed w h =
      Ends-and_then (λ _. LeftAt fis start) (λ _. LeftAt fis start) (LeftAt fis start)
        (close_file w) (λ _. drop_file) (close-keeps start w h) (λ _ v at. at)

  leave_segment-keeps :
      (start removed : ℕ) (w : Wal)
      → LeftAt fis start w
      → Ends (λ _. LeftAt fis start) (LeftAt fis start) (leave_segment removed w)
  unfolding leave_segment
  leave_segment-keeps start removed w h =
      Ends-if (λ _. LeftAt fis start) (LeftAt fis start) (removed == w.cur_seg)
        (leave_with w.cur_file w) (done tt w) (λ _. leave_with-keeps start w.cur_file w h) (λ _. h)

  LeftAt-Left : (start : ℕ) (w : Wal) → Follows start fis → LeftAt fis start w → Left fis w
  LeftAt-Left start w f h = (h.0, subst (λ (s : ℕ). Follows s fis) (sym h.1) f)

  -- A round of the loop, where no frame of the oldest segment is left.
  remove_segment-keeps :
      (w : Wal)
      → Left fis w
      → Follows (w.cp.seg_start + 1) fis
      → Ends (λ _. LeftAt fis (w.cp.seg_start + 1)) (Left fis) (remove_segment w)
  unfolding remove_segment
  remove_segment-keeps w h f =
      Ends-and_then (λ _. LeftAt fis w.cp.seg_start) (λ _. LeftAt fis (w.cp.seg_start + 1))
        (Left fis) (call w) (λ _ v. leave_segment w.cp.seg_start (forget_segment v))
        (Ends-weaken (λ _. LeftAt fis w.cp.seg_start) (λ _. LeftAt fis w.cp.seg_start)
          (LeftAt fis w.cp.seg_start) (Left fis) (call w) (λ _ v at. at)
          (λ v. LeftAt-Left w.cp.seg_start v h.1)
          (call-keeps (LeftAt fis w.cp.seg_start) (LeftAt-IsApart fis w.cp.seg_start) w
            (h.0, refl)))
        (λ _ v at.
          Ends-weaken (λ _. LeftAt fis (w.cp.seg_start + 1)) (λ _. LeftAt fis (w.cp.seg_start + 1))
            (LeftAt fis (w.cp.seg_start + 1)) (Left fis)
            (leave_segment w.cp.seg_start (forget_segment v)) (λ _ u there. there)
            (λ u. LeftAt-Left (w.cp.seg_start + 1) u f)
            (leave_segment-keeps (w.cp.seg_start + 1) w.cp.seg_start (forget_segment v)
              (at.0, ap (λ (s : ℕ). s + 1) at.1)))

later :
    (start : ℕ) (fis : List FrameIndex)
    → Follows start fis
    → seg_done start fis ≡ true
    → Follows (start + 1) fis
later start [] f d = tt
later start (fi ∷ fis) f d = (ground (arith, f.0, d), f.1)

-- What follows a round: with no frame left the loop is left, otherwise it goes on.
go_on-keeps :
    (fis : List FrameIndex) (v : Wal) (k : Wal → Step Wal Bool)
    → Left fis v
    → Ends (λ _. Left fis) (Left fis) (k v)
    → Ends (λ _. Left fis) (Left fis) (unless_empty (pending v) k v)
go_on-keeps fis v k h rest =
    subst (λ (l : List FrameIndex). Ends (λ _. Left fis) (Left fis) (unless_empty l k v)) (sym h.0)
      (by_cases fis h rest)
  where
    by_cases :
        (l : List FrameIndex)
        → Left fis v
        → Ends (λ _. Left fis) (Left fis) (k v)
        → Ends (λ _. Left fis) (Left fis) (unless_empty l k v)
    by_cases [] h rest = h
    by_cases (fi ∷ l) h rest = rest

fewer :
    (start fuel : ℕ) (fi : FrameIndex) (fis : List FrameIndex)
    → Follows start (fi ∷ fis)
    → seg_done start (fi ∷ fis) ≡ true
    → rounds start (fi ∷ fis) ≤ suc fuel
    → rounds (start + 1) (fi ∷ fis) ≤ fuel
fewer start fuel fi fis f d enough = ground (arith, f.0, d, enough)

pub remove_loop-keeps :
    (fuel : ℕ) (removed : Bool) (fis : List FrameIndex) (w : Wal)
    → Left fis w
    → rounds w.cp.seg_start fis ≤ fuel
    → Ends (λ _. Left fis) (Left fis) (remove_loop fuel removed w)
unfolding remove_loop
remove_loop-keeps zero removed [] w h enough = absurd (omega arith)
remove_loop-keeps zero removed (fi ∷ fis) w h enough = absurd (omega arith)
remove_loop-keeps (suc fuel) removed [] w h enough =
    Ends-if (λ _. Left []) (Left []) (seg_done w.cp.seg_start (pending w))
      (and_then (remove_segment w) (λ _ v. unless_empty (pending v) (remove_loop fuel true) v))
      (done removed w)
      (λ _.
        Ends-and_then (λ _. LeftAt [] (w.cp.seg_start + 1)) (λ _. Left []) (Left [])
          (remove_segment w) (λ _ v. unless_empty (pending v) (remove_loop fuel true) v)
          (remove_segment-keeps [] w h tt)
          (λ _ v at.
            subst
              (λ (l : List FrameIndex).
                Ends (λ _. Left []) (Left []) (unless_empty l (remove_loop fuel true) v))
              (sym at.0) (at.0, tt)))
      (λ _. h)
remove_loop-keeps (suc fuel) removed (fi ∷ fis) w h enough =
    Ends-if (λ _. Left (fi ∷ fis)) (Left (fi ∷ fis)) (seg_done w.cp.seg_start (pending w))
      (and_then (remove_segment w) (λ _ v. unless_empty (pending v) (remove_loop fuel true) v))
      (done removed w)
      (λ d.
        let d' = subst (λ (l : List FrameIndex). seg_done w.cp.seg_start l ≡ true) h.0 d in
        let f = later w.cp.seg_start (fi ∷ fis) h.1 d' in
        Ends-and_then (λ _. LeftAt (fi ∷ fis) (w.cp.seg_start + 1)) (λ _. Left (fi ∷ fis))
          (Left (fi ∷ fis)) (remove_segment w)
          (λ _ v. unless_empty (pending v) (remove_loop fuel true) v)
          (remove_segment-keeps (fi ∷ fis) w h f)
          (λ _ v at.
            let l = LeftAt-Left (fi ∷ fis) (w.cp.seg_start + 1) v f at in
            go_on-keeps (fi ∷ fis) v (remove_loop fuel true) l (
              remove_loop-keeps fuel true (fi ∷ fis) v l (
                subst (λ (s : ℕ). rounds s (fi ∷ fis) ≤ fuel) (sym at.1)
                  (fewer w.cp.seg_start fuel fi fis h.1 d' enough)))))
      (λ _. h)

pub persist_after-keeps :
    (now : ℕ) (removed : Bool) (fis : List FrameIndex) (w : Wal)
    → Left fis w
    → Ends (λ _. Left fis) (Left fis) (persist_after now removed w)
persist_after-keeps now true fis w h = persist-keeps (Left fis) (Left-IsApart fis) now w h
persist_after-keeps now false fis w h =
    persist_throttled-keeps (Left fis) (Left-IsApart fis) now w h
