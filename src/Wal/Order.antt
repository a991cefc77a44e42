-- ===== src/Wal/Order.antt =====
-- Commit of internal/wal/wal.go: the log is acknowledged from the front, frame by frame.
use vm_sync.Base.{
  ℕ, ◌+◌, ◌≤◌, ◌≡◌, refl, sym, ap, subst, ◌∙◌, arith, List, [], ◌∷◌, Bool, true, false,
  if◌then◌else◌, ◌==◌, drop, drop-drop, ◌↔◌, Bool-cases, inl, inr,
}
use vm_sync.Wal.Scan.{FrameIndex}
use vm_sync.Wal.State.{Wal, Step, failed, panicked, pending}
use vm_sync.Wal.Commit.{
  commit, commit_first, finish_commit, remove_loop, rounds, acknowledge, persist_after,
}
use vm_sync.Wal.Outcome.{Ends, Ends-if, Ends-and_then}
use vm_sync.Wal.Leaving.{Follows, Left, remove_loop-keeps, persist_after-keeps}

-- Where the frames that are not acknowledged lie in segments that do not go back from the oldest one
-- on, Commit of the first one's number ends, without a panic, and acknowledges exactly that frame:
-- the others stay in their order, and lie in segments as before. That is so even if an error is
-- returned, since the acknowledgement precedes every call of the system.
pub commit-first :
    (now : ℕ) (w : Wal) (fi : FrameIndex) (fis : List FrameIndex)
    → pending w ≡ fi ∷ fis
    → Follows w.cp.seg_start (fi ∷ fis)
    → Ends (λ _. Left fis) (Left fis) (commit now fi.seq w)
unfolding commit
commit-first now w fi fis e f =
    subst (λ (l : List FrameIndex). Ends (λ _. Left fis) (Left fis) (commit_first l now fi.seq w))
      (sym e)
      (Ends-if (λ _. Left fis) (Left fis) (fi.seq == fi.seq) (finish_commit now (acknowledge fi w))
        (failed w)
        (λ _.
          Ends-and_then (λ _. Left fis) (λ _. Left fis) (Left fis)
            (remove_loop (rounds w.cp.seg_start (drop (w.acked + 1) w.index)) false
              (acknowledge fi w))
            (persist_after now)
            (remove_loop-keeps (rounds w.cp.seg_start (drop (w.acked + 1) w.index)) false fis
              (acknowledge fi w) left (rw left.0 (omega arith)))
            (λ removed v. persist_after-keeps now removed fis v))
        (λ wrong. absurd (ground (arith, wrong))))
  where
    lower : (start : ℕ) (l : List FrameIndex) → start ≤ fi.seg → Follows fi.seg l → Follows start l
    lower start [] h f = tt
    lower start (g ∷ l) h f = (omega (arith, h, f.0), f.1)

    left : Left fis (acknowledge fi w)
    left = (sym (drop-drop 1 w.acked w.index) ∙ ap (drop 1) e, lower w.cp.seg_start fis f.0 f.1)

-- Commit panics exactly when no frame waits for its acknowledgement, provided that the frames lie in
-- segments that do not go back from the oldest one on.
pub commit-panicked :
    (now seq : ℕ) (w : Wal)
    → Follows w.cp.seg_start (pending w)
    → (commit now seq w ≡ panicked) ↔ (pending w ≡ [])
unfolding commit
commit-panicked now seq w f =
    (forward (pending w) refl, λ e. ap (λ (l : List FrameIndex). commit_first l now seq w) e)
  where
    not_panicked :
        (fis : List FrameIndex) (s : Step Wal (Unit {0}))
        → Ends (λ _. Left fis) (Left fis) s
        → s ≡ panicked
        → ⊥
    not_panicked fis s h p = subst (Ends (λ _. Left fis) (Left fis)) p h

    first_ends :
        (fi : FrameIndex) (fis : List FrameIndex)
        → pending w ≡ fi ∷ fis
        → commit now seq w ≡ panicked
        → (fi.seq == seq) ≡ true
        → ⊥
    first_ends fi fis e p same =
        not_panicked fis (commit now fi.seq w)
          (commit-first now w fi fis e (subst (Follows w.cp.seg_start) e f))
          (subst (λ (n : ℕ). commit now n w ≡ panicked) (ground (arith, same)) p)

    refused :
        (fi : FrameIndex) (fis : List FrameIndex)
        → commit_first (fi ∷ fis) now seq w ≡ panicked
        → (fi.seq == seq) ≡ false
        → ⊥
    refused fi fis p other =
        subst
          (λ (b : Bool).
            (if b then finish_commit now (acknowledge fi w) else failed w) ≡ panicked → ⊥)
          (sym other) (λ q. ground (arith, q)) p

    forward : (l : List FrameIndex) → pending w ≡ l → commit now seq w ≡ panicked → pending w ≡ []
    forward [] e p = e
    forward (fi ∷ fis) e p = elim (Bool-cases (fi.seq == seq)) [
      | inl same ↦ absurd (first_ends fi fis e p same)
      | inr other ↦ absurd (
          refused fi fis (subst (λ (l : List FrameIndex). commit_first l now seq w ≡ panicked) e p)
            other)
    ]
