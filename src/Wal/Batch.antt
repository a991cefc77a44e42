-- ===== src/Wal/Batch.antt =====
-- PeekBatch and Commit of internal/wal/wal.go, for a reader that takes several frames at a time.
use vm_sync.Base.{
  ℕ, suc, ◌≤◌, ◌≡◌, refl, sym, subst, ◌⊎◌, inl, inr, arith, List, [], ◌∷◌, Bool, true, false,
  if◌then◌else◌, ◌==◌, length, take, length-take, Bool-cases,
}
use vm_sync.Wal.Scan.{FrameIndex}
use vm_sync.Wal.State.{Wal, FrameData, done, and_then, pending}
use vm_sync.Wal.Commit.{peek_batch, peek_first, read_frames, read_frame, commit, commit_first}
use vm_sync.Wal.Leaving.{Left}
use vm_sync.Wal.Order.{commit-first}
use vm_sync.Wal.Outcome.{Ends, Ends-and_then, Ends-weaken}
use vm_sync.Wal.Peeked.{Unread, read_frame-Keeps}

-- As many frames as asked for at most, with the log as it was.
abbrev pub Batch : Wal → ℕ → List FrameData → Wal → Type 0
Batch w n fds v = Unread w v × (length fds ≤ n)

read_frames-Batch :
    (w : Wal) (l : List FrameIndex) (v : Wal)
    → Unread w v
    → Ends (Batch w (length l)) (Unread w) (read_frames l v)
unfolding read_frames
read_frames-Batch w [] v k = (k, omega arith)
read_frames-Batch w (fi ∷ fis) v k =
    Ends-and_then (λ _. Unread w) (Batch w (suc (length fis))) (Unread w) (read_frame fi v)
      (λ bytes u.
        and_then (read_frames fis u)
          (λ rest x. done (record { seq = fi.seq; bytes = bytes } ∷ rest) x))
      (read_frame-Keeps w fi v k)
      (λ bytes u j.
        Ends-and_then (Batch w (length fis)) (Batch w (suc (length fis))) (Unread w)
          (read_frames fis u) (λ rest x. done (record { seq = fi.seq; bytes = bytes } ∷ rest) x)
          (read_frames-Batch w fis u j) (λ rest x b. (b.0, omega (arith, b.1))))

peek_first-Batch :
    (w : Wal) (l : List FrameIndex) (n : ℕ)
    → Ends (Batch w (length l)) (Unread w) (peek_first l n w)
unfolding peek_first
peek_first-Batch w [] n = record { left = refl; start = refl }
peek_first-Batch w (fi ∷ fis) n =
    Ends-weaken (Batch w (length (if n == 0 then fi ∷ fis else take n (fi ∷ fis))))
      (Batch w (length (fi ∷ fis))) (Unread w) (Unread w) _
      (λ fds v b. (b.0, chosen fds (n == 0) b.1)) (λ v k. k)
      (read_frames-Batch w (if n == 0 then fi ∷ fis else take n (fi ∷ fis)) w
        (record { left = refl; start = refl }))
  where
    chosen :
        (fds : List FrameData) (b : Bool)
        → length fds ≤ length (if b then fi ∷ fis else take n (fi ∷ fis))
        → length fds ≤ length (fi ∷ fis)
    chosen fds true h = h
    chosen fds false h = omega (arith, h, length-take n (fi ∷ fis))

-- What PeekBatch gives are no more frames than are pending.
pub peek_batch-Batch :
    (n : ℕ) (w : Wal) → Ends (Batch w (length (pending w))) (Unread w) (peek_batch n w)
unfolding peek_batch
peek_batch-Batch n w = peek_first-Batch w (pending w) n

-- A commit of any number takes the first frame out if the number is that frame's, and is refused
-- otherwise.
abbrev pub CommitsAt : ℕ → FrameIndex → List FrameIndex → Wal → Type 0
CommitsAt seq fi fis v = Left (fi ∷ fis) v ⊎ ((fi.seq ≡ seq) × Left fis v)

pub commit-CommitsAt :
    (now seq : ℕ) (fi : FrameIndex) (fis : List FrameIndex) (w : Wal)
    → Left (fi ∷ fis) w
    → Ends (λ _. CommitsAt seq fi fis) (CommitsAt seq fi fis) (commit now seq w)
unfolding commit
commit-CommitsAt now seq fi fis w h = elim (Bool-cases (fi.seq == seq)) [
  | inl e ↦ matching (ground (arith, e))
  | inr e ↦
      subst
        (λ l. Ends (λ _. CommitsAt seq fi fis) (CommitsAt seq fi fis) (commit_first l now seq w))
        (sym h.0) (rw e (inl h))
]
  where
    matching :
        fi.seq ≡ seq → Ends (λ _. CommitsAt seq fi fis) (CommitsAt seq fi fis) (commit now seq w)
    matching e =
        subst (λ n. Ends (λ _. CommitsAt n fi fis) (CommitsAt n fi fis) (commit now n w)) e
          (Ends-weaken (λ _. Left fis) (λ _. CommitsAt fi.seq fi fis) (Left fis)
            (CommitsAt fi.seq fi fis) (commit now fi.seq w) (λ _ v l. inr (refl, l))
            (λ v l. inr (refl, l)) (commit-first now w fi fis h.0 h.1))
