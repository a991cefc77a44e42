-- ===== src/Sender/Releases.antt =====
-- runPipeline of internal/sender/sender.go: which frames leave the log.
use vm_sync.Base.{
  ℕ, zero, suc, ◌≤◌, refl, sym, subst, ◌∙◌, Bool, true, false, List, [], ◌∷◌, Option, length, arith,
}
use vm_sync.Wal.State.{Wal, FrameData, Step, done, failed, panicked, endless}
use vm_sync.Wal.Commit.{peek_batch}
use vm_sync.Sender.Backoff.{SenderConfig}
use vm_sync.Transport.Client.{Client, ensure_connected}
use vm_sync.Sender.Pipeline.{
  Answer, Sending, with_client, Sent, all_sent, send_failed, cancelled, after_send, pause,
  unless_done, send_window, Acked, all_acked, send_again, after_dial, reconnect, Outcome, returned,
  running, crashed, on_acked, on_sent, go_back_n, with_window, run_pipeline,
}
use vm_sync.Wal.Scan.{FrameIndex}
use vm_sync.Wal.State.{pending}
use vm_sync.Wal.Leaving.{Left, Follows}
use vm_sync.Wal.Outcome.{Ends}
use vm_sync.Wal.Peeked.{Unread}
use vm_sync.Wal.Batch.{Batch, peek_batch-Batch}
use vm_sync.Sender.Released.{
  Released, IsReleased, AcksReleased, Released-fewer, read_acks-AcksReleased,
}

module _ (frames : List FrameIndex) where
  abbrev WindowReleased : ℕ → Sent × Sending → Type 0
  WindowReleased n (all_sent, s) = IsReleased frames n s
  WindowReleased n (send_failed window, s) = IsReleased frames (length window) s
  WindowReleased n (cancelled, s) = IsReleased frames 0 s

  after_send-WindowReleased :
      (cfg : SenderConfig) (go : Sending → Sent × Sending) (window : List FrameData) (n : ℕ)
      (r : Bool × Client) (s : Sending)
      → length window ≤ n
      → IsReleased frames n s
      → ((t : Sending) → IsReleased frames n t → WindowReleased n (go t))
      → WindowReleased n (after_send cfg go window r s)
  after_send-WindowReleased cfg go window n (true, c) s l h k = k (with_client c s) h
  after_send-WindowReleased cfg go window n (false, c) s l h k =
      Released-fewer frames (length window) n s.wal s.answers l h

  unless_done-WindowReleased :
      (net : List (Option ℕ)) (n : ℕ) (s : Sending) (r : Sent × Sending)
      → IsReleased frames n s
      → WindowReleased n r
      → WindowReleased n (unless_done net s r)
  unless_done-WindowReleased [] n s r h k =
      Released-fewer frames 0 n s.wal s.answers (omega arith) h
  unless_done-WindowReleased (e ∷ net) n s r h k = k

  send_window-WindowReleased :
      (cfg : SenderConfig) (first : Bool) (n : ℕ) (fs : List FrameData) (s : Sending)
      → length fs ≤ n
      → IsReleased frames n s
      → WindowReleased n (send_window cfg first fs s)
  unfolding send_window
  send_window-WindowReleased cfg first n [] s l h = h
  send_window-WindowReleased cfg first n (f ∷ fs) s l h =
      unless_done-WindowReleased s.client.net n s _ h (
        after_send-WindowReleased cfg (send_window cfg false fs) (f ∷ fs) n _ (pause cfg first s) l
          h λ t k. send_window-WindowReleased cfg false n fs t (omega (arith, l)) k)

  abbrev pub Releases : Outcome → Type 0
  Releases (returned s) = IsReleased frames 0 s
  Releases (running s) = IsReleased frames 0 s
  Releases crashed = ⊥

  reconnect-IsReleased :
      (cfg : SenderConfig) (n : ℕ) (s : Sending)
      → IsReleased frames n s
      → IsReleased frames n (reconnect cfg s)
  unfolding reconnect
  reconnect-IsReleased cfg n s h = dialled_on (ensure_connected s.client)
    where
      dialled_on : (r : Bool × Client) → IsReleased frames n (after_dial cfg r s)
      dialled_on (true, c) = h
      dialled_on (false, c) = h

  on_acked-Releases :
      (cfg : SenderConfig) (go : List FrameData → Sending → Outcome) (r : Step Sending Acked)
      → AcksReleased frames r
      → ((window : List FrameData) (t : Sending)
          → IsReleased frames (length window) t
          → Releases (go window t))
      → Releases (on_acked cfg go r)
  on_acked-Releases cfg go (done all_acked s) h k = h
  on_acked-Releases cfg go (done (send_again window) s) h k =
      k window (reconnect cfg s) (reconnect-IsReleased cfg (length window) s h)
  on_acked-Releases cfg go (failed s) h k = absurd h
  on_acked-Releases cfg go panicked h k = h
  on_acked-Releases cfg go endless h k = h

  on_sent-Releases :
      (cfg : SenderConfig) (clock : ℕ → ℕ) (go : List FrameData → Sending → Outcome)
      (window : List FrameData) (r : Sent × Sending)
      → WindowReleased (length window) r
      → ((rest : List FrameData) (t : Sending)
          → IsReleased frames (length rest) t
          → Releases (go rest t))
      → Releases (on_sent cfg clock go window r)
  on_sent-Releases cfg clock go window (cancelled, s) h k = h
  on_sent-Releases cfg clock go window (send_failed rest, s) h k =
      k rest (reconnect cfg s) (reconnect-IsReleased cfg (length rest) s h)
  on_sent-Releases cfg clock go window (all_sent, s) h k =
      on_acked-Releases cfg go _ (read_acks-AcksReleased frames cfg clock window s h) k

  go_back_n-Releases :
      (fuel : ℕ) (cfg : SenderConfig) (clock : ℕ → ℕ) (window : List FrameData) (s : Sending)
      → IsReleased frames (length window) s
      → Releases (go_back_n fuel cfg clock window s)
  unfolding go_back_n
  go_back_n-Releases zero cfg clock window s h =
      Released-fewer frames 0 (length window) s.wal s.answers (omega arith) h
  go_back_n-Releases (suc fuel) cfg clock window s h =
      on_sent-Releases cfg clock (go_back_n fuel cfg clock) window _
        (send_window-WindowReleased cfg true (length window) window s (omega arith) h)
        (go_back_n-Releases fuel cfg clock)

Unread-Left : (frames : List FrameIndex) (w v : Wal) → Left frames w → Unread w v → Left frames v
Unread-Left frames w v l u = (u.left ∙ l.0, subst (λ n. Follows n frames) (sym u.start) l.1)

start_of :
    (frames : List FrameIndex) (n : ℕ) (w : Wal) (answers : List Answer)
    → Left frames w
    → n ≤ length frames
    → Released frames n w answers
start_of frames n w answers l h = record {
  gone = [];
  still = frames;
  parts = refl;
  left = l;
  acked = tt;
  enough = h;
}

with_window-Releases :
    (fuel : ℕ) (cfg : SenderConfig) (clock : ℕ → ℕ) (fd : FrameData) (s : Sending) (fi : FrameIndex)
    (fis : List FrameIndex) (r : Step Wal (List FrameData))
    → Left (fi ∷ fis) s.wal
    → Ends (Batch s.wal (length (pending s.wal))) (Unread s.wal) r
    → Releases (fi ∷ fis) (with_window fuel cfg clock fd s r)
with_window-Releases fuel cfg clock fd s fi fis (done window w) l b =
    go_back_n-Releases (fi ∷ fis) fuel cfg clock window (record s { wal = w })
      (start_of (fi ∷ fis) (length window) w s.answers (Unread-Left (fi ∷ fis) s.wal w l b.0)
        (subst (λ p. length window ≤ length p) l.0 b.1))
with_window-Releases fuel cfg clock fd s fi fis (failed w) l b =
    go_back_n-Releases (fi ∷ fis) fuel cfg clock (fd ∷ []) (record s { wal = w })
      (start_of (fi ∷ fis) 1 w s.answers (Unread-Left (fi ∷ fis) s.wal w l b) (omega arith))
with_window-Releases fuel cfg clock fd s fi fis panicked l b = absurd b
with_window-Releases fuel cfg clock fd s fi fis endless l b = absurd b

-- With a frame pending, and the pending frames in segments that do not go back from the oldest one
-- on, a round of the sliding window does not panic, whatever the network and the disk do; at its
-- return, and after any number of its rounds, the frames in front have left the log, each after 0xff
-- was taken for a frame of its number, and all others are still pending, in their order.
pub run_pipeline-Releases :
    (fuel : ℕ) (cfg : SenderConfig) (clock : ℕ → ℕ) (fd : FrameData) (s : Sending) (fi : FrameIndex)
    (fis : List FrameIndex)
    → Left (fi ∷ fis) s.wal
    → Releases (fi ∷ fis) (run_pipeline fuel cfg clock fd s)
unfolding run_pipeline
run_pipeline-Releases fuel cfg clock fd s fi fis l =
    with_window-Releases fuel cfg clock fd s fi fis (peek_batch cfg.pipeline s.wal) l
      (peek_batch-Batch cfg.pipeline s.wal)
