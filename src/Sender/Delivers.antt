-- ===== src/Sender/Delivers.antt =====
-- runPipeline of internal/sender/sender.go: the answers are those of the frames, and nothing crashes.
use vm_sync.Base.{ℕ, ◌≡◌, ◌⊎◌, List, [], ◌∷◌}
use vm_sync.Wal.Scan.{FrameIndex}
use vm_sync.Wal.State.{FrameData}
use vm_sync.Wal.Leaving.{Left}
use vm_sync.Sender.Backoff.{SenderConfig}
use vm_sync.Sender.Pipeline.{Sending, Outcome, returned, running, crashed, run_pipeline}
use vm_sync.Transport.Settled.{IsSettled}
use vm_sync.Sender.Matched.{AreMatched, InStep, Stays, run_pipeline-Stays}
use vm_sync.Sender.Releases.{Releases, run_pipeline-Releases}

abbrev pub Delivers : Outcome → Type 0
Delivers (returned s) = AreMatched s × (IsSettled s.client ⊎ (s.client.net ≡ []))
Delivers (running s) = InStep s
Delivers crashed = ⊥

Delivers-of : (frames : List FrameIndex) (o : Outcome) → Stays o → Releases frames o → Delivers o
Delivers-of frames (returned s) h r = h
Delivers-of frames (running s) h r = h
Delivers-of frames crashed h r = r

-- Let frames be pending, in segments that do not go back from the oldest one on, let the answers taken so
-- far be matched, and the connection be in step or closed. A round of the sliding window does not crash.
-- When it returns, every byte that it has taken for the answer to a frame stands on the connection at the
-- place of that frame, and either the connection is in step again or closed, or what the network has in
-- store is used up, which is where the context has ended, within a window. When the rounds are used up
-- first, the answers are matched and the connection is in step or closed where it stands.
pub run_pipeline-Delivers :
    (fuel : ℕ) (cfg : SenderConfig) (clock : ℕ → ℕ) (fd : FrameData) (s : Sending) (fi : FrameIndex)
    (fis : List FrameIndex)
    → Left (fi ∷ fis) s.wal
    → AreMatched s
    → IsSettled s.client
    → Delivers (run_pipeline fuel cfg clock fd s)
run_pipeline-Delivers fuel cfg clock fd s fi fis l m h =
    Delivers-of (fi ∷ fis) (run_pipeline fuel cfg clock fd s)
      (run_pipeline-Stays fuel cfg clock fd s m h)
      (run_pipeline-Releases fuel cfg clock fd s fi fis l)
