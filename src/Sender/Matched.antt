-- ===== src/Sender/Matched.antt =====
-- runPipeline of internal/sender/sender.go takes no byte for the answer to another frame.
use vm_sync.Base.{
  ℕ, zero, suc, ◌≡◌, refl, sym, subst, ◌⊎◌, inl, inr, Bool, true, false, List, [], ◌∷◌, ◌++◌,
  append-nil, append_assoc, Option, none, some, All, if◌then◌else◌, ◌==◌,
}
use vm_sync.Protocol.Frame.{ack_success, ack_fail}
use vm_sync.Wal.State.{Wal, FrameData, Step, done, failed, panicked, endless}
use vm_sync.Wal.Commit.{peek_batch}
use vm_sync.Sender.Backoff.{SenderConfig}
use vm_sync.Transport.Client.{Client, ensure_connected, send_frame, wait_ack, close_client}
use vm_sync.Sender.Pipeline.{
  Answer, Sending, with_client, Sent, all_sent, send_failed, cancelled, after_send, pause,
  unless_done, send_window, Acked, all_acked, send_again, committed, on_ack, took, after_wait,
  read_acks, after_dial, reconnect, Outcome, returned, running, crashed, on_acked, on_sent,
  go_back_n, with_window, run_pipeline,
}
use vm_sync.Transport.Settled.{
  Awaits, IsSettled, SentOn, Answered, send_frame-SentOn, wait_ack-Answered,
  ensure_connected-IsSettled,
}

abbrev bytes_of : List FrameData → List (List ℕ)
bytes_of [] = []
bytes_of (f ∷ fs) = f.bytes ∷ bytes_of fs

-- The byte came at the place of the frame that it was taken for.
abbrev pub IsMatched : Answer → Type 0
IsMatched a = a.place ≡ some a.frame.bytes

abbrev pub AreMatched : Sending → Type 0
AreMatched s = All IsMatched s.answers

abbrev WindowSent : List (List ℕ) → Sent × Sending → Type 0
WindowSent frames (all_sent, s) = AreMatched s × Awaits s.client.conn frames
WindowSent frames (send_failed window, s) = AreMatched s × (s.client.conn ≡ none)
WindowSent frames (cancelled, s) = AreMatched s × (s.client.net ≡ [])

after_send-WindowSent :
    (cfg : SenderConfig) (go : Sending → Sent × Sending) (window : List FrameData)
    (frames later : List (List ℕ)) (frame_bytes : List ℕ) (r : Bool × Client) (s : Sending)
    → AreMatched s
    → SentOn frames frame_bytes r
    → ((t : Sending)
        → AreMatched t
        → Awaits t.client.conn (frames ++ frame_bytes ∷ [])
        → WindowSent later (go t))
    → WindowSent later (after_send cfg go window r s)
after_send-WindowSent cfg go window frames later frame_bytes (true, c) s m h k =
    k (with_client c s) m h
after_send-WindowSent cfg go window frames later frame_bytes (false, c) s m h k = (m, h)

unless_done-WindowSent :
    (net : List (Option ℕ)) (frames : List (List ℕ)) (s : Sending) (r : Sent × Sending)
    → s.client.net ≡ net
    → AreMatched s
    → WindowSent frames r
    → WindowSent frames (unless_done net s r)
unless_done-WindowSent [] frames s r e m h = (m, e)
unless_done-WindowSent (n ∷ net) frames s r e m h = h

send_window-WindowSent :
    (cfg : SenderConfig) (first : Bool) (frames : List (List ℕ)) (fs : List FrameData) (s : Sending)
    → AreMatched s
    → Awaits s.client.conn frames
    → WindowSent (frames ++ bytes_of fs) (send_window cfg first fs s)
unfolding send_window
send_window-WindowSent cfg first frames [] s m h =
    (m, subst (Awaits s.client.conn) (sym (append-nil frames)) h)
send_window-WindowSent cfg first frames (f ∷ fs) s m h =
    unless_done-WindowSent s.client.net (frames ++ bytes_of (f ∷ fs)) s _ refl m (
      after_send-WindowSent cfg (send_window cfg false fs) (f ∷ fs) frames
        (frames ++ bytes_of (f ∷ fs)) f.bytes (send_frame f.bytes s.client) (pause cfg first s) m
        (send_frame-SentOn frames f.bytes s.client h)
        λ t n k.
          subst (λ l. WindowSent l (send_window cfg false fs t))
            (append_assoc frames (f.bytes ∷ []) (bytes_of fs))
            (send_window-WindowSent cfg false (frames ++ f.bytes ∷ []) fs t n k))

-- The connection is in step again, or it is closed.
abbrev AcksRead : Step Sending Acked → Type 0
AcksRead (done r s) = AreMatched s × IsSettled s.client
AcksRead (failed s) = ⊥
AcksRead panicked = Unit
AcksRead endless = Unit

committed-AcksRead :
    (go : Sending → Step Sending Acked) (frames : List (List ℕ)) (s : Sending)
    (r : Step Wal (Unit {0}))
    → AreMatched s
    → Awaits s.client.conn frames
    → ((t : Sending) → AreMatched t → Awaits t.client.conn frames → AcksRead (go t))
    → AcksRead (committed go s r)
committed-AcksRead go frames s (done a w) m h k = k _ m h
committed-AcksRead go frames s (failed w) m h k = k _ m h
committed-AcksRead go frames s panicked m h k = tt
committed-AcksRead go frames s endless m h k = tt

AcksRead-if :
    (b : Bool) (r r' : Step Sending Acked)
    → AcksRead r
    → AcksRead r'
    → AcksRead (if b then r else r')
AcksRead-if true r r' h k = h
AcksRead-if false r r' h k = k

on_ack-AcksRead :
    (cfg : SenderConfig) (clock : ℕ → ℕ) (go : Sending → Step Sending Acked)
    (window : List FrameData) (f : FrameData) (ack : ℕ) (frames : List (List ℕ)) (s : Sending)
    → AreMatched s
    → Awaits s.client.conn frames
    → ((t : Sending) → AreMatched t → Awaits t.client.conn frames → AcksRead (go t))
    → AcksRead (on_ack cfg clock go window f ack s)
unfolding close_client
on_ack-AcksRead cfg clock go window f ack frames s m h k =
    AcksRead-if (ack == ack_success) _ _ (committed-AcksRead go frames s _ m h k)
      (AcksRead-if (ack == ack_fail) _ _ (m, refl) (m, refl))

after_wait-AcksRead :
    (cfg : SenderConfig) (clock : ℕ → ℕ) (go : Sending → Step Sending Acked)
    (window : List FrameData) (f : FrameData) (r : Option ℕ × Client) (frames : List (List ℕ))
    (s : Sending)
    → AreMatched s
    → Answered s.client.conn f.bytes frames r
    → ((t : Sending) → AreMatched t → Awaits t.client.conn frames → AcksRead (go t))
    → AcksRead (after_wait cfg clock go window f r s)
after_wait-AcksRead cfg clock go window f (none, c) frames s m h k = (m, rw h refl)
after_wait-AcksRead cfg clock go window f (some ack, c) frames s m h k =
    on_ack-AcksRead cfg clock go window f ack frames (took c f ack s) (h.0, m) h.1 k

read_acks-AcksRead :
    (cfg : SenderConfig) (clock : ℕ → ℕ) (fs : List FrameData) (s : Sending)
    → AreMatched s
    → Awaits s.client.conn (bytes_of fs)
    → AcksRead (read_acks cfg clock fs s)
unfolding read_acks
read_acks-AcksRead cfg clock [] s m h = (m, h)
read_acks-AcksRead cfg clock (f ∷ fs) s m h =
    after_wait-AcksRead cfg clock (read_acks cfg clock fs) (f ∷ fs) f (wait_ack s.client)
      (bytes_of fs) s m (wait_ack-Answered f.bytes (bytes_of fs) s.client h)
      (read_acks-AcksRead cfg clock fs)

abbrev pub InStep : Sending → Type 0
InStep s = AreMatched s × IsSettled s.client

after_dial-InStep :
    (cfg : SenderConfig) (r : Bool × Client) (s : Sending)
    → AreMatched s
    → IsSettled r.1
    → InStep (after_dial cfg r s)
after_dial-InStep cfg (true, c) s m h = (m, h)
after_dial-InStep cfg (false, c) s m h = (m, h)

reconnect-InStep : (cfg : SenderConfig) (s : Sending) → InStep s → InStep (reconnect cfg s)
unfolding reconnect
reconnect-InStep cfg s h =
    after_dial-InStep cfg (ensure_connected s.client) s h.0
      (ensure_connected-IsSettled s.client h.1)

-- Every byte was matched, and unless the context has ended the connection is in step.
abbrev pub Stays : Outcome → Type 0
Stays (returned s) = AreMatched s × (IsSettled s.client ⊎ (s.client.net ≡ []))
Stays (running s) = InStep s
Stays crashed = Unit

on_acked-Stays :
    (cfg : SenderConfig) (go : List FrameData → Sending → Outcome) (r : Step Sending Acked)
    → AcksRead r
    → ((window : List FrameData) (t : Sending) → InStep t → Stays (go window t))
    → Stays (on_acked cfg go r)
on_acked-Stays cfg go (done all_acked s) h k = (h.0, inl h.1)
on_acked-Stays cfg go (done (send_again window) s) h k =
    k window (reconnect cfg s) (reconnect-InStep cfg s h)
on_acked-Stays cfg go (failed s) h k = absurd h
on_acked-Stays cfg go panicked h k = tt
on_acked-Stays cfg go endless h k = tt

on_sent-Stays :
    (cfg : SenderConfig) (clock : ℕ → ℕ) (go : List FrameData → Sending → Outcome)
    (window : List FrameData) (r : Sent × Sending)
    → WindowSent (bytes_of window) r
    → ((rest : List FrameData) (t : Sending) → InStep t → Stays (go rest t))
    → Stays (on_sent cfg clock go window r)
on_sent-Stays cfg clock go window (cancelled, s) h k = (h.0, inr h.1)
on_sent-Stays cfg clock go window (send_failed rest, s) h k =
    k rest (reconnect cfg s) (reconnect-InStep cfg s (h.0, rw h.1 refl))
on_sent-Stays cfg clock go window (all_sent, s) h k =
    on_acked-Stays cfg go _ (read_acks-AcksRead cfg clock window s h.0 h.1) k

go_back_n-Stays :
    (fuel : ℕ) (cfg : SenderConfig) (clock : ℕ → ℕ) (window : List FrameData) (s : Sending)
    → InStep s
    → Stays (go_back_n fuel cfg clock window s)
unfolding go_back_n
go_back_n-Stays zero cfg clock window s h = h
go_back_n-Stays (suc fuel) cfg clock window s h =
    on_sent-Stays cfg clock (go_back_n fuel cfg clock) window _
      (send_window-WindowSent cfg true [] window s h.0 h.1) (go_back_n-Stays fuel cfg clock)

with_window-Stays :
    (fuel : ℕ) (cfg : SenderConfig) (clock : ℕ → ℕ) (fd : FrameData) (s : Sending)
    (r : Step Wal (List FrameData))
    → InStep s
    → Stays (with_window fuel cfg clock fd s r)
with_window-Stays fuel cfg clock fd s (done window w) h =
    go_back_n-Stays fuel cfg clock window (record s { wal = w }) h
with_window-Stays fuel cfg clock fd s (failed w) h =
    go_back_n-Stays fuel cfg clock (fd ∷ []) (record s { wal = w }) h
with_window-Stays fuel cfg clock fd s panicked h = tt
with_window-Stays fuel cfg clock fd s endless h = tt

-- A round, where a crash is not excluded yet.
pub run_pipeline-Stays :
    (fuel : ℕ) (cfg : SenderConfig) (clock : ℕ → ℕ) (fd : FrameData) (s : Sending)
    → AreMatched s
    → IsSettled s.client
    → Stays (run_pipeline fuel cfg clock fd s)
unfolding run_pipeline
run_pipeline-Stays fuel cfg clock fd s m h =
    with_window-Stays fuel cfg clock fd s (peek_batch cfg.pipeline s.wal) (m, h)
