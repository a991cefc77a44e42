-- ===== src/Sender/Unpaced.antt =====
-- runPipeline of internal/sender/sender.go does not wait before it repeats the first frame of a
-- window.
use vm_sync.Base.{
  ℕ, zero, suc, ◌≡◌, refl, sym, subst, Bool, true, false, List, [], ◌∷◌, Option, none, some,
  if◌then◌else◌, arith, ◌==◌,
}
use vm_sync.Protocol.Frame.{ack_success, ack_fail}
use vm_sync.Wal.State.{Wal, FrameData, Step, done, failed, panicked, endless}
use vm_sync.Sender.Backoff.{SenderConfig}
use vm_sync.Transport.Client.{Client, ensure_connected, send_frame, wait_ack}
use vm_sync.Sender.Pipeline.{
  Sending, Sent, all_sent, send_failed, cancelled, after_send, pause, unless_done, send_window,
  Acked, all_acked, send_again, committed, took, after_wait, read_acks, after_dial, reconnect,
  Outcome, returned, running, crashed, on_acked, on_sent, go_back_n,
}

module _ (f : FrameData) (n : ℕ) where
  abbrev HasSlept : Sending → Type 0
  HasSlept s = s.slept ≡ n

  abbrev WindowSlept : Sent × Sending → Type 0
  WindowSlept (all_sent, s) = HasSlept s
  WindowSlept (send_failed window, s) = HasSlept s × (window ≡ f ∷ [])
  WindowSlept (cancelled, s) = HasSlept s

  after_send-WindowSlept :
      (cfg : SenderConfig) (r : Bool × Client) (s : Sending)
      → HasSlept s
      → WindowSlept (after_send cfg (send_window cfg false []) (f ∷ []) r s)
  unfolding send_window
  after_send-WindowSlept cfg (true, c) s h = h
  after_send-WindowSlept cfg (false, c) s h = (h, refl)

  unless_done-WindowSlept :
      (net : List (Option ℕ)) (s : Sending) (r : Sent × Sending)
      → HasSlept s
      → WindowSlept r
      → WindowSlept (unless_done net s r)
  unless_done-WindowSlept [] s r h k = h
  unless_done-WindowSlept (e ∷ net) s r h k = k

  send_window-WindowSlept :
      (cfg : SenderConfig) (s : Sending)
      → HasSlept s
      → WindowSlept (send_window cfg true (f ∷ []) s)
  unfolding send_window
  send_window-WindowSlept cfg s h = unless_done-WindowSlept s.client.net s _ h (
      after_send-WindowSlept cfg (send_frame f.bytes s.client) (pause cfg true s)
        (omega (arith, h)))

  abbrev AcksSlept : Step Sending Acked → Type 0
  AcksSlept (done all_acked s) = HasSlept s
  AcksSlept (done (send_again window) s) = HasSlept s × (window ≡ f ∷ [])
  AcksSlept (failed s) = HasSlept s
  AcksSlept panicked = Unit
  AcksSlept endless = Unit

  committed-AcksSlept :
      (cfg : SenderConfig) (clock : ℕ → ℕ) (s : Sending) (r : Step Wal (Unit {0}))
      → HasSlept s
      → AcksSlept (committed (read_acks cfg clock []) s r)
  unfolding read_acks
  committed-AcksSlept cfg clock s (done a w) h = h
  committed-AcksSlept cfg clock s (failed w) h = h
  committed-AcksSlept cfg clock s panicked h = tt
  committed-AcksSlept cfg clock s endless h = tt

  AcksSlept-if :
      (b : Bool) (r r' : Step Sending Acked)
      → AcksSlept r
      → AcksSlept r'
      → AcksSlept (if b then r else r')
  AcksSlept-if true r r' h k = h
  AcksSlept-if false r r' h k = k

  after_wait-AcksSlept :
      (cfg : SenderConfig) (clock : ℕ → ℕ) (r : Option ℕ × Client) (s : Sending)
      → HasSlept s
      → AcksSlept (after_wait cfg clock (read_acks cfg clock []) (f ∷ []) f r s)
  after_wait-AcksSlept cfg clock (none, c) s h = (h, refl)
  after_wait-AcksSlept cfg clock (some ack, c) s h =
      AcksSlept-if (ack == ack_success) _ _ (committed-AcksSlept cfg clock (took c f ack s) _ h)
        (AcksSlept-if (ack == ack_fail) _ _ (h, refl) (h, refl))

  read_acks-AcksSlept :
      (cfg : SenderConfig) (clock : ℕ → ℕ) (s : Sending)
      → HasSlept s
      → AcksSlept (read_acks cfg clock (f ∷ []) s)
  unfolding read_acks
  read_acks-AcksSlept cfg clock s h = after_wait-AcksSlept cfg clock (wait_ack s.client) s h

  reconnect-HasSlept : (cfg : SenderConfig) (s : Sending) → HasSlept s → HasSlept (reconnect cfg s)
  unfolding reconnect
  reconnect-HasSlept cfg s h = dialled_on (ensure_connected s.client)
    where
      dialled_on : (r : Bool × Client) → HasSlept (after_dial cfg r s)
      dialled_on (true, c) = h
      dialled_on (false, c) = h

  abbrev pub SleptFor : Outcome → Type 0
  SleptFor (returned s) = HasSlept s
  SleptFor (running s) = HasSlept s
  SleptFor crashed = Unit

  module _ (cfg : SenderConfig) (clock : ℕ → ℕ) (go : List FrameData → Sending → Outcome)
      (again : (t : Sending) → HasSlept t → SleptFor (go (f ∷ []) t)) where
    again_from :
        (window : List FrameData) (s : Sending)
        → HasSlept s
        → window ≡ f ∷ []
        → SleptFor (go window (reconnect cfg s))
    again_from window s h e =
        subst (λ w. SleptFor (go w (reconnect cfg s))) (sym e)
          (again (reconnect cfg s) (reconnect-HasSlept cfg s h))

    on_acked-SleptFor : (r : Step Sending Acked) → AcksSlept r → SleptFor (on_acked cfg go r)
    on_acked-SleptFor (done all_acked s) h = h
    on_acked-SleptFor (done (send_again window) s) h = again_from window s h.0 h.1
    on_acked-SleptFor (failed s) h = h
    on_acked-SleptFor panicked h = tt
    on_acked-SleptFor endless h = tt

    on_sent-SleptFor :
        (r : Sent × Sending) → WindowSlept r → SleptFor (on_sent cfg clock go (f ∷ []) r)
    on_sent-SleptFor (cancelled, s) h = h
    on_sent-SleptFor (send_failed window, s) h = again_from window s h.0 h.1
    on_sent-SleptFor (all_sent, s) h = on_acked-SleptFor _ (read_acks-AcksSlept cfg clock s h)

loop-SleptFor :
    (n fuel : ℕ) (cfg : SenderConfig) (clock : ℕ → ℕ) (f : FrameData) (s : Sending)
    → HasSlept f n s
    → SleptFor f n (go_back_n fuel cfg clock (f ∷ []) s)
unfolding go_back_n
loop-SleptFor n zero cfg clock f s h = h
loop-SleptFor n (suc fuel) cfg clock f s h =
    on_sent-SleptFor f n cfg clock (go_back_n fuel cfg clock) (loop-SleptFor n fuel cfg clock f) _
      (send_window-WindowSlept f n cfg s h)

-- A window of one frame is sent as often as it takes, refused or unreachable, and the loop never
-- waits: the time slept is the same whatever the network does and after any number of rounds.
pub go_back_n-SleptFor :
    (fuel : ℕ) (cfg : SenderConfig) (clock : ℕ → ℕ) (f : FrameData) (s : Sending)
    → SleptFor f s.slept (go_back_n fuel cfg clock (f ∷ []) s)
go_back_n-SleptFor fuel cfg clock f s = loop-SleptFor s.slept fuel cfg clock f s refl
