-- ===== src/Sender/Pipeline.antt =====
-- runPipeline and sendHeartbeat of internal/sender/sender.go: a window of frames is sent, and their
-- answers are read in order; a refused frame closes the connection, and the window is sent again from
-- that frame on.
use vm_sync.Base.{
  ℕ, zero, suc, ◌+◌, Bool, true, false, List, [], ◌∷◌, Option, none, some, length, if◌then◌else◌,
  ltb, leb, ◌==◌,
}
use vm_sync.Protocol.Frame.{ack_success, ack_fail, Result, ok, err}
use vm_sync.Protocol.Codec.{Compressors, encode_heartbeat}
use vm_sync.Wal.State.{Wal, FrameData, Step, done, failed, panicked, endless}
use vm_sync.Wal.Commit.{peek_batch, commit}
use vm_sync.Sender.Backoff.{SenderConfig, backoff}
use vm_sync.Transport.Client.{
  Client, ensure_connected, send_frame, wait_ack, close_client, place_of,
}

-- A byte that was taken for the answer to a frame: the frame that stands at its place on the
-- connection, the frame that the loop takes it for, and the byte.
pub record Answer : Type 0 where
  pub place : Option (List ℕ)
  pub frame : FrameData
  pub ack : ℕ

-- What the loop changes; `slept` adds up its waits, and `answers` has the latest first.
pub record Sending : Type 0 where
  pub wal : Wal
  pub client : Client
  pub retry_count : ℕ
  pub slept : ℕ
  pub answers : List Answer

abbrev pub with_client : Client → Sending → Sending
with_client c s = record s { client = c }

-- retryCount++, and not above MaxRetry.
abbrev pub count_capped : SenderConfig → Sending → Sending
count_capped cfg s = record s {
  retry_count = if ltb cfg.max_retry (suc s.retry_count) then cfg.max_retry else suc s.retry_count;
}

-- How the sending of the window ends: with all frames sent, with the window from the frame on whose
-- sending failed, or with the end of the context.
pub data Sent : Type 0 where
  all_sent : Sent
  send_failed : (window : List FrameData) → Sent
  cancelled : Sent

abbrev pub after_send :
    SenderConfig
    → (Sending → Sent × Sending)
    → List FrameData
    → Bool × Client
    → Sending
    → Sent × Sending
after_send cfg go window (true, c) s = go (with_client c s)
after_send cfg go window (false, c) s = (send_failed window, count_capped cfg (with_client c s))

-- The wait before a frame that is not the first of the window.
abbrev pub pause : SenderConfig → Bool → Sending → Sending
pause cfg first s = record s { slept = s.slept + (if first then 0 else backoff cfg s.retry_count) }

-- `case <-ctx.Done()`: the context ends where nothing more is known of the network.
abbrev pub unless_done : List (Option ℕ) → Sending → Sent × Sending → Sent × Sending
unless_done [] s r = (cancelled, s)
unless_done (_ ∷ _) s r = r

unfoldable pub send_window : SenderConfig → Bool → List FrameData → Sending → Sent × Sending
send_window cfg first [] s = (all_sent, s)
send_window cfg first (f ∷ fs) s = unless_done s.client.net s (
    after_send cfg (send_window cfg false fs) (f ∷ fs) (send_frame f.bytes s.client)
      (pause cfg first s))

-- How the reading of the answers ends: with the whole window answered by 0xff, or with the window
-- from the frame on that has to be sent again.
pub data Acked : Type 0 where
  all_acked : Acked
  send_again : (window : List FrameData) → Acked

abbrev pub refused : SenderConfig → Sending → Sending
refused cfg s = record s {
  retry_count = if leb cfg.max_retry (suc s.retry_count) then cfg.max_retry else suc s.retry_count;
  client = close_client s.client;
}

abbrev pub invalid : Sending → Sending
invalid s = record s { retry_count = suc s.retry_count; client = close_client s.client }

abbrev pub committed :
    (Sending → Step Sending Acked) → Sending → Step Wal (Unit {0}) → Step Sending Acked
committed go s (done a w) = go (record s { wal = w; retry_count = 0 })
committed go s (failed w) = go (record s { wal = w })
committed go s panicked = panicked
committed go s endless = endless

-- The switch on the byte. `clock n` is the time at which the n-th answer is dealt with.
abbrev pub on_ack :
    SenderConfig
    → (ℕ → ℕ)
    → (Sending → Step Sending Acked)
    → List FrameData
    → FrameData
    → ℕ
    → Sending
    → Step Sending Acked
on_ack cfg clock go window f ack s =
    if ack == ack_success
    then committed go s (commit (clock (length s.answers)) f.seq s.wal)
    else if ack == ack_fail
    then done (send_again window) (refused cfg s)
    else done (send_again window) (invalid s)

abbrev pub took : Client → FrameData → ℕ → Sending → Sending
took c f ack s = record s {
  client = c;
  answers = record { place = place_of s.client.conn; frame = f; ack = ack } ∷ s.answers;
}

abbrev pub after_wait :
    SenderConfig
    → (ℕ → ℕ)
    → (Sending → Step Sending Acked)
    → List FrameData
    → FrameData
    → Option ℕ × Client
    → Sending
    → Step Sending Acked
after_wait cfg clock go window f (none, c) s =
    done (send_again window) (count_capped cfg (with_client c s))
after_wait cfg clock go window f (some ack, c) s = on_ack cfg clock go window f ack (took c f ack s)

unfoldable pub read_acks : SenderConfig → (ℕ → ℕ) → List FrameData → Sending → Step Sending Acked
unfolding commit
read_acks cfg clock [] s = done all_acked s
read_acks cfg clock (f ∷ fs) s =
    after_wait cfg clock (read_acks cfg clock fs) (f ∷ fs) f (wait_ack s.client) s

abbrev pub after_dial : SenderConfig → Bool × Client → Sending → Sending
after_dial cfg (true, c) s = with_client c s
after_dial cfg (false, c) s = count_capped cfg (with_client c s)

unfoldable pub reconnect : SenderConfig → Sending → Sending
reconnect cfg s = after_dial cfg (ensure_connected s.client) s

-- `running` is the loop after the rounds that were given to it.
pub data Outcome : Type 0 where
  returned : Sending → Outcome
  running : Sending → Outcome
  crashed : Outcome

abbrev pub on_acked :
    SenderConfig → (List FrameData → Sending → Outcome) → Step Sending Acked → Outcome
on_acked cfg go (done all_acked s) = returned s
on_acked cfg go (done (send_again window) s) = go window (reconnect cfg s)
on_acked cfg go (failed s) = returned s
on_acked cfg go panicked = crashed
on_acked cfg go endless = crashed

abbrev pub on_sent :
    SenderConfig
    → (ℕ → ℕ)
    → (List FrameData → Sending → Outcome)
    → List FrameData
    → Sent × Sending
    → Outcome
on_sent cfg clock go window (cancelled, s) = returned s
on_sent cfg clock go window (send_failed rest, s) = go rest (reconnect cfg s)
on_sent cfg clock go window (all_sent, s) = on_acked cfg go (read_acks cfg clock window s)

unfoldable pub go_back_n : ℕ → SenderConfig → (ℕ → ℕ) → List FrameData → Sending → Outcome
go_back_n zero cfg clock window s = running s
go_back_n (suc fuel) cfg clock window s =
    on_sent cfg clock (go_back_n fuel cfg clock) window (send_window cfg true window s)

-- The window is what PeekBatch gives, or the frame that Run has read.
abbrev pub with_window :
    ℕ → SenderConfig → (ℕ → ℕ) → FrameData → Sending → Step Wal (List FrameData) → Outcome
with_window fuel cfg clock fd s (done window w) =
    go_back_n fuel cfg clock window (record s { wal = w })
with_window fuel cfg clock fd s (failed w) =
    go_back_n fuel cfg clock (fd ∷ []) (record s { wal = w })
with_window fuel cfg clock fd s panicked = crashed
with_window fuel cfg clock fd s endless = crashed

unfoldable pub run_pipeline : ℕ → SenderConfig → (ℕ → ℕ) → FrameData → Sending → Outcome
unfolding go_back_n peek_batch
run_pipeline fuel cfg clock fd s = with_window fuel cfg clock fd s (peek_batch cfg.pipeline s.wal)

abbrev pub heartbeat_sent : Bool × Client → Client
heartbeat_sent (true, c) = (wait_ack c).1
heartbeat_sent (false, c) = c

abbrev pub heartbeat_ready : List ℕ → Bool × Client → Client
heartbeat_ready frame_bytes (true, c) = heartbeat_sent (send_frame frame_bytes c)
heartbeat_ready frame_bytes (false, c) = c

abbrev pub heartbeat_encoded : Result (List ℕ) → Client → Client
heartbeat_encoded (err e) c = c
heartbeat_encoded (ok frame_bytes) c = heartbeat_ready frame_bytes (ensure_connected c)

unfoldable pub send_heartbeat : Compressors → Client → Client
send_heartbeat codec c = heartbeat_encoded (encode_heartbeat codec 0) c
