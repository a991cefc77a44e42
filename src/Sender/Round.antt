-- ===== src/Sender/Round.antt =====
-- Run of internal/sender/sender.go with a window of one frame: a round takes the first frame of the
-- log, sends it, and waits for its answer.
use vm_sync.Base.{ℕ, ◌+◌, List, ◌∷◌, Bool, Option, none, some, if◌then◌else◌, leb, ◌==◌}
use vm_sync.Protocol.Frame.{ack_success, ack_fail}
use vm_sync.Wal.State.{Wal, FrameData, Step, done, failed, panicked, endless}
use vm_sync.Wal.Commit.{peek, commit}
use vm_sync.Sender.Backoff.{SenderConfig}

-- The variables of the loop, and the frames that went out with the answers that came back.
pub record Sender : Type 0 where
  pub wal : Wal
  pub retry_count : ℕ
  pub cache : Option FrameData
  pub answered : List (FrameData × ℕ)

-- What the connection does in a round: EnsureConnected, SendFrame, and the byte of WaitAck, where
-- none is an error.
pub record Link : Type 0 where
  pub connected : Bool
  pub sent : Bool
  pub ack : Option ℕ
  pub now : ℕ

abbrev pub retry : Sender → Sender
retry s = record s { retry_count = s.retry_count + 1 }

-- The bytes of a frame that was read before are not taken from the file again.
abbrev pub from_cache : Option FrameData → FrameData → FrameData
from_cache none fd = fd
from_cache (some kept) fd = if kept.seq == fd.seq then kept else fd

abbrev pub committed : Sender → Step Wal (Unit {0}) → Step Sender (Unit {0})
committed s (done a w) = done tt (record s { wal = w; retry_count = 0 })
committed s (failed w) = done tt (record s { wal = w })
committed s panicked = panicked
committed s endless = endless

-- After AckFail the count stops at the limit; the frame is never given up.
abbrev pub refused : SenderConfig → Sender → Sender
refused c s =
    if leb c.max_retry (s.retry_count + 1) then record s { retry_count = c.max_retry } else retry s

unfoldable pub on_ack : SenderConfig → ℕ → ℕ → ℕ → Sender → Step Sender (Unit {0})
unfolding commit
on_ack c now seq ack s =
    if ack == ack_success
    then committed s (commit now seq s.wal)
    else if ack == ack_fail
    then done tt (refused c s)
    else done tt (retry s)

abbrev pub on_answer : SenderConfig → ℕ → FrameData → Option ℕ → Sender → Step Sender (Unit {0})
on_answer c now fd none s = done tt (retry s)
on_answer c now fd (some ack) s =
    on_ack c now fd.seq ack (record s { answered = (fd, ack) ∷ s.answered })

unfoldable pub exchange : SenderConfig → Link → FrameData → Sender → Step Sender (Unit {0})
unfolding on_ack
exchange c l fd s =
    if l.connected
    then if l.sent then on_answer c l.now fd l.ack s else done tt (retry s)
    else done tt (retry s)

-- With nothing to read, or an error in reading, the round waits; heartbeats leave no trace here.
abbrev pub with_frame : SenderConfig → Link → Sender → Step Wal FrameData → Step Sender (Unit {0})
with_frame c l s (done fd w) =
    let frame = from_cache s.cache fd in
    exchange c l frame (record s { wal = w; cache = some frame })
with_frame c l s (failed w) = done tt (record s { wal = w })
with_frame c l s panicked = panicked
with_frame c l s endless = endless

unfoldable pub round : SenderConfig → Link → Sender → Step Sender (Unit {0})
unfolding exchange peek
round c l s = with_frame c l s (peek s.wal)
