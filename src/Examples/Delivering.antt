-- ===== src/Examples/Delivering.antt =====
-- Runs of the sender with the receiver, and of the poller's loop.
use vm_sync.Base.{refl, arith, [], ◌∷◌, ◌++◌, length}
use vm_sync.Base.Maps
use vm_sync.Protocol.Bytes.{put_be}
use vm_sync.Wal.State.{Wal}
use vm_sync.Wal.Scan.{FrameIndex}
use vm_sync.Sender.Round.{Sender}
use vm_sync.Sender.AtLeastOnce.{Returns}
use vm_sync.Delivery.{answered, transfer, Delivered, transfer-Delivered}
use vm_sync.Poller.Pressure.{
  red, yellow, bp_normal, Tick, Loop, IsIdle, run_ticks, run_ticks-IsIdle,
}
use vm_sync.Receiver.Dealt.{Served, started}
use vm_sync.Receiver.Window.{dedup_hit}
use vm_sync.Examples.Frames.{copying, frame_bytes}
use vm_sync.Examples.Handler.{counting, new_receiver, good}
use vm_sync.Examples.Log.{two_frames}
use vm_sync.Examples.Sending.{sender, sender_config, poller, source}

-- A log with the frame 1 in its file.
abbrev entry_1 : FrameIndex
entry_1 = record { seg = 1; offset = 0; length = length (frame_bytes 1); seq = 1; typ = 1 }

abbrev one_frame : Wal
one_frame = record two_frames {
  index = entry_1 ∷ [];
  disk = record two_frames.disk {
    files = (1, put_be 4 (length (frame_bytes 1)) ++ frame_bytes 1) ∷ [];
    faults = [];
  };
}

abbrev full_sender : Sender
full_sender = record sender { wal = one_frame }

new_receiver-Served : Served counting copying new_receiver
unfolding dedup_hit Maps.get
new_receiver-Served = started {r' = new_receiver} (λ seq crc. refl)

transfer-Delivered_example :
    Returns
      (λ u.
        Delivered counting copying 0 good full_sender new_receiver u
          (transfer counting copying 0 good sender_config answered 5 full_sender new_receiver).1)
      (transfer counting copying 0 good sender_config answered 5 full_sender new_receiver).0
transfer-Delivered_example =
    transfer-Delivered counting copying 0 good sender_config answered 5 full_sender new_receiver
      (omega arith, tt) new_receiver-Served

abbrev full : Tick
full = record { band = red; clock = 7; source = source }

abbrev filling : Tick
filling = record { band = yellow; clock = 9; source = source }

abbrev loop : Loop
loop = record {
  poller = poller;
  state = bp_normal;
  paused_start = 0;
  paused_seconds = 0;
  skipped = 3;
}

run_ticks-IsIdle_example : IsIdle loop 2 (run_ticks copying (full ∷ filling ∷ []) loop)
run_ticks-IsIdle_example =
    run_ticks-IsIdle copying full (filling ∷ []) loop refl ((λ e. absurd (ground (arith, e))), tt)
