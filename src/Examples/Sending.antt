-- ===== src/Examples/Sending.antt =====
-- Runs of internal/sender.
use vm_sync.Base.{ℕ, ◌*◌, ◌^◌, arith, List, [], ◌∷◌, true, false, none, some, split}
use vm_sync.Base.Int.{pos, ◌+ℤ◌, ◌≤ℤ◌}
use vm_sync.Poller.Window.{PollerConfig, Streaks, with_defaults, window_end, milliseconds, seconds}
use vm_sync.Poller.Bounds.{window_end-settled}
use vm_sync.Poller.Split.{newline, split_frames}
use vm_sync.Poller.Groups.{Packed, filled}
use vm_sync.Poller.Packed.{split_frames-Packed}
use vm_sync.Poller.Once.{Poller, Source}
use vm_sync.Sender.Backoff.{SenderConfig}
use vm_sync.Sender.Round.{Sender, Link, round}
use vm_sync.Sender.AtLeastOnce.{Returns, Progress, round-Progress}
use vm_sync.Examples.Log.{two_frames}

abbrev poller_config : PollerConfig
poller_config = record {
  interval = 0;
  window = seconds 5;
  watermark = 0;
  max_window = seconds 30;
  frame_lines = 0;
  frame_bytes = 0;
  window_target = 0;
  export_lag = 0;
  compression = 0;
}

abbrev long_lines : Streaks
long_lines = record { underfill = 0; all_empty = false; oversize = 13 }

window_end-settled_example :
    (window_end (with_defaults poller_config) long_lines (pos 1000) (pos 90000) false
        +ℤ milliseconds (with_defaults poller_config).watermark
      ≤ℤ pos 90000)
    × (window_end (with_defaults poller_config) long_lines (pos 1000) (pos 90000) false +ℤ pos 15000
        ≤ℤ pos 90000)
window_end-settled_example =
    window_end-settled poller_config long_lines (pos 1000) (pos 90000) false

-- Two lines, and an empty one between them.
abbrev response : List ℕ
response = 97 ∷ 98 ∷ 10 ∷ 10 ∷ 99 ∷ 10 ∷ []

split_frames-Packed_example :
    Packed 10 3 (filled (split newline response)) (split_frames response 10 3)
split_frames-Packed_example = split_frames-Packed response 10 3

abbrev pub sender_config : SenderConfig
sender_config = record {
  max_retry = 10;
  backoff_base = 10 ^ 9;
  backoff_max = 60 * 10 ^ 9;
  heartbeat_interval = 30 * 10 ^ 9;
  idle_sleep = 200 * 10 ^ 6;
  pipeline = 1;
}

abbrev pub sender : Sender
sender = record { wal = two_frames; retry_count = 0; cache = none; answered = [] }

abbrev link : Link
link = record { connected = true; sent = true; ack = some 255; now = 5 }

round-Progress_example : Returns (Progress sender) (round sender_config link sender)
round-Progress_example = round-Progress sender_config link sender (omega arith, (omega arith, tt))

-- A poller over the log with two frames, whose source answers with two lines.
abbrev pub poller : Poller
poller = record {
  cfg = with_defaults poller_config;
  wal = two_frames;
  streaks = long_lines;
  prefetch = none;
}

abbrev pub source : Source
source = record {
  now = pos 90000;
  clock = 5;
  flushed = true;
  cancelled = false;
  export = λ from to. some response;
}

-- The same over a disk without a fault, where the round moves the cursor.
abbrev calm_poller : Poller
calm_poller = record poller {
  wal = record two_frames { disk = record two_frames.disk { faults = [] } };
}
