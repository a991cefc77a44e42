-- ===== src/Examples/Starting.antt =====
-- Runs of internal/config and of the start of cmd/sender.
use vm_sync.Base.{◌*◌, ◌^◌, ◌≡◌, refl, [], none, some, codes, trim_space, is_digit, if◌then◌else◌}
use vm_sync.Base.Int.{pos}
use vm_sync.Wal.Outcome.{Ends}
use vm_sync.Poller.Window.{with_defaults}
use vm_sync.Config.Durations.{TimeTexts, parse_duration_ext}
use vm_sync.Config.Sizes.{same_text}
use vm_sync.Config.Settings.{SenderSettings, poller_config, effective_export_lag, check_backfill}
use vm_sync.Config.Lag.{effective_export_lag-with_defaults}
use vm_sync.Config.Backfill.{backfill_all, of_mode, backfill_spec}
use vm_sync.Config.Accepted.{Meaning, check_backfill-Meaning}
use vm_sync.Startup.Backfilling.{backfill_init, probe_loop}
use vm_sync.Startup.Started.{IsFromOldest, IsHalfway, backfill_init-all}
use vm_sync.Wal.State.{Wal}
use vm_sync.Examples.Log.{two_frames}

-- Two texts that ParseDuration reads.
abbrev times : TimeTexts
times = record {
  parse_duration = λ s.
      if same_text s (codes "0s")
      then some (pos 0)
      else if same_text s (codes "0h")
      then some (pos 0)
      else if same_text s (codes "20s")
      then some (pos (20 * 10 ^ 9))
      else none;
  day_hours = λ num. some num;
}

abbrev settings : SenderSettings
settings = record {
  source_url = codes "http://a";
  interval = [];
  window = [];
  watermark = codes "20s";
  max_window = [];
  frame_lines = pos 0;
  frame_bytes = pos 0;
  window_target = pos 0;
  export_lag = codes "0s";
  backfill = codes " 0d";
  wal_path = codes "wal";
  tcp_addr = codes "b:1";
  tcp_timeout = [];
  tcp_dial_timeout = [];
  compression = [];
  max_retry = pos 0;
  backoff_base = [];
  backoff_max = [];
  heartbeat_interval = [];
  pipeline = pos 1;
}

effective_export_lag-with_defaults_example :
    effective_export_lag times settings
    ≡ pos (with_defaults (poller_config times settings)).export_lag
effective_export_lag-with_defaults_example = effective_export_lag-with_defaults times settings

check_backfill-Meaning_example :
    Meaning times (trim_space (codes " 0d")) (backfill_spec times (codes " 0d"))
unfolding check_backfill trim_space parse_duration_ext is_digit
check_backfill-Meaning_example = check_backfill-Meaning times (codes " 0d") refl

abbrev calm_log : Wal
calm_log = record two_frames { disk = record two_frames.disk { faults = [] } }

backfill_init-all_example :
    Ends
      (λ _.
        IsFromOldest 1
          (of_mode backfill_all)
          (λ n. some (pos 300))
          (pos 1000)
          (pos 9000)
          calm_log
          (some 300))
      (IsHalfway 1
        (of_mode backfill_all)
        (λ n. some (pos 300))
        (pos 1000)
        (pos 9000)
        calm_log
        (some 300))
      (backfill_init 1 (of_mode backfill_all) (λ n. some (pos 300)) (pos 1000) (pos 9000) calm_log)
unfolding probe_loop
backfill_init-all_example =
    backfill_init-all 1 (of_mode backfill_all) (λ n. some (pos 300)) (pos 1000) (pos 9000) calm_log
      (some 300) refl refl refl refl
