-- ===== src/Config/Settings.antt =====
-- internal/config/config.go: the settings of the sender, their validation, and what the modules are
-- given. Texts are their bytes; the reading of the YAML file is a library's.
use vm_sync.Base.{
  ℕ, ◌*◌, Bool, true, ◌&&◌, ◌||◌, not, List, [], ◌∷◌, codes, trim_space, if◌then◌else◌,
}
use vm_sync.Base.Int.{ℤ, pos, pos_part, ltb_ℤ}
use vm_sync.Protocol.Frame.{type_data, type_data_zstd}
use vm_sync.Poller.Window.{PollerConfig, seconds, millisecond, default_export_visibility_lag}
use vm_sync.Sender.Backoff.{SenderConfig}
use vm_sync.Transport.Client.{ClientConfig}
use vm_sync.Config.Durations.{TimeTexts, is_empty, parse_duration_ext, dur, is_nonneg, validate_dur}
use vm_sync.Config.Sizes.{same_text}

-- The parts of SenderConfig that the code reads here.
pub record SenderSettings : Type 0 where
  pub source_url : List ℕ
  pub interval : List ℕ
  pub window : List ℕ
  pub watermark : List ℕ
  pub max_window : List ℕ
  pub frame_lines : ℤ
  pub frame_bytes : ℤ
  pub window_target : ℤ
  pub export_lag : List ℕ
  pub backfill : List ℕ
  pub wal_path : List ℕ
  pub tcp_addr : List ℕ
  pub tcp_timeout : List ℕ
  pub tcp_dial_timeout : List ℕ
  pub compression : List ℕ
  pub max_retry : ℤ
  pub backoff_base : List ℕ
  pub backoff_max : List ℕ
  pub heartbeat_interval : List ℕ
  pub pipeline : ℤ

-- os.Getenv for the sender's variables; an unset one is empty.
pub record SenderEnv : Type 0 where
  pub source_url : List ℕ
  pub tcp_addr : List ℕ
  pub wal_path : List ℕ

abbrev pub override : List ℕ → List ℕ → List ℕ
override v old = if is_empty v then old else v

-- The overrides but for the monitor's address and the log level.
unfoldable pub apply_sender_env : SenderEnv → SenderSettings → SenderSettings
apply_sender_env env c = record c {
  source_url = override env.source_url c.source_url;
  tcp_addr = override env.tcp_addr c.tcp_addr;
  wal_path = override env.wal_path c.wal_path;
}

abbrev pub all_of : (List ℕ → Bool) → List (List ℕ) → Bool
all_of test [] = true
all_of test (s ∷ ss) = test s && all_of test ss

unfoldable pub compression_frame_type : SenderSettings → ℕ
compression_frame_type c =
    if same_text c.compression (codes "gzip") then type_data else type_data_zstd

module _ (t : TimeTexts) where
  -- The texts that are looked at in any order.
  abbrev pub durations_of : SenderSettings → List (List ℕ)
  durations_of c =
      c.interval ∷ c.window ∷ c.watermark ∷ c.max_window ∷ c.export_lag ∷ c.tcp_timeout
      ∷ c.tcp_dial_timeout ∷ c.backoff_base ∷ c.backoff_max ∷ c.heartbeat_interval ∷ []

  -- The check of sync.backfill in Validate.
  unfoldable pub check_backfill : List ℕ → Bool
  check_backfill s =
      let b = trim_space s in
      if is_empty b || same_text b (codes "all") || same_text b (codes "0")
      then true
      else is_nonneg (parse_duration_ext t b)

  unfoldable pub validate_backfill : List ℕ → Bool
  validate_backfill s =
      let b = trim_space s in
      if is_empty b
        || same_text b (codes "all")
        || same_text b (codes "0")
        || same_text b (codes "0s")
      then true
      else is_nonneg (parse_duration_ext t b)

  unfoldable pub validate_sender : SenderSettings → Bool
  unfolding validate_dur check_backfill
  validate_sender c =
      not (is_empty c.source_url)
      && not (is_empty c.tcp_addr)
      && not (is_empty c.wal_path)
      && all_of (validate_dur t) (durations_of c)
      && not (ltb_ℤ c.pipeline (pos 0))
      && not (ltb_ℤ c.window_target (pos 0))
      && (is_empty c.compression
          || same_text c.compression (codes "zstd")
          || same_text c.compression (codes "gzip"))
      && check_backfill c.backfill

  -- What is not positive stands for the default in the modules, so it is 0 there.
  abbrev pub dur_part : List ℕ → ℕ → ℕ
  dur_part s def = pos_part (dur t s (pos def))

  unfoldable pub poller_config : SenderSettings → PollerConfig
  unfolding dur compression_frame_type
  poller_config c = record {
    interval = dur_part c.interval (500 * millisecond);
    window = dur_part c.window (seconds 5);
    watermark = dur_part c.watermark (seconds 1);
    max_window = dur_part c.max_window (seconds 30);
    frame_lines = pos_part c.frame_lines;
    frame_bytes = pos_part c.frame_bytes;
    window_target = pos_part c.window_target;
    export_lag = dur_part c.export_lag 0;
    compression = compression_frame_type c;
  }

  unfoldable pub watermark_duration : SenderSettings → ℤ
  unfolding dur
  watermark_duration c = dur t c.watermark (pos (seconds 1))

  abbrev pub max_ℤ : ℤ → ℤ → ℤ
  max_ℤ a b = if ltb_ℤ a b then b else a

  unfoldable pub effective_export_lag : SenderSettings → ℤ
  unfolding watermark_duration dur
  effective_export_lag c =
      max_ℤ (max_ℤ (watermark_duration c) (dur t c.export_lag (pos 0)))
        (pos default_export_visibility_lag)

  -- IdleSleep is left to its default.
  unfoldable pub sender_loop_config : SenderSettings → SenderConfig
  unfolding dur
  sender_loop_config c = record {
    max_retry = pos_part c.max_retry;
    backoff_base = dur_part c.backoff_base (seconds 1);
    backoff_max = dur_part c.backoff_max (seconds 60);
    heartbeat_interval = dur_part c.heartbeat_interval (seconds 30);
    idle_sleep = 0;
    pipeline = pos_part c.pipeline;
  }

  unfoldable pub client_config : SenderSettings → ClientConfig
  unfolding dur
  client_config c = record {
    addr = c.tcp_addr;
    timeout = dur_part c.tcp_timeout (seconds 10);
    dial_timeout = dur_part c.tcp_dial_timeout (seconds 10);
  }
