-- ===== src/Poller/Window.antt =====
-- NewPoller, windowSize and windowEnd of internal/sender/poller.go. Durations are nanoseconds, times
-- are milliseconds.
use vm_sync.Base.{or_default, ℕ, zero, suc, ◌*◌, ◌/◌, ◌^◌, Bool, ◌&&◌, if◌then◌else◌, ltb, ◌==◌}
use vm_sync.Base.Int.{ℤ, pos, ◌+ℤ◌, ◌-ℤ◌, ltb_ℤ}
use vm_sync.Protocol.Frame.{type_data_zstd}

abbrev pub millisecond : ℕ
millisecond = 10 ^ 6

abbrev pub seconds : ℕ → ℕ
seconds n = n * 10 ^ 9

-- A field of PollerConfig that is not positive stands for its default, so 0 stands for all of them.
pub record PollerConfig : Type 0 where
  pub interval : ℕ
  pub window : ℕ
  pub watermark : ℕ
  pub max_window : ℕ
  pub frame_lines : ℕ
  pub frame_bytes : ℕ
  pub window_target : ℕ
  pub export_lag : ℕ
  pub compression : ℕ

abbrev pub default_export_visibility_lag : ℕ
default_export_visibility_lag = seconds 15

abbrev pub empty_skip_max_window : ℕ
empty_skip_max_window = seconds 3600

abbrev pub oversize_min_window : ℕ
oversize_min_window = millisecond

unfoldable pub with_defaults : PollerConfig → PollerConfig
with_defaults c =
    let frame_bytes = or_default c.frame_bytes (512 * 1024) in
    let watermark = or_default c.watermark (seconds 1) in
    let lag =
      if ltb c.export_lag default_export_visibility_lag
      then default_export_visibility_lag
      else c.export_lag in
    record {
      interval = or_default c.interval (500 * millisecond);
      window = or_default c.window (seconds 5);
      watermark = watermark;
      max_window = or_default c.max_window (seconds 30);
      frame_lines = or_default c.frame_lines 5000;
      frame_bytes = frame_bytes;
      window_target = or_default c.window_target (frame_bytes * 4);
      export_lag = if ltb lag watermark then watermark else lag;
      compression = or_default c.compression type_data_zstd;
    }

-- The streaks of the Poller.
pub record Streaks : Type 0 where
  pub underfill : ℕ
  pub all_empty : Bool
  pub oversize : ℕ

-- The loop that halves the window.
unfoldable pub shrink : ℕ → ℕ → ℕ
shrink zero w = w
shrink (suc n) w =
    let half = w / 2 in
    let next = if ltb half oversize_min_window then oversize_min_window else half in
    let rest = shrink n next in if ltb oversize_min_window w then rest else w

-- The loop that doubles it while it is below the limit.
unfoldable pub grow : ℕ → ℕ → ℕ → ℕ
grow zero limit w = w
grow (suc n) limit w = let rest = grow n limit (w * 2) in if ltb w limit then rest else w

unfoldable pub window_size : PollerConfig → Streaks → ℕ
unfolding shrink grow
window_size c s =
    let limit = if s.all_empty then empty_skip_max_window else c.max_window in
    let w = grow s.underfill limit c.window in
    if ltb 0 s.oversize then shrink s.oversize c.window else if ltb limit w then limit else w

-- Duration.Milliseconds
abbrev pub milliseconds : ℕ → ℤ
milliseconds d = pos (d / millisecond)

abbrev pub lesser : ℤ → ℤ → ℤ
lesser a b = if ltb_ℤ b a then b else a

unfoldable pub max_end : PollerConfig → ℤ → Bool → ℤ
max_end c now flush_ok =
    let settled = now -ℤ milliseconds c.watermark in
    if flush_ok then settled else lesser settled (now -ℤ milliseconds c.export_lag)

unfoldable pub window_end : PollerConfig → Streaks → ℤ → ℤ → Bool → ℤ
unfolding window_size max_end
window_end c s cursor now flush_ok =
    let end = lesser (cursor +ℤ milliseconds (window_size c s)) (max_end c now flush_ok) in
    if s.underfill == 0 && ltb_ℤ (milliseconds c.max_window) (end -ℤ cursor)
    then cursor +ℤ milliseconds c.max_window
    else end
