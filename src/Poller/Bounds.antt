-- ===== src/Poller/Bounds.antt =====
-- windowSize and windowEnd of internal/sender/poller.go: the bounds of a window.
use vm_sync.Base.{
  ℕ, zero, suc, ◌+◌, ◌*◌, ◌/◌, ◌^◌, ◌≤◌, ◌<◌, ◌≡◌, arith, Bool, true, false, ◌&&◌, if◌then◌else◌,
  ltb, ◌==◌,
}
use vm_sync.Base.Int.{ℤ, pos, ◌+ℤ◌, ◌-ℤ◌, ltb_ℤ, ◌≤ℤ◌, int_laws, +ℤ_parts, -ℤ_parts}
use native.Mathlib.Nat.{pow-suc}
use vm_sync.Poller.Window.{
  PollerConfig, Streaks, with_defaults, shrink, grow, window_size, window_end, max_end, lesser,
  milliseconds, millisecond, oversize_min_window, empty_skip_max_window,
  default_export_visibility_lag,
}

abbrev halved : ℕ → ℕ
halved w = if ltb (w / 2) oversize_min_window then oversize_min_window else w / 2

shrink_le : (n w : ℕ) → shrink n w ≤ w
unfolding shrink
shrink_le zero w = omega arith
shrink_le (suc n) w = ground (arith, shrink_le n (halved w))

shrink_floor : (n w : ℕ) → oversize_min_window ≤ w → oversize_min_window ≤ shrink n w
unfolding shrink
shrink_floor zero w h = h
shrink_floor (suc n) w h = ground (arith, h, shrink_floor n (halved w) (ground arith))

-- With a round for each halving the window comes down to the floor.
shrink_reaches :
    (n w : ℕ)
    → oversize_min_window ≤ w
    → w < oversize_min_window * 2 ^ n + 1
    → shrink n w ≡ oversize_min_window
unfolding shrink
shrink_reaches zero w h l = omega (arith, h, l)
shrink_reaches (suc n) w h l =
    ground (arith, h, shrink_reaches n (halved w) (ground arith) (ground (arith, l, pow-suc 2 n)))

grow_floor : (n limit w : ℕ) → w ≤ grow n limit w
unfolding grow
grow_floor zero limit w = omega arith
grow_floor (suc n) limit w = ground (arith, grow_floor n limit (w * 2))

-- While lines are too long for a frame the window is at most the configured one; otherwise it is at
-- most an hour when every query was empty, and at most the configured maximum when not. In both
-- cases it is at least a millisecond if the configured window and maximum are.
pub window_size-bounds :
    (c : PollerConfig) (s : Streaks)
    → millisecond ≤ c.window
    → millisecond ≤ c.max_window
    → (window_size c s ≤ (
        if ltb 0 s.oversize
        then c.window
        else if s.all_empty
        then empty_skip_max_window
        else c.max_window))
      × (millisecond ≤ window_size c s)
unfolding window_size
window_size-bounds c s w m = ground (
  arith,
  w,
  m,
  shrink_le s.oversize c.window,
  shrink_floor s.oversize c.window w,
  grow_floor s.underfill (if s.all_empty then empty_skip_max_window else c.max_window) c.window,
)

-- A window of at most 2^n milliseconds is down to one millisecond after n rounds in a row with a
-- line that is too long.
pub window_size-shrinks :
    (c : PollerConfig) (s : Streaks)
    → millisecond ≤ c.window
    → c.window ≤ millisecond * 2 ^ s.oversize
    → 0 < s.oversize
    → window_size c s ≡ millisecond
unfolding window_size
window_size-shrinks c s w small some_rounds =
    ground (arith, some_rounds, shrink_reaches s.oversize c.window w (omega (arith, small)))

lesser_le : (a b : ℤ) → lesser a b ≤ℤ b
lesser_le a b = ground arith

clamped :
    (b : Bool) (cursor width end top : ℤ)
    → end ≤ℤ top
    → (if b && ltb_ℤ width (end -ℤ cursor) then cursor +ℤ width else end) ≤ℤ top
clamped b cursor width end top h = ground (arith, h, +ℤ_parts cursor width, -ℤ_parts end cursor)

window_end_le :
    (c : PollerConfig) (s : Streaks) (cursor now : ℤ) (flush_ok : Bool)
    → window_end c s cursor now flush_ok ≤ℤ max_end c now flush_ok
unfolding window_end
window_end_le c s cursor now flush_ok =
    clamped (s.underfill == 0) cursor (milliseconds c.max_window)
      (lesser (cursor +ℤ milliseconds (window_size c s)) (max_end c now flush_ok))
      (max_end c now flush_ok)
      (lesser_le (cursor +ℤ milliseconds (window_size c s)) (max_end c now flush_ok))

back : (end now d : ℤ) → end ≤ℤ now -ℤ d → end +ℤ d ≤ℤ now
back end now d h = omega (int_laws, h)

max_end_watermark :
    (c : PollerConfig) (now : ℤ) (flush_ok : Bool)
    → max_end c now flush_ok ≤ℤ now -ℤ milliseconds c.watermark
unfolding max_end
max_end_watermark c now flush_ok = ground arith

max_end_lag : (c : PollerConfig) (now : ℤ) → max_end c now false ≤ℤ now -ℤ milliseconds c.export_lag
unfolding max_end
max_end_lag c now = ground arith

lag_floor : (c : PollerConfig) → default_export_visibility_lag ≤ (with_defaults c).export_lag
unfolding with_defaults
lag_floor c = ground arith

≤ℤ_trans : (a b c : ℤ) → a ≤ℤ b → b ≤ℤ c → a ≤ℤ c
≤ℤ_trans a b c h k = omega (int_laws, h, k)

less_back : (now d : ℤ) (n : ℕ) → pos n ≤ℤ d → now -ℤ d ≤ℤ now -ℤ pos n
less_back now d n h = omega (int_laws, h)

-- Whatever the streaks are, the end of a window stays behind the present by the watermark, and by 15
-- seconds at least when the source has not been flushed.
pub window_end-settled :
    (c : PollerConfig) (s : Streaks) (cursor now : ℤ) (flush_ok : Bool)
    → (window_end (with_defaults c) s cursor now flush_ok
          +ℤ milliseconds (with_defaults c).watermark
        ≤ℤ now)
      × (window_end (with_defaults c) s cursor now flush_ok +ℤ pos (if flush_ok then 0 else 15000)
          ≤ℤ now)
window_end-settled c s cursor now flush_ok = (
  back end now (milliseconds d.watermark) to_watermark,
  back end now (pos (if flush_ok then 0 else 15000)) (to_lag flush_ok),
)
  where
    d : PollerConfig
    d = with_defaults c

    end : ℤ
    end = window_end d s cursor now flush_ok

    to_watermark : end ≤ℤ now -ℤ milliseconds d.watermark
    to_watermark =
        ≤ℤ_trans end (max_end d now flush_ok) (now -ℤ milliseconds d.watermark)
          (window_end_le d s cursor now flush_ok) (max_end_watermark d now flush_ok)

    to_lag : (f : Bool) → window_end d s cursor now f ≤ℤ now -ℤ pos (if f then 0 else 15000)
    to_lag true =
        ≤ℤ_trans (window_end d s cursor now true) (now -ℤ milliseconds d.watermark) (now -ℤ pos 0)
          (≤ℤ_trans (window_end d s cursor now true) (max_end d now true)
            (now -ℤ milliseconds d.watermark) (window_end_le d s cursor now true)
            (max_end_watermark d now true))
          (less_back now (milliseconds d.watermark) 0 (omega arith))
    to_lag false =
        ≤ℤ_trans (window_end d s cursor now false) (max_end d now false) (now -ℤ pos 15000)
          (window_end_le d s cursor now false)
          (≤ℤ_trans (max_end d now false) (now -ℤ milliseconds d.export_lag) (now -ℤ pos 15000)
            (max_end_lag d now)
            (less_back now (milliseconds d.export_lag) 15000 (omega (arith, lag_floor c))))
