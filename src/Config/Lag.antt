-- ===== src/Config/Lag.antt =====
-- The distance to the present that config.go computes and the one that poller.go keeps.
use vm_sync.Base.{◌≡◌, arith}
use vm_sync.Base.Int.{pos}
use vm_sync.Poller.Window.{with_defaults}
use vm_sync.Config.Durations.{TimeTexts}
use vm_sync.Config.Settings.{
  SenderSettings, poller_config, watermark_duration, effective_export_lag,
}

-- EffectiveExportLag is the distance that NewPoller makes of the same settings, whatever they are:
-- a watermark that is zero or negative has a default in one place only, which the floor of 15 seconds
-- hides.
pub effective_export_lag-with_defaults :
    (t : TimeTexts) (c : SenderSettings)
    → effective_export_lag t c ≡ pos (with_defaults (poller_config t c)).export_lag
unfolding effective_export_lag watermark_duration with_defaults poller_config
effective_export_lag-with_defaults t c = ground arith
