-- ===== src/Vm.antt =====
-- internal/vm: the VictoriaMetrics client.
pub mod Http
pub mod Timestamps
pub mod Probe
