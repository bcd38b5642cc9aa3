-- ===== src/Derive.antt =====
-- dashboard/backend/internal/derive/derive.go: the view models of the dashboard's frames.
pub mod Bands
pub mod Severity
pub mod Hysteresis
pub mod Bgp
pub mod State
pub mod Baselines
pub mod Views
pub mod Frames
pub mod Examples
