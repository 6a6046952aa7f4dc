-- ===== src/Anomaly.antt =====
-- pkg/anomaly/anomaly.go: the detector of slow operations.
pub mod State
pub mod Detector
pub mod Sends
pub mod Cooldown
pub mod Agreement
