-- ===== src/Envoy.antt =====
-- pkg/protocol/envoy.go: the Envoy sidecar framing.
pub mod Message
pub mod Parser
pub mod Header
pub mod Panics
pub mod Framing
