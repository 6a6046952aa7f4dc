-- ===== src/Correlator.antt =====
-- pkg/trace/correlator.go: `Correlator`, which matches responses with requests.
pub mod Payload
pub mod State
pub mod Handlers
pub mod Expiry
pub mod Keys
pub mod Flows
pub mod Queues
pub mod History
pub mod Matching
