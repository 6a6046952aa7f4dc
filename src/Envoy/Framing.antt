-- ===== src/Envoy/Framing.antt =====
-- pkg/protocol/envoy.go: `ParseMultiple` against an independent description of the wire format.
pub mod Frame
pub mod Step
pub mod RoundTrip
pub mod Total
