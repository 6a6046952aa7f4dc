-- ===== src/Compression.antt =====
-- pkg/compression/compressor.go: the compressor of traces.
pub mod State
pub mod Signature
pub mod Cache
pub mod Spans
pub mod Similar
pub mod Depth
pub mod Marks
pub mod RoundTrip
