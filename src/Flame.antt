-- ===== src/Flame.antt =====
-- pkg/flamegraph/flamegraph.go: the flame graph of a trace.
pub mod Frame
pub mod Folded
pub mod Depth
pub mod Conversion
pub mod Stats
pub mod HotSpots
pub mod Color
pub mod Svg
pub mod Drawn
