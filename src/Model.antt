-- ===== src/Model.antt =====
-- pkg/model/trace.go: events, spans and their conversion.
pub mod Span
pub mod Event
pub mod Convert
pub mod Trace
pub mod Tree
