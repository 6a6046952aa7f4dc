-- ===== src/Ebpf.antt =====
-- pkg/ebpf/tracer.go: the tracer, which reads raw events from the ring buffer.
pub mod Record
pub mod Layout
pub mod Padding
pub mod Tracer
pub mod Lifecycle
