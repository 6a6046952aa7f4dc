-- ===== src/Ebpf/Padding.antt =====
-- pkg/ebpf/tracer.go: `parseRawEvent` of an event as bpf/network_trace.bpf.c lays it out. Its struct is
-- not packed: two bytes of padding are in front of the addresses, and five at the end.
use a.Prelude.{ℕ, ◌∷◌}
use a.Golang.Slice.{Bytes}
use a.Model.Event.{RawTraceEvent}
use a.Ebpf.Layout.{put_process, put_addresses}

-- `struct trace_event`, with the two bytes of padding and the bytes at its end.
abbrev pub padded : RawTraceEvent → ℕ → ℕ → Bytes → Bytes
padded e p q tail = put_process e (p ∷ q ∷ put_addresses e tail)
