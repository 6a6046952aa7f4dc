-- ===== src/Model/Convert.antt =====
-- pkg/model/trace.go: `ConvertRawEventToSpan` and its helpers.
use a.Prelude.{ℕ, ◌+◌, ◌*◌, ◌/◌, ◌%◌, ◌^◌, [], ◌++◌, if◌then◌else◌, ltb, ◌-◌}
use a.Golang.Int.{pos}
use a.Golang.Float.{Float}
use a.Golang.Slice.{Bytes}
use a.Golang.Text.{text, bytes_eq, decimal}
use a.Model.Event.{RawTraceEvent, event_type_of, event_type_string, protocol_of, protocol_string}
use a.Model.Span.{Span}

-- `net.IPv4(...).String()` of the bytes, the lowest first
unfoldable pub int_to_ip : ℕ → Bytes
int_to_ip ip =
    let dot = text "." in
    decimal (ip % 256)
    ++ (dot
        ++ (decimal (ip / 2 ^ 8 % 256)
            ++ (dot ++ (decimal (ip / 2 ^ 16 % 256) ++ (dot ++ decimal (ip / 2 ^ 24 % 256))))))

unfoldable pub ntohs : ℕ → ℕ
ntohs port = port / 2 ^ 8 + port * 2 ^ 8 % 2 ^ 16

-- The nanoseconds from Go's zero time to the Unix epoch.
abbrev pub unix_epoch : ℕ
unix_epoch = 62135596800 * 10 ^ 9

-- `int64(n)` of a uint64 added to the epoch, in nanoseconds.
unfoldable pub unix_nano : ℕ → ℕ
unix_nano n = if ltb n (2 ^ 63) then unix_epoch + n else unix_epoch + n - 2 ^ 64

module _ (fl : Float) where
  open fl use {F, fdiv, of_int, lit}

  -- The two generators' results come as arguments. Adding a duration above 2^63 ns goes backwards.
  unfoldable pub convert_raw_event_to_span : Bytes → Bytes → RawTraceEvent → Span F
  unfolding bytes_eq
  convert_raw_event_to_span new_trace_id new_span_id raw =
      let start = unix_nano raw.timestamp in
      let duration = raw.duration_ns in
      record {
        trace_id = if bytes_eq raw.trace_id [] then new_trace_id else raw.trace_id;
        span_id = if bytes_eq raw.span_id [] then new_span_id else raw.span_id;
        parent_span_id = raw.parent_span_id;
        service_name = raw.comm;
        operation = event_type_string (event_type_of raw.event_type);
        protocol = protocol_string (protocol_of raw.protocol);
        event_type = event_type_string (event_type_of raw.event_type);
        start_time = start;
        end_time = if ltb duration (2 ^ 63) then start + duration else start + duration - 2 ^ 64;
        duration_ms = fdiv (of_int (pos duration)) (lit 1000000 0);
        error_code = raw.error_code;
        payload_size = raw.payload_size;
        payload = raw.payload;
        source_ip = int_to_ip raw.s_addr;
        dest_ip = int_to_ip raw.d_addr;
        source_port = ntohs raw.s_port;
        dest_port = ntohs raw.d_port;
        pid = raw.pid;
        comm = raw.comm;
        path = raw.path;
        tags = [];
      }
