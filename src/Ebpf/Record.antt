-- ===== src/Ebpf/Record.antt =====
-- pkg/ebpf/tracer.go: `parseRawEvent`. `binary.Read` takes the fields of `RawTraceEvent` from the data
-- one behind the other, without padding; `unsafe.Sizeof` counts the padding.
use a.Prelude.{
  ℕ, zero, suc, ◌+◌, ◌*◌, Option, none, some, [], ◌∷◌, ltb, if◌then◌else◌, length, take, drop,
}
use a.Golang.Slice.{Bytes}
use a.Model.Event.{RawTraceEvent}

-- A little-endian number of some bytes, and what is behind it.
unfoldable pub little : ℕ → Bytes → ℕ
little zero bs = 0
little (suc w) [] = 0
little (suc w) (b ∷ bs) = b + 256 * little w bs

unfoldable pub read_uint : ℕ → Bytes → ℕ × Bytes
read_uint w bs = (little w bs, drop w bs)

-- A byte array.
unfoldable pub read_array : ℕ → Bytes → Bytes × Bytes
read_array n bs = (take n bs, drop n bs)

-- `binary.Read(..., binary.LittleEndian, &event)` of enough data
unfoldable pub read_event : Bytes → RawTraceEvent
read_event bs =
    let (timestamp, bs) = read_uint 8 bs in
    let (pid, bs) = read_uint 4 bs in
    let (tid, bs) = read_uint 4 bs in
    let (uid, bs) = read_uint 4 bs in
    let (gid, bs) = read_uint 4 bs in
    let (comm, bs) = read_array 16 bs in
    let (event_type, bs) = read_uint 1 bs in
    let (protocol, bs) = read_uint 1 bs in
    let (s_addr, bs) = read_uint 4 bs in
    let (d_addr, bs) = read_uint 4 bs in
    let (s_port, bs) = read_uint 2 bs in
    let (d_port, bs) = read_uint 2 bs in
    let (duration_ns, bs) = read_uint 8 bs in
    let (error_code, bs) = read_uint 4 bs in
    let (payload_size, bs) = read_uint 4 bs in
    let (payload, bs) = read_array 1024 bs in
    let (trace_id, bs) = read_array 33 bs in
    let (span_id, bs) = read_array 17 bs in
    let (parent_span_id, bs) = read_array 17 bs in
    let (path, bs) = read_array 256 bs in
    record {
      timestamp = timestamp;
      pid = pid;
      tid = tid;
      uid = uid;
      gid = gid;
      comm = comm;
      event_type = event_type;
      protocol = protocol;
      s_addr = s_addr;
      d_addr = d_addr;
      s_port = s_port;
      d_port = d_port;
      duration_ns = duration_ns;
      error_code = error_code;
      payload_size = payload_size;
      payload = payload;
      trace_id = trace_id;
      span_id = span_id;
      parent_span_id = parent_span_id;
      path = path;
    }

-- `unsafe.Sizeof(model.RawTraceEvent{})`: 1417 bytes, two of padding in front of `SAddr`, and five at
-- the end.
abbrev pub event_size : ℕ
event_size = 1424

-- `parseRawEvent`; `none` is an error.
unfoldable pub parse_raw_event : Bytes → Option RawTraceEvent
parse_raw_event bs = if ltb (length bs) event_size then none else some (read_event bs)
