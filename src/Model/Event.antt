-- ===== src/Model/Event.antt =====
-- pkg/model/trace.go: the raw events of the eBPF program, and the names of their types.
use a.Prelude.{ℕ, if◌then◌else◌, ◌==◌}
use a.Golang.Slice.{Bytes}
use a.Golang.Text.{text}

pub record RawTraceEvent : Type 0 where
  pub timestamp : ℕ
  pub pid : ℕ
  pub tid : ℕ
  pub uid : ℕ
  pub gid : ℕ
  pub comm : Bytes
  pub event_type : ℕ
  pub protocol : ℕ
  pub s_addr : ℕ
  pub d_addr : ℕ
  pub s_port : ℕ
  pub d_port : ℕ
  pub duration_ns : ℕ
  -- an int32, as its bit pattern
  pub error_code : ℕ
  pub payload_size : ℕ
  pub payload : Bytes
  pub trace_id : Bytes
  pub span_id : Bytes
  pub parent_span_id : Bytes
  pub path : Bytes

-- `EventType`, a uint8
pub data EventType : Type 0 where
  connect accept send_to recv_from close : EventType
  unknown_event : ℕ → EventType

unfoldable pub event_type_of : ℕ → EventType
event_type_of n =
    if n == 0
    then connect
    else if n == 1
    then accept
    else if n == 2
    then send_to
    else if n == 3
    then recv_from
    else if n == 4
    then close
    else unknown_event n

unfoldable pub event_type_string : EventType → Bytes
event_type_string connect = text "connect"
event_type_string accept = text "accept"
event_type_string send_to = text "send"
event_type_string recv_from = text "recv"
event_type_string close = text "close"
event_type_string (unknown_event n) = text "unknown"

-- `Protocol`, a uint8
pub data Protocol : Type 0 where
  http grpc redis envoy unknown_protocol : Protocol

unfoldable pub protocol_of : ℕ → Protocol
protocol_of n =
    if n == 0
    then http
    else if n == 1
    then grpc
    else if n == 2
    then redis
    else if n == 3
    then envoy
    else unknown_protocol

unfoldable pub protocol_string : Protocol → Bytes
protocol_string http = text "http"
protocol_string grpc = text "grpc"
protocol_string redis = text "redis"
protocol_string envoy = text "envoy"
protocol_string unknown_protocol = text "unknown"
