-- ===== src/Storage/Row.antt =====
-- pkg/storage/clickhouse.go: the row that `doFlush` makes of a span.
use a.Prelude.{ℕ, ◌-◌, true, false, Option, ◌++◌, map, leb, if◌then◌else◌, length, take, replicate}
use a.Golang.Slice.{Bytes}
use a.Golang.Text.{text, decimal, join}
use a.Model.Span.{Span, Tags, TagValue}

-- `s[:length]`, or `s` and as many zero bytes as it lacks.
unfoldable pub pad_string : Bytes → ℕ → Bytes
pad_string s n = if leb n (length s) then take n s else s ++ replicate (n - length s) 0

unfoldable pub truncate : Bytes → ℕ → Bytes
truncate s max = if leb (length s) max then s else take max s

-- `%v` of a tag's value
unfoldable pub format_value : TagValue → Bytes
format_value (TagValue.num n) = decimal n
format_value (TagValue.flag true) = text "true"
format_value (TagValue.flag false) = text "false"
format_value (TagValue.str s) = s

-- `spanTagsToString`, in the order of the association list.
unfoldable pub span_tags_to_string : Tags → Bytes
span_tags_to_string tags =
    join (text ",") (map (λ kv. kv.0 ++ (text "=" ++ format_value kv.1)) tags)

-- The columns of the statement `INSERT INTO spans`.
pub record Row (F : Type 0) : Type 0 where
  pub timestamp : ℕ
  pub trace_id : Bytes
  pub span_id : Bytes
  pub parent_span_id : Bytes
  pub service_name : Bytes
  pub operation : Bytes
  pub protocol : Bytes
  pub event_type : Bytes
  pub start_time : ℕ
  pub end_time : ℕ
  pub duration_ms : F
  pub error_code : ℕ
  pub payload_size : ℕ
  pub payload : Bytes
  pub source_ip : Option Bytes
  pub dest_ip : Option Bytes
  pub source_port : ℕ
  pub dest_port : ℕ
  pub pid : ℕ
  pub comm : Bytes
  pub path : Bytes
  pub tags : Bytes

-- `parse_ip` is `net.ParseIP`.
unfoldable pub row_of : {F : Type 0} → (Bytes → Option Bytes) → Span F → Row F
row_of parse_ip span = record {
  timestamp = span.start_time;
  trace_id = pad_string span.trace_id 32;
  span_id = pad_string span.span_id 16;
  parent_span_id = pad_string span.parent_span_id 16;
  service_name = span.service_name;
  operation = span.operation;
  protocol = span.protocol;
  event_type = span.event_type;
  start_time = span.start_time;
  end_time = span.end_time;
  duration_ms = span.duration_ms;
  error_code = span.error_code;
  payload_size = span.payload_size;
  payload = truncate span.payload 1024;
  source_ip = parse_ip span.source_ip;
  dest_ip = parse_ip span.dest_ip;
  source_port = span.source_port;
  dest_port = span.dest_port;
  pid = span.pid;
  comm = span.comm;
  path = span.path;
  tags = span_tags_to_string span.tags;
}
