-- ===== src/Storage/Query.antt =====
-- pkg/storage/clickhouse.go: the statements of the read side, and what becomes of their rows. A
-- query's context and its timeout are left to the driver.
use a.Prelude.{zero, suc, Option, none, some, List, [], ◌∷◌, ◌++◌, if◌then◌else◌}
use a.Golang.Int.{ℤ, pos, negsuc}
use a.Golang.Slice.{Bytes}
use a.Golang.Split.{cut, split_at}
use a.Golang.Text.{text, bytes_eq}
use a.Model.Span.{Tags, TagValue, insert_tag}
use a.Storage.Row.{pad_string}

-- `TraceQuery` of pkg/model/trace.go
pub record TraceQuery (F : Type 0) : Type 0 where
  pub trace_id : Bytes
  pub service_name : Bytes
  pub start_time : Option ℤ
  pub end_time : Option ℤ
  pub min_latency_ms : Option F
  pub max_latency_ms : Option F
  pub protocol : Bytes
  pub limit : ℤ
  pub offset : ℤ

-- An argument of a statement. A time is in nanoseconds since Go's zero time, and may be before it.
pub data Arg (F : Type 0) : Type 0 where
  text_arg : Bytes → Arg F
  time_arg : ℤ → Arg F
  float_arg : F → Arg F
  int_arg : ℤ → Arg F

-- The text of a statement with a `?` for each of its arguments.
pub record Statement (F : Type 0) : Type 0 where
  pub sql : Bytes
  pub args : List (Arg F)

module _ {F : Type 0} where
  -- `builder.WriteString(part)` and `args = append(args, arg)`
  unfoldable pub add_condition : Bytes → Arg F → Statement F → Statement F
  add_condition part arg s = record { sql = s.sql ++ part; args = s.args ++ (arg ∷ []) }

  -- The same where a text is not empty, a pointer is not nil, or a number is positive.
  unfoldable pub if_text : Bytes → Bytes → Arg F → Statement F → Statement F
  unfolding add_condition
  if_text value part arg s = if bytes_eq value [] then s else add_condition part arg s

  unfoldable pub if_some : {A : Type 0} → Option A → Bytes → (A → Arg F) → Statement F → Statement F
  unfolding add_condition
  if_some none part arg s = s
  if_some (some value) part arg s = add_condition part (arg value) s

  unfoldable pub if_positive : ℤ → Bytes → Statement F → Statement F
  unfolding add_condition
  if_positive (pos zero) part s = s
  if_positive (pos (suc n)) part s = add_condition part (int_arg (pos (suc n))) s
  if_positive (negsuc n) part s = s

  unfoldable pub add_text : Bytes → Statement F → Statement F
  add_text part s = record s { sql = s.sql ++ part }

  -- The statement of `QueryTraces`
  unfoldable pub traces_statement : TraceQuery F → Statement F
  unfolding if_text if_some if_positive add_text
  traces_statement q =
      let s0 : Statement F = record {
        sql = text "SELECT DISTINCT trace_id FROM spans WHERE 1=1";
        args = [];
      } in
      let s1 = if_text q.service_name (text " AND service_name = ?") (text_arg q.service_name) s0 in
      let s2 = if_some q.start_time (text " AND start_time >= ?") time_arg s1 in
      let s3 = if_some q.end_time (text " AND start_time <= ?") time_arg s2 in
      let s4 = if_some q.min_latency_ms (text " AND duration_ms >= ?") float_arg s3 in
      let s5 = if_some q.max_latency_ms (text " AND duration_ms <= ?") float_arg s4 in
      let s6 = if_text q.protocol (text " AND protocol = ?") (text_arg q.protocol) s5 in
      let s7 =
        if_text q.trace_id (text " AND trace_id = ?") (text_arg (pad_string q.trace_id 32)) s6 in
      let s8 = add_text (text " ORDER BY start_time DESC") s7 in
      let s9 = if_positive q.limit (text " LIMIT ?") s8 in
      if_positive q.offset (text " OFFSET ?") s9

  -- The statements of `GetTraceByID`, `GetServices`, `GetServiceStats` and `GetServiceMap`
  unfoldable pub trace_statement : Bytes → Statement F
  trace_statement trace_id = record {
    sql =
        text
          "SELECT \n\t\ttrace_id, span_id, parent_span_id, service_name, operation,\n\t\tprotocol, event_type, start_time, end_time, duration_ms, error_code,\n\t\tpayload_size, payload, source_ip, dest_ip, source_port, dest_port,\n\t\tpid, comm, path, tags\n\tFROM spans \n\tWHERE trace_id = ? \n\tORDER BY start_time ASC";
    args = text_arg (pad_string trace_id 32) ∷ [];
  }

  unfoldable pub services_statement : Statement F
  services_statement = record {
    sql = text "SELECT DISTINCT service_name FROM spans ORDER BY service_name";
    args = [];
  }

  unfoldable pub service_stats_statement : Bytes → ℤ → ℤ → Statement F
  service_stats_statement service start end = record {
    sql =
        text
          "SELECT\n\t\toperation,\n\t\tprotocol,\n\t\tcount() as call_count,\n\t\tcountIf(error_code != 0 AND error_code >= 400) as error_count,\n\t\tavg(duration_ms) as avg_duration,\n\t\tquantile(0.5)(duration_ms) as p50,\n\t\tquantile(0.95)(duration_ms) as p95,\n\t\tquantile(0.99)(duration_ms) as p99\n\tFROM spans\n\tWHERE service_name = ? AND start_time >= ? AND start_time <= ?\n\tGROUP BY operation, protocol\n\tORDER BY call_count DESC";
    args = text_arg service ∷ time_arg start ∷ time_arg end ∷ [];
  }

  unfoldable pub service_map_statement : ℤ → ℤ → Statement F
  service_map_statement start end = record {
    sql =
        text
          "SELECT\n\t\ts1.service_name as source_service,\n\t\ts2.service_name as dest_service,\n\t\ts1.protocol,\n\t\tcount() as call_count,\n\t\tcountIf(s1.error_code != 0 AND s1.error_code >= 400) as error_count,\n\t\tavg(s1.duration_ms) as avg_duration\n\tFROM spans s1\n\tINNER JOIN spans s2 ON s1.trace_id = s2.trace_id AND s1.parent_span_id = s2.span_id\n\tWHERE s1.start_time >= ? AND s1.start_time <= ? AND s1.parent_span_id != ''\n\tGROUP BY source_service, dest_service, s1.protocol";
    args = time_arg start ∷ time_arg end ∷ [];
  }

-- The loop of `parseSpanTags` over the parts.
unfoldable pub read_tags : List Bytes → Tags → Tags
read_tags [] tags = tags
read_tags (part ∷ parts) tags = elim (cut (text "=") part) [
  | none ↦ read_tags parts tags
  | some (key, value) ↦ read_tags parts (insert_tag key (TagValue.str value) tags)
]

-- `parseSpanTags`
unfoldable pub parse_span_tags : Bytes → Tags
parse_span_tags s = if bytes_eq s [] then [] else read_tags (split_at b',' s) []
