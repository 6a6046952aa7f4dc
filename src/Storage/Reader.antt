-- ===== src/Storage/Reader.antt =====
-- pkg/storage/clickhouse.go: the queries of `ClickHouseStore`. The log is not modelled.
use mathlib.Core.Option
use a.Prelude.{ℕ, Bool, Option, none, some, List, [], ◌∷◌, if◌then◌else◌, length, map}
use a.Golang.Float.{Float}
use a.Golang.Int.{ℤ}
use a.Golang.Slice.{Bytes}
use a.Golang.Text.{Unicode}
use a.Model.Span.{Span}
use a.Model.Trace.{Trace, build_trace_tree}
use a.Storage.Query.{
  TraceQuery, Statement, traces_statement, trace_statement, services_statement,
  service_stats_statement, service_map_statement, parse_span_tags,
}
use a.Storage.Row.{Row}
use a.Storage.Writer.{ClickHouseStore}

-- What `rows.Next` and `rows.Scan` yield: each row, or that it cannot be scanned; and whether
-- `rows.Err` is nil behind the last.
pub record Rows (A : Type 0) : Type 0 where
  pub scanned : List (Option A)
  pub complete : Bool

-- The rows of `GetServiceStats` and `GetServiceMap`
pub record OperationStats (F : Type 0) : Type 0 where
  pub operation : Bytes
  pub protocol : Bytes
  pub call_count : ℕ
  pub error_count : ℕ
  pub avg_duration_ms : F
  pub p50_duration_ms : F
  pub p95_duration_ms : F
  pub p99_duration_ms : F

pub record Edge (F : Type 0) : Type 0 where
  pub source_service : Bytes
  pub dest_service : Bytes
  pub protocol : Bytes
  pub call_count : ℕ
  pub error_count : ℕ
  pub avg_duration_ms : F

pub record ServiceStats (F : Type 0) : Type 0 where
  pub service : Bytes
  pub operations : List (OperationStats F)
  pub start_time : ℤ
  pub end_time : ℤ

-- The reading side of the database driver, which is not part of the repository: `Query` with the
-- `Scan` of the columns that the statement selects; `none` is an error of `Query`.
pub record Reader (F : Type 0) : Type 1 where
  pub Conn : Type 0
  pub query_spans : Statement F → Conn → Conn × Option (Rows (Row F))
  pub query_texts : Statement F → Conn → Conn × Option (Rows Bytes)
  pub query_operations : Statement F → Conn → Conn × Option (Rows (OperationStats F))
  pub query_edges : Statement F → Conn → Conn × Option (Rows (Edge F))
  -- `net.IP.String`
  pub ip_string : Option Bytes → Bytes

-- The loop over the rows: all of them, or none where one cannot be scanned.
unfoldable pub scan_all : {A : Type 0} → List (Option A) → Option (List A)
scan_all [] = some []
scan_all (none ∷ rows) = none
scan_all (some row ∷ rows) = Option.map (◌∷◌ row) (scan_all rows)

-- The loop, and `rows.Err` behind it.
unfoldable pub read_rows : {A : Type 0} → Option (Rows A) → Option (List A)
unfolding scan_all
read_rows none = none
read_rows (some rows) = elim (scan_all rows.scanned) [
  | none ↦ none
  | some all ↦ if rows.complete then some all else none
]

module _ (fl : Float) (u : Unicode) (db : Reader fl.F) where
  open fl use {F}
  open db use {Conn, query_spans, query_texts, query_operations, query_edges, ip_string}

  -- The span of a row. The query does not select the timestamp, which equals the start.
  unfoldable pub span_of_row : Row F → Span F
  span_of_row row = record {
    trace_id = u.trim_space row.trace_id;
    span_id = u.trim_space row.span_id;
    parent_span_id = u.trim_space row.parent_span_id;
    service_name = row.service_name;
    operation = row.operation;
    protocol = row.protocol;
    event_type = row.event_type;
    start_time = row.start_time;
    end_time = row.end_time;
    duration_ms = row.duration_ms;
    error_code = row.error_code;
    payload_size = row.payload_size;
    payload = row.payload;
    source_ip = ip_string row.source_ip;
    dest_ip = ip_string row.dest_ip;
    source_port = row.source_port;
    dest_port = row.dest_port;
    pid = row.pid;
    comm = row.comm;
    path = row.path;
    tags = parse_span_tags row.tags;
  }

  -- `GetTraceByID`; `none` is an error, as where there is no row.
  unfoldable pub get_trace_by_id : Bytes → Conn → Conn × Option (Trace F)
  get_trace_by_id [] conn = (conn, none)
  get_trace_by_id (c ∷ trace_id) conn =
      let (conn', answer) = query_spans (trace_statement (c ∷ trace_id)) conn in
      (
        conn',
        elim (read_rows answer) [
          | none ↦ none
          | some rows ↦ build_trace_tree fl (map span_of_row rows)
        ],
      )

  -- The loop of `QueryTraces` over the identifiers: a trace that cannot be read is passed over.
  unfoldable pub read_traces : List Bytes → Conn → Conn × List (Trace F)
  read_traces [] conn = (conn, [])
  read_traces (trace_id ∷ rest) conn =
      let (conn1, found) = get_trace_by_id (u.trim_space trace_id) conn in
      let (conn2, traces) = read_traces rest conn1 in
      (conn2, elim found [ none ↦ traces | some trace ↦ trace ∷ traces ])

  -- `QueryTraces`
  unfoldable pub query_traces : TraceQuery F → Conn → Conn × Option (List (Trace F))
  query_traces q conn =
      let (conn', answer) = query_texts (traces_statement q) conn in
      elim (read_rows answer) [
        | none ↦ (conn', none)
        | some ids ↦ let (conn'', traces) = read_traces ids conn' in (conn'', some traces)
      ]

  -- `GetServices`
  unfoldable pub get_services : Conn → Conn × Option (List Bytes)
  get_services conn =
      let (conn', answer) = query_texts services_statement conn in (conn', read_rows answer)

  -- `GetServiceStats`
  unfoldable pub get_service_stats : Bytes → ℤ → ℤ → Conn → Conn × Option (ServiceStats F)
  get_service_stats service start end conn =
      let (conn', answer) = query_operations (service_stats_statement service start end) conn in
      (
        conn',
        Option.map
            (λ operations. record {
              service = service;
              operations = operations;
              start_time = start;
              end_time = end;
            })
            (read_rows answer),
      )

  -- `GetServiceMap`
  unfoldable pub get_service_map : ℤ → ℤ → Conn → Conn × Option (List (Edge F))
  get_service_map start end conn =
      let (conn', answer) = query_edges (service_map_statement start end) conn in
      (conn', read_rows answer)

-- `GetStats`
pub record ClickHouseStats : Type 0 where
  pub total_spans : ℕ
  pub flushed_batches : ℕ
  pub failed_batches : ℕ
  pub retried_batches : ℕ
  pub dropped_spans : ℕ
  pub queue_size : ℕ
  pub queue_capacity : ℕ

unfoldable pub get_stats : {F Conn : Type 0} → ClickHouseStore F Conn → ClickHouseStats
get_stats s = record {
  total_spans = s.stats.total_spans;
  flushed_batches = s.stats.flushed_batches;
  failed_batches = s.stats.failed_batches;
  retried_batches = s.stats.retried_batches;
  dropped_spans = s.stats.dropped_spans;
  queue_size = length s.write_queue;
  queue_capacity = s.queue_capacity;
}
