-- ===== src/Storage/Schema.antt =====
-- pkg/storage/clickhouse.go: `InitSchema`, on a driver that executes a statement.
use a.Prelude.{Bool, true, false, List, [], ◌∷◌, ◌++◌}
use a.Golang.Slice.{Bytes}
use a.Golang.Text.{text}

-- The statements, for a database of this name.
unfoldable pub schema : Bytes → List Bytes
schema database =
    (text "CREATE DATABASE IF NOT EXISTS " ++ database)
    ∷ (text "USE " ++ database)
    ∷ text
        "CREATE TABLE IF NOT EXISTS spans (\n\t\t\ttimestamp DateTime64(9),\n\t\t\ttrace_id FixedString(32),\n\t\t\tspan_id FixedString(16),\n\t\t\tparent_span_id FixedString(16),\n\t\t\tservice_name LowCardinality(String),\n\t\t\toperation String,\n\t\t\tprotocol LowCardinality(String),\n\t\t\tevent_type LowCardinality(String),\n\t\t\tstart_time DateTime64(9),\n\t\t\tend_time DateTime64(9),\n\t\t\tduration_ms Float64,\n\t\t\terror_code Int32,\n\t\t\tpayload_size UInt32,\n\t\t\tpayload String,\n\t\t\tsource_ip IPv4,\n\t\t\tdest_ip IPv4,\n\t\t\tsource_port UInt16,\n\t\t\tdest_port UInt16,\n\t\t\tpid UInt32,\n\t\t\tcomm String,\n\t\t\tpath String,\n\t\t\ttags String\n\t\t) ENGINE = MergeTree()\n\t\tPARTITION BY toYYYYMM(timestamp)\n\t\tORDER BY (timestamp, trace_id, span_id)\n\t\tTTL timestamp + INTERVAL 30 DAY\n\t\tSETTINGS index_granularity = 8192,\n\t\t         parts_to_delay_insert = 10000,\n\t\t         parts_to_throw_insert = 50000"
    ∷ []

module _ {Conn : Type 0} (exec : Bytes → Conn → Conn × Bool) where
  -- The loop over the statements, to the first that fails; whether all of them succeeded.
  unfoldable pub exec_all : List Bytes → Conn → Conn × Bool
  exec_all [] conn = (conn, true)
  exec_all (query ∷ queries) conn = elim (exec query conn).1 [
    | true ↦ exec_all queries (exec query conn).0
    | false ↦ ((exec query conn).0, false)
  ]

  -- `InitSchema`, and whether it returned nil.
  unfoldable pub init_schema : Bytes → Conn → Conn × Bool
  unfolding exec_all schema
  init_schema database conn = exec_all (schema database) conn
