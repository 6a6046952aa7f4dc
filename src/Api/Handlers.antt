-- ===== src/Api/Handlers.antt =====
-- pkg/api/server.go: the handlers that ask the store. Each takes the text of the error that a call of
-- it may return, and the store, which may be nil; a request's context and its timeout are left to the database driver.
use a.Prelude.{
  ℕ, suc, Bool, ◌-◌, ◌*◌, Option, none, some, List, [], ◌∷◌, ◌++◌, if◌then◌else◌, length,
}
use a.Golang.Float.{Float}
use a.Golang.Int.{ℤ, pos}
use a.Golang.Result.{Result, ok, panic}
use a.Golang.Slice.{Bytes}
use a.Golang.Text.{text, Unicode}
use a.Flame.Frame.{FlameFrame}
use a.Flame.Stats as FlameStats
use a.Model.Trace.{Trace}
use a.Model.Tree.{Tree}
use a.Sampling.Dynamic as Dynamic
use a.Storage.Query.{TraceQuery}
use a.Storage.Reader.{
  Reader, ServiceStats, Edge, get_trace_by_id, query_traces, get_services, get_service_stats,
  get_service_map,
}
use a.Storage.Writer.{ClickHouseStore}
use a.Api.Answer.{Response, reply, send, unix_milli, minus_ℕ, seconds, hour, time_of}
use a.Api.Reports.{OperationReport, CompressionReport}
use a.Api.System.{SystemStats}

-- The `Data` of the answers.
pub data Body (F : Type 0) : Type 0 where
  trace : Trace F → Body F
  traces : List (Trace F) → ℕ → ℤ → ℤ → Body F
  services : List Bytes → Body F
  service_stats : ServiceStats F → Body F
  service_map : List (Edge F) → Body F
  sampling : Dynamic.Stats F → Body F
  health : ℕ → ℕ → Body F
  system : SystemStats F → Body F
  flames : FlameStats.Stats F → List (Tree (FlameFrame F)) → Body F
  anomalies : List (OperationReport F) → ℕ → Body F
  compression : CompressionReport F → Body F

-- `TraceSearchRequest`
pub record TraceSearchRequest (F : Type 0) : Type 0 where
  pub service_name : Bytes
  pub start_time : ℤ
  pub end_time : ℤ
  pub min_latency_ms : F
  pub max_latency_ms : F
  pub protocol : Bytes
  pub trace_id : Bytes
  pub limit : ℤ
  pub offset : ℤ

-- A time that is given in milliseconds and positive, or the default.
unfoldable pub given_or : ℤ → ℤ → ℤ
unfolding unix_milli
given_or (pos (suc ms)) default = unix_milli (pos (suc ms))
given_or _ default = default

module _ (fl : Float) (u : Unicode) (db : Reader fl.F) (err : Bytes) where
  open fl use {F, flt, lit}
  open db use {Conn}

  -- A latency that is positive.
  abbrev positive : F → Option F
  positive x = if flt (lit 0 0) x then some x else none

  -- The query of a search; the two times are those of the clock.
  unfoldable pub query_of : TraceSearchRequest F → ℕ → ℕ → TraceQuery F
  unfolding given_or
  query_of req now later = record {
    trace_id = req.trace_id;
    service_name = req.service_name;
    start_time = some (given_or req.start_time (minus_ℕ now (24 * hour)));
    end_time = some (given_or req.end_time (pos later));
    min_latency_ms = positive req.min_latency_ms;
    max_latency_ms = positive req.max_latency_ms;
    protocol = req.protocol;
    limit = req.limit;
    offset = req.offset;
  }

  -- Whether encoding/json takes the data of an answer.
  module _ (encodes : Body F → Bool) where
    -- A call of the store with what it leaves and finds, and the answer for that. On a store that is
    -- nil it is a panic.
    unfoldable pub ask :
        {A : Type 0}
        → Option (ClickHouseStore F Conn)
        → Conn
        → Conn × Option A
        → (Option A → Response (Body F))
        → Conn × Result (Response (Body F))
    ask none conn (conn', found) answer = (conn, panic)
    ask (some store) conn (conn', found) answer = (conn', ok (answer found))

    unfoldable pub get_trace :
        Option (ClickHouseStore F Conn) → Bytes → Conn → Conn × Result (Response (Body F))
    unfolding ask
    get_trace store [] conn = (conn, ok (reply 400 400 (text "traceId is required") none))
    get_trace store (c ∷ trace_id) conn =
        ask store conn (get_trace_by_id fl u db (c ∷ trace_id) conn) λ found. elim found [
          | none ↦ reply 404 404 (text "Trace not found: " ++ err) none
          | some t ↦ send encodes 200 200 (text "success") (trace t)
        ]

    -- `none` is a request that `ShouldBindQuery` refuses.
    unfoldable pub search_traces :
        Option (ClickHouseStore F Conn)
        → Option (TraceSearchRequest F)
        → ℕ
        → ℕ
        → Conn
        → Conn × Result (Response (Body F))
    unfolding ask
    search_traces store none now later conn =
        (conn, ok (reply 400 400 (text "Invalid request: " ++ err) none))
    search_traces store (some req) now later conn =
        ask store conn (query_traces fl u db (query_of req now later) conn) λ found. elim found [
          | none ↦ reply 500 500 (text "Query failed: " ++ err) none
          | some ts ↦
              send encodes 200 200 (text "success") (traces ts (length ts) req.limit req.offset)
        ]

    unfoldable pub list_services :
        Option (ClickHouseStore F Conn) → Conn → Conn × Result (Response (Body F))
    unfolding ask
    list_services store conn = ask store conn (get_services fl u db conn) λ found. elim found [
      | none ↦ reply 500 500 (text "Failed to get services: " ++ err) none
      | some names ↦ send encodes 200 200 (text "success") (services names)
    ]

    unfoldable pub list_service_stats :
        Option (ClickHouseStore F Conn)
        → Bytes
        → Option Bytes
        → Option Bytes
        → ℕ
        → ℕ
        → Conn
        → Conn × Result (Response (Body F))
    unfolding ask
    list_service_stats store [] start end now later conn =
        (conn, ok (reply 400 400 (text "service name is required") none))
    list_service_stats store (c ∷ name) start end now later conn =
        ask store conn
          (get_service_stats fl u db (c ∷ name) (time_of start (now - hour)) (time_of end later)
            conn)
          λ found. elim found [
            | none ↦ reply 500 500 (text "Failed to get service stats: " ++ err) none
            | some stats ↦ send encodes 200 200 (text "success") (service_stats stats)
          ]

    unfoldable pub list_service_map :
        Option (ClickHouseStore F Conn)
        → Option Bytes
        → Option Bytes
        → ℕ
        → ℕ
        → Conn
        → Conn × Result (Response (Body F))
    unfolding ask
    list_service_map store start end now later conn =
        ask store conn
          (get_service_map fl u db (time_of start (now - hour)) (time_of end later) conn)
          λ found. elim found [
            | none ↦ reply 500 500 (text "Failed to get service map: " ++ err) none
            | some edges ↦ send encodes 200 200 (text "success") (service_map edges)
          ]

    unfoldable pub health_check :
        Option (ClickHouseStore F Conn) → ℕ → Conn → Conn × Result (Response (Body F))
    unfolding ask
    health_check store now conn = ask store conn (get_services fl u db conn) λ found. elim found [
      | none ↦ reply 503 503 (text "ClickHouse not healthy: " ++ err) none
      | some names ↦ send encodes 200 200 (text "healthy") (health (length names) (seconds now))
    ]
