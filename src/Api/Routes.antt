-- ===== src/Api/Routes.antt =====
-- pkg/api/server.go: `registerRoutes`, with the handlers that only read the other parts, and
-- `corsMiddleware`. Matching a path and a method to a route is gin's, and answering with the metrics
-- is promhttp's; a panic of a handler is left to it as well.
use mathlib.Core.Option
use a.Prelude.{ℕ, Bool, Option, none, some, List, if◌then◌else◌, length, map}
use a.Golang.Float.{Float}
use a.Golang.Result.{Result, ok, panic}
use a.Golang.Slice.{Bytes}
use a.Golang.Text.{text, bytes_eq, Unicode}
use a.Anomaly.State.{LatencyStats, OperationKey}
use a.Compression.State.{Compressor}
use a.Correlator.State.{Correlator}
use a.Ebpf.Tracer.{Tracer}
use a.Ebpf.Tracer as Ebpf
use a.Model.Span.{Span}
use a.Model.Tree.{Tree, Sorter}
use a.Sampling.Dynamic.{DynamicSampler}
use a.Sampling.Dynamic as Dynamic
use a.Storage.Reader.{Reader}
use a.Storage.Reader as Storage
use a.Storage.Writer.{ClickHouseStore}
use a.Api.Answer.{Response, reply, send, bare, seconds}
use a.Api.Handlers.{
  Body, sampling, system, anomalies, compression, TraceSearchRequest, get_trace, search_traces,
  list_services, list_service_stats, list_service_map, health_check,
}
use a.Api.Flames.{get_flame_graph}
use a.Api.Reports.{operation_report, compression_report}
use a.Api.System.{system_stats}

-- The parts that the server reads; `none` is nil. Of the anomaly detector it reads the statistics of
-- every operation, in the order in which a `range` visits them.
pub record Server (F Conn : Type 0) : Type 0 where
  pub store : Option (ClickHouseStore F Conn)
  pub sampler : Option (DynamicSampler F)
  pub tracer : Option Tracer
  pub correlator : Option (Correlator F)
  pub anomaly_stats : Option (List (OperationKey × LatencyStats F))
  pub compressor : Option (Compressor F)

pub data Route : Type 0 where
  trace_route flamegraph_route traces_route services_route service_stats_route service_map_route :
      Route
  sampling_route anomaly_route compression_route health_route system_route metrics_route : Route
  no_route : Route

-- What a request brings, and the two times at which its handler reads the clock.
pub record Request (F : Type 0) : Type 0 where
  pub method : Bytes
  pub route : Route
  pub trace_id : Bytes
  pub name : Bytes
  pub start_time : Option Bytes
  pub end_time : Option Bytes
  pub format : Option Bytes
  pub width : Option Bytes
  pub search : Option (TraceSearchRequest F)
  pub now : ℕ
  pub later : ℕ

module _ (fl : Float) where
  open fl use {F}

  module _ (encodes : Body F → Bool) where
    unfoldable pub get_sampling_stats : Option (DynamicSampler F) → Result (Response (Body F))
    get_sampling_stats none = panic
    get_sampling_stats (some s) =
        ok (send encodes 200 200 (text "success") (sampling (Dynamic.stats fl s)))

    unfoldable pub get_anomaly_stats :
        Option (List (OperationKey × LatencyStats F)) → Response (Body F)
    unfolding operation_report
    get_anomaly_stats none = reply 200 200 (text "anomaly detection disabled") none
    get_anomaly_stats (some all) =
        send encodes 200 200 (text "success")
          (anomalies (map (operation_report fl) all) (length all))

    unfoldable pub get_compression_stats : Option (Compressor F) → Response (Body F)
    unfolding compression_report
    get_compression_stats none = reply 200 200 (text "compression disabled") none
    get_compression_stats (some c) =
        send encodes 200 200 (text "success")
          (compression (compression_report fl c.stats c.signature_cache))

    unfoldable pub get_system_stats : {Conn : Type 0} → Server F Conn → ℕ → Response (Body F)
    unfolding system_stats
    get_system_stats s now = send encodes 200 200 (text "success") (
        system (
          system_stats fl (Option.map Ebpf.get_stats s.tracer)
            (Option.map (λ c. c.stats) s.correlator) (Option.map Storage.get_stats s.store)
            (Option.map (Dynamic.stats fl) s.sampler) (seconds now)))

    -- `metrics` is what the handler of promhttp answers.
    module _ (u : Unicode) (db : Reader F) (sorter : Sorter) (err : Bytes)
        (metrics : Request F → Result (Response (Body F)))
        (get_trace_tree : Bytes → db.Conn → db.Conn × Option (Option (Tree (Span F)))) where
      open db use {Conn}

      -- The handler of each route, on the connection of the store.
      unfoldable pub dispatch : Server F Conn → Request F → Conn → Conn × Result (Response (Body F))
      dispatch s req conn = elim req.route [
        | trace_route ↦ get_trace fl u db err encodes s.store req.trace_id conn
        | flamegraph_route ↦
            get_flame_graph fl sorter err encodes get_trace_tree req.trace_id req.format req.width
              conn
        | traces_route ↦ search_traces fl u db err encodes s.store req.search req.now req.later conn
        | services_route ↦ list_services fl u db err encodes s.store conn
        | service_stats_route ↦
            list_service_stats fl u db err encodes s.store req.name req.start_time req.end_time
              req.now req.later conn
        | service_map_route ↦
            list_service_map fl u db err encodes s.store req.start_time req.end_time req.now
              req.later conn
        | sampling_route ↦ (conn, get_sampling_stats s.sampler)
        | anomaly_route ↦ (conn, ok (get_anomaly_stats s.anomaly_stats))
        | compression_route ↦ (conn, ok (get_compression_stats s.compressor))
        | health_route ↦ health_check fl u db err encodes s.store req.now conn
        | system_route ↦ (conn, ok (get_system_stats s req.now))
        | metrics_route ↦ (conn, metrics req)
        | no_route ↦ (conn, ok (reply 404 404 (text "Not Found") none))
      ]

      -- `corsMiddleware` in front of the handler.
      unfoldable pub serve : Server F Conn → Request F → Conn → Conn × Result (Response (Body F))
      serve s req conn =
          if bytes_eq req.method (text "OPTIONS")
          then (conn, ok (bare 204))
          else dispatch s req conn
