-- ===== src/Api/Status.antt =====
-- pkg/api/server.go: the statuses of all answers.
use a.Prelude.{
  ◌≡◌, refl, ◌⊎◌, Bool, true, false, not, Option, none, some, inl, inr, List, [], Bool-cases,
  if◌then◌else◌,
}
use a.Golang.Float.{Float}
use a.Golang.Result.{Result, ok, err, panic}
use a.Golang.Slice.{Bytes}
use a.Golang.Text.{text, bytes_eq, Unicode}
use a.Anomaly.State.{LatencyStats, OperationKey}
use a.Compression.State.{Compressor}
use a.Model.Span.{Span}
use a.Model.Tree.{Tree, Sorter}
use a.Sampling.Dynamic.{DynamicSampler}
use a.Storage.Reader.{Reader}
use a.Api.Answer.{Response, bare}
use a.Api.Handlers.{Body}
use a.Api.Routes.{
  Server, Route, trace_route, flamegraph_route, traces_route, services_route, service_stats_route,
  service_map_route, sampling_route, anomaly_route, compression_route, health_route, system_route,
  metrics_route, no_route, Request, get_sampling_stats, get_anomaly_stats, get_compression_stats,
  get_system_stats, dispatch, serve,
}
use a.Api.Agrees.{
  Agrees, AgreesUnless, is_bound, send-Agrees, get_trace-Agrees, search_traces-Agrees,
  list_services-Agrees, list_service_stats-Agrees, list_service_map-Agrees, health_check-Agrees,
  get_flame_graph-Agrees,
}

-- Whether the handler of a request calls the store. What `GetTraceTree` does is not known.
abbrev pub asks_store : {F : Type 0} → Request F → Bool
asks_store req = elim req.route [
  | trace_route ↦ not (bytes_eq req.trace_id [])
  | traces_route ↦ is_bound req.search
  | services_route ↦ true
  | service_stats_route ↦ not (bytes_eq req.name [])
  | service_map_route ↦ true
  | health_route ↦ true
  | flamegraph_route ↦ false
  | sampling_route ↦ false
  | anomaly_route ↦ false
  | compression_route ↦ false
  | system_route ↦ false
  | metrics_route ↦ false
  | no_route ↦ false
]

-- Where a handler panics: drawing a flame graph, reading the statistics of no sampler, or a call of no
-- store.
abbrev pub MayPanic : {F Conn : Type 0} → Server F Conn → Request F → Type 0
MayPanic s req =
    (req.route ≡ flamegraph_route)
    ⊎ (((req.route ≡ sampling_route) × (s.sampler ≡ none))
        ⊎ ((asks_store req ≡ true) × (s.store ≡ none)))

given : {B P : Type 0} (r : Result (Response B)) → P → AgreesUnless (Unit {0}) r → AgreesUnless P r
given (ok r) p h = h
given err p h = h
given panic p h = p

-- Whether a request is for the metrics.
abbrev pub is_metrics : Route → Bool
is_metrics metrics_route = true
is_metrics _ = false

-- What a request is answered: a preflight has its own answer, and the metrics are given.
abbrev pub Serves :
    {F Conn : Type 0}
    → (Request F → Result (Response (Body F)))
    → Server F Conn
    → Request F
    → Conn
    → Conn × Result (Response (Body F))
    → Type 0
Serves metrics s req conn answer =
    if bytes_eq req.method (text "OPTIONS")
    then answer ≡ (conn, ok (bare 204))
    else if is_metrics req.route
    then answer ≡ (conn, metrics req)
    else AgreesUnless (MayPanic s req) answer.1

module _ (fl : Float) (encodes : Body fl.F → Bool) where
  open fl use {F}

  sampling-Agrees :
      (sampler : Option (DynamicSampler F)) {P : Type 0}
      → (sampler ≡ none → P)
      → AgreesUnless P (get_sampling_stats fl encodes sampler)
  unfolding get_sampling_stats
  sampling-Agrees none p = p refl
  sampling-Agrees (some s) p = send-Agrees encodes _ _

  anomaly-Agrees :
      (all : Option (List (OperationKey × LatencyStats F)))
      → Agrees (get_anomaly_stats fl encodes all)
  unfolding get_anomaly_stats
  anomaly-Agrees none = refl
  anomaly-Agrees (some all) = send-Agrees encodes _ _

  compression-Agrees : (c : Option (Compressor F)) → Agrees (get_compression_stats fl encodes c)
  unfolding get_compression_stats
  compression-Agrees none = refl
  compression-Agrees (some c) = send-Agrees encodes _ _

module _ (fl : Float) (encodes : Body fl.F → Bool) (u : Unicode) (db : Reader fl.F)
    (sorter : Sorter) (error : Bytes) (metrics : Request fl.F → Result (Response (Body fl.F)))
    (get_trace_tree : Bytes → db.Conn → db.Conn × Option (Option (Tree (Span fl.F)))) where
  open fl use {F}
  open db use {Conn}

  on_route :
      (route : Route) (s : Server F Conn) (req : Request F) (conn : Conn)
      → req.route ≡ route
      → (let answer = dispatch fl encodes u db sorter error metrics get_trace_tree s req conn in
          if is_metrics route
          then answer ≡ (conn, metrics req)
          else AgreesUnless (MayPanic s req) answer.1)
  unfolding dispatch get_system_stats
  on_route trace_route s req conn e =
      rw (e, dispatch)
        (get_trace-Agrees fl u db error encodes s.store req.trace_id conn
          λ asks nil. inr (inr (asks, nil)))
  on_route flamegraph_route s req conn e =
      rw (e, dispatch)
        (given _ (inl refl) (
          get_flame_graph-Agrees fl sorter error encodes get_trace_tree req.trace_id req.format
            req.width conn))
  on_route traces_route s req conn e =
      rw (e, dispatch)
        (search_traces-Agrees fl u db error encodes s.store req.search req.now req.later conn
          λ asks nil. inr (inr (asks, nil)))
  on_route services_route s req conn e =
      rw (e, dispatch)
        (list_services-Agrees fl u db error encodes s.store conn λ nil. inr (inr (refl, nil)))
  on_route service_stats_route s req conn e =
      rw (e, dispatch)
        (list_service_stats-Agrees fl u db error encodes s.store req.name req.start_time
          req.end_time req.now req.later conn λ asks nil. inr (inr (asks, nil)))
  on_route service_map_route s req conn e =
      rw (e, dispatch)
        (list_service_map-Agrees fl u db error encodes s.store req.start_time req.end_time req.now
          req.later conn λ nil. inr (inr (refl, nil)))
  on_route sampling_route s req conn e =
      rw (e, dispatch) (sampling-Agrees fl encodes s.sampler (λ f. inr (inl (refl, f))))
  on_route anomaly_route s req conn e = rw (e, dispatch) (anomaly-Agrees fl encodes s.anomaly_stats)
  on_route compression_route s req conn e =
      rw (e, dispatch) (compression-Agrees fl encodes s.compressor)
  on_route health_route s req conn e =
      rw (e, dispatch)
        (health_check-Agrees fl u db error encodes s.store req.now conn
          λ nil. inr (inr (refl, nil)))
  on_route system_route s req conn e = rw (e, dispatch) (send-Agrees encodes _ _)
  on_route metrics_route s req conn e = simp (e, dispatch)
  on_route no_route s req conn e = rw (e, dispatch) refl

  -- Every request is answered: a request with the method OPTIONS gets 204 without a body, and one for
  -- the metrics what promhttp answers, both with nothing asked of the store. Of every other request
  -- the code in a JSON answer is the status it is sent with, and a graph, or an answer whose data JSON
  -- cannot encode, is sent with 200. A handler panics at most where it draws a flame graph, reads the
  -- statistics of a sampler that is nil, or has to ask a store that is nil, which it does not for an
  -- empty trace id, an empty name of a service, or a search that is refused.
  pub serve-AgreesUnless :
      (s : Server F Conn) (req : Request F) (conn : Conn)
      → Serves metrics s req conn
          (serve fl encodes u db sorter error metrics get_trace_tree s req conn)
  unfolding serve
  serve-AgreesUnless s req conn = elim (Bool-cases (bytes_eq req.method (text "OPTIONS"))) [
    | inl e ↦ rw (e, serve) refl
    | inr e ↦ rw (e, serve) (on_route req.route s req conn refl)
  ]
