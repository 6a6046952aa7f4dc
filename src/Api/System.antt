-- ===== src/Api/System.antt =====
-- pkg/api/server.go: the report of `getSystemStats`.
use a.Prelude.{
  ℕ, ◌*◌, ◌/◌, ◌%◌, ◌^◌, Bool, Option, none, some, List, [], ◌∷◌, ◌++◌, ltb, if◌then◌else◌,
}
use a.Golang.Counter.{add_u64}
use a.Golang.Float.{Float}
use a.Golang.Int.{pos}
use a.Golang.Slice.{Bytes}
use a.Golang.Text.{text, decimal}
use a.Correlator.State.{CorrelatorStats}
use a.Ebpf.Tracer.{BpfStats}
use a.Sampling.Dynamic as Dynamic
use a.Storage.Reader.{ClickHouseStats}

-- The map `stats`, with the rates of each part beside its counters.
pub record SystemStats (F : Type 0) : Type 0 where
  pub ebpf : Option (BpfStats × F)
  pub correlator : Option (CorrelatorStats × F)
  pub clickhouse : Option (ClickHouseStats × F × F)
  pub sampling : Option (Dynamic.Stats F)
  pub alerts : List Bytes
  pub warnings : List Bytes
  pub timestamp : ℕ

-- A list with a text more if a test holds.
abbrev pub warn_if : Bool → Bytes → List Bytes → List Bytes
warn_if test message texts = if test then texts ++ (message ∷ []) else texts

unfoldable pub ebpf_alerts : Option BpfStats → List Bytes
ebpf_alerts none = []
ebpf_alerts (some s) =
    warn_if (ltb 100 s.events_dropped)
      (text "High eBPF event drop: " ++ (decimal s.events_dropped ++ text " events")) []

unfoldable pub ebpf_warnings : Option BpfStats → List Bytes
ebpf_warnings none = []
ebpf_warnings (some s) =
    warn_if (ltb 500000 s.connections) (text "High connection count: " ++ decimal s.connections) []

-- `chStats.QueueCapacity*8/10`, whose product wraps.
abbrev pub high_mark : ℕ → ℕ
high_mark capacity = capacity * 8 % 2 ^ 64 / 10

unfoldable pub store_alerts : Option ClickHouseStats → List Bytes → List Bytes
store_alerts none alerts = alerts
store_alerts (some s) alerts =
    warn_if (ltb 10 s.failed_batches)
      (text "High batch failures: " ++ (decimal s.failed_batches ++ text " batches"))
      (warn_if (ltb (high_mark s.queue_capacity) s.queue_size)
        (text "Write queue almost full: "
          ++ (decimal s.queue_size ++ (text "/" ++ decimal s.queue_capacity)))
        alerts)

module _ (fl : Float) where
  open fl use {F, fmul, fdiv, of_int, lit}

  -- `float64(part) / float64(total) * 100`
  abbrev pub percent_of : ℕ → ℕ → F
  percent_of part total = fmul (fdiv (of_int (pos part)) (of_int (pos total))) (lit 100 0)

  -- The same, or 0 where the total is.
  abbrev pub drop_rate : ℕ → ℕ → F
  drop_rate dropped total = if ltb 0 total then percent_of dropped total else lit 0 0

  unfoldable pub ebpf_entry : Option BpfStats → Option (BpfStats × F)
  ebpf_entry none = none
  ebpf_entry (some s) =
      some (s, drop_rate (add_u64 s.events_dropped s.ringbuf_dropped) s.events_total)

  unfoldable pub correlator_entry : Option CorrelatorStats → Option (CorrelatorStats × F)
  correlator_entry none = none
  correlator_entry (some s) = some (s, drop_rate s.dropped_events s.total_events)

  unfoldable pub store_entry : Option ClickHouseStats → Option (ClickHouseStats × F × F)
  store_entry none = none
  store_entry (some s) =
      some (s, drop_rate s.dropped_spans s.total_spans, percent_of s.queue_size s.queue_capacity)

  -- What `getSystemStats` reports of the statistics of each part that is not nil.
  unfoldable pub system_stats :
      Option BpfStats
      → Option CorrelatorStats
      → Option ClickHouseStats
      → Option (Dynamic.Stats F)
      → ℕ
      → SystemStats F
  unfolding ebpf_alerts ebpf_warnings store_alerts ebpf_entry correlator_entry store_entry
  system_stats bpf corr store sampling now = record {
    ebpf = ebpf_entry bpf;
    correlator = correlator_entry corr;
    clickhouse = store_entry store;
    sampling = sampling;
    alerts = store_alerts store (ebpf_alerts bpf);
    warnings = ebpf_warnings bpf;
    timestamp = now;
  }
