-- ===== src/Correlator/State.antt =====
-- pkg/trace/correlator.go: the state of a `Correlator`. Spans are shared by pointers, so they live in
-- a store and are named by their place in it. A call of a handler is one step.
use a.Prelude.{
  ℕ, zero, suc, ◌*◌, ◌^◌, Bool, true, false, not, none, some, List, [], ◌∷◌, ◌++◌, get_elem?,
  if◌then◌else◌, length,
}
use a.Golang.Counter.{add_u64}
use a.Golang.Slice.{Bytes}
use a.Golang.Text.{bytes_eq}
use a.Model.Span.{Span}
use a.Correlator.Payload.{trace_id_text}

-- `PendingRequest`; its event and protocol are never read.
pub record PendingRequest : Type 0 where
  pub span : ℕ
  pub timestamp : ℕ

-- `inflightRequest`; its event and protocol are never read.
pub record InflightRequest : Type 0 where
  pub span : ℕ
  pub send_time : ℕ
  pub seq : ℕ

-- `ConnectionFlow`; a time of 0 is Go's zero time.
pub record ConnectionFlow : Type 0 where
  pub pid : ℕ
  pub source_ip : Bytes
  pub dest_ip : Bytes
  pub source_port : ℕ
  pub dest_port : ℕ
  pub last_send : ℕ
  pub last_recv : ℕ
  pub inflight_reqs : List InflightRequest
  pub seq_counter : ℕ

pub record CorrelatorStats : Type 0 where
  pub total_events : ℕ
  pub processed_spans : ℕ
  pub dropped_events : ℕ
  pub inflight_requests : ℕ
  pub active_connections : ℕ

-- `handled` names the spans given to `spanHandler`, in order; the handler keeps the pointer.
pub record Correlator (F : Type 0) : Type 0 where
  pub spans : List (Span F)
  pub handled : List ℕ
  pub pending_requests : List PendingRequest
  pub connections : List (Bytes × ConnectionFlow)
  pub timeout : ℕ
  pub max_inflight : ℕ
  pub has_handler : Bool
  pub stats : CorrelatorStats

-- What the clock and the generator of identifiers give in a call.
pub record Env : Type 0 where
  pub flow_time : ℕ
  pub request_time : ℕ
  pub match_time : ℕ
  pub pending_time : ℕ
  pub new_span_id : Bytes

module _ {F : Type 0} where
  -- `NewCorrelator`, and `SetSpanHandler`
  unfoldable pub new_correlator : Correlator F
  new_correlator = record {
    spans = [];
    handled = [];
    pending_requests = [];
    connections = [];
    timeout = 30 * 10 ^ 9;
    max_inflight = 1000;
    has_handler = false;
    stats = record {
      total_events = 0;
      processed_spans = 0;
      dropped_events = 0;
      inflight_requests = 0;
      active_connections = 0;
    };
  }

  abbrev pub set_span_handler : Correlator F → Correlator F
  set_span_handler c = record c { has_handler = true }

  -- A write through a pointer.
  unfoldable pub modify : (Span F → Span F) → ℕ → List (Span F) → List (Span F)
  modify f i [] = []
  modify f zero (s ∷ ss) = f s ∷ ss
  modify f (suc i) (s ∷ ss) = s ∷ modify f i ss

  abbrev pub update_span : (Span F → Span F) → ℕ → Correlator F → Correlator F
  update_span f i c = record c { spans = modify f i c.spans }

  -- `span.TraceID != ""`
  unfoldable pub has_trace : ℕ → Correlator F → Bool
  has_trace i c = elim (get_elem? c.spans i) [
    | none ↦ false
    | some span ↦ not (bytes_eq span.trace_id [])
  ]

  -- The handler is called on some spans, and as many are counted.
  abbrev pub handle_spans : List ℕ → Correlator F → Correlator F
  handle_spans refs c =
      if c.has_handler
      then record c {
        handled = c.handled ++ refs;
        stats = record c.stats { processed_spans = add_u64 c.stats.processed_spans (length refs) };
      }
      else c

  -- A span without a trace gets the identifiers that are made of it. `digest` is the hexadecimal
  -- form of the first 16 bytes of the SHA-256 sum.
  unfoldable pub ensure_trace : (Bytes → Bytes) → Bytes → ℕ → Correlator F → Correlator F
  ensure_trace digest new_span_id i c =
      if has_trace i c
      then c
      else update_span
          (λ span. record span { trace_id = digest (trace_id_text span); span_id = new_span_id }) i
          c

  -- A flow without requests for a span's endpoints.
  abbrev pub new_flow : Span F → ConnectionFlow
  new_flow span = record {
    pid = span.pid;
    source_ip = span.source_ip;
    dest_ip = span.dest_ip;
    source_port = span.source_port;
    dest_port = span.dest_port;
    last_send = 0;
    last_recv = 0;
    inflight_reqs = [];
    seq_counter = 0;
  }
