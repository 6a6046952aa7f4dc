-- ===== src/Correlator/History.antt =====
-- pkg/trace/correlator.go: what holds behind any sequence of events and cleanups.
use a.Prelude.{ℕ, ◌<◌, refl, true, ◌&&◌, List, [], ◌∷◌, arith}
use a.Golang.Dict.Every.{Every}
use a.Golang.Float.{Float}
use a.Golang.Slice.{Bytes}
use a.Golang.Text.{text}
use a.Model.Event.{
  RawTraceEvent, EventType, event_type_of, connect, accept, send_to, recv_from, close,
  unknown_event,
}
use a.Model.Span.{Span}
use a.Correlator.Expiry.{is_expired, expire_requests, expire_flows, cleanup_expired}
use a.Correlator.Flows.{IsFlow}
use a.Correlator.Handlers.{handle_event, finish_event, process_event}
use a.Correlator.Queues.{
  IsCorrelator, if-IsCorrelator, handle_spans-IsCorrelator, ensure_trace-IsCorrelator,
  handle_connect-IsCorrelator, handle_send-IsCorrelator, handle_recv-IsCorrelator,
  handle_close-IsCorrelator, try_correlate-IsCorrelator, end_flow-IsCorrelator,
}
use a.Correlator.State.{
  PendingRequest, ConnectionFlow, Correlator, Env, has_trace, new_correlator, set_span_handler,
}

module _ (fl : Float) (max : ℕ) (positive : 0 < max) where
  open fl use {F}

  abbrev IsC : Correlator F → Type 0
  IsC = IsCorrelator fl max positive

  handle_event-IsCorrelator :
      (digest : Bytes → Bytes) (ref : ℕ) (span : Span F) (event : RawTraceEvent) (key : Bytes)
      (env : Env) (type : EventType) (c : Correlator F)
      → IsC c
      → IsC (handle_event fl digest ref span event key env type c)
  unfolding handle_event
  handle_event-IsCorrelator digest ref span event key env connect c h =
      handle_connect-IsCorrelator fl max positive span key c h
  handle_event-IsCorrelator digest ref span event key env accept c h =
      handle_connect-IsCorrelator fl max positive span key c h
  handle_event-IsCorrelator digest ref span event key env send_to c h =
      handle_send-IsCorrelator fl max positive digest ref span event key env c h
  handle_event-IsCorrelator digest ref span event key env recv_from c h =
      handle_recv-IsCorrelator fl max positive digest ref span event key env c h
  handle_event-IsCorrelator digest ref span event key env close c h =
      handle_close-IsCorrelator fl max positive key c h
  handle_event-IsCorrelator digest ref span event key env (unknown_event n) c h = h

  finish_event-IsCorrelator :
      (ref : ℕ) (span : Span F) (event : RawTraceEvent) (key : Bytes) (env : Env) (c : Correlator F)
      → IsC c
      → IsC (finish_event fl ref span event key env c)
  unfolding finish_event
  finish_event-IsCorrelator ref span event key env c h =
      if-IsCorrelator fl max positive (has_trace ref c) _ _
        (handle_spans-IsCorrelator fl max positive (ref ∷ []) c h)
        (try_correlate-IsCorrelator fl max positive ref span event key env _ h)

  process_event-IsCorrelator :
      (digest : Bytes → Bytes) (span : Span F) (event : RawTraceEvent) (env : Env)
      (c : Correlator F)
      → IsC c
      → IsC (process_event fl digest span event env c)
  unfolding process_event
  process_event-IsCorrelator digest span event env c h =
      finish_event-IsCorrelator _ span event _ env _
        (handle_event-IsCorrelator digest _ span event _ env (event_type_of event.event_type) _ h)

  expire_requests-IsCorrelator :
      (digest : Bytes → Bytes) (ids : ℕ → Bytes) (now : ℕ) (ps : List PendingRequest)
      (c : Correlator F)
      → IsC c
      → IsC (expire_requests fl digest ids now ps c)
  unfolding expire_requests
  expire_requests-IsCorrelator digest ids now [] c h = h
  expire_requests-IsCorrelator digest ids now (p ∷ ps) c h =
      expire_requests-IsCorrelator digest ids now ps _ (
        if-IsCorrelator fl max positive (is_expired fl now c.timeout p.timestamp) _ c
          (handle_spans-IsCorrelator fl max positive (p.span ∷ []) _
            (ensure_trace-IsCorrelator fl max positive digest (ids p.span) p.span c h))
          h)

  expire_flows-IsCorrelator :
      (now : ℕ) (flows : List (Bytes × ConnectionFlow)) (c : Correlator F)
      → IsC c
      → IsC (expire_flows fl now flows c)
  unfolding expire_flows
  expire_flows-IsCorrelator now [] c h = h
  expire_flows-IsCorrelator now ((key, flow) ∷ flows) c h = expire_flows-IsCorrelator now flows _ (
      if-IsCorrelator fl max positive
        (is_expired fl now c.timeout flow.last_send && is_expired fl now c.timeout flow.last_recv) _
        c (end_flow-IsCorrelator fl max positive (text "connection_timeout") key flow true c h) h)

  cleanup_expired-IsCorrelator :
      (digest : Bytes → Bytes) (ids : ℕ → Bytes) (now : ℕ) (c : Correlator F)
      → IsC c
      → IsC (cleanup_expired fl digest ids now c)
  unfolding cleanup_expired
  cleanup_expired-IsCorrelator digest ids now c h =
      expire_flows-IsCorrelator now _ _
        (expire_requests-IsCorrelator digest ids now c.pending_requests c h)

module _ (fl : Float) (digest : Bytes → Bytes) where
  open fl use {F}

  -- What happens to a correlator: an event, or a round of `cleanupLoop`.
  pub data Step : Type 0 where
    event : Span F → RawTraceEvent → Env → Step
    cleanup : (ℕ → Bytes) → ℕ → Step

  abbrev pub run : List Step → Correlator F → Correlator F
  run [] c = c
  run (event span raw env ∷ steps) c = run steps (process_event fl digest span raw env c)
  run (cleanup ids now ∷ steps) c = run steps (cleanup_expired fl digest ids now c)

  run-IsCorrelator :
      (max : ℕ) (positive : 0 < max) (steps : List Step) (c : Correlator F)
      → IsCorrelator fl max positive c
      → IsCorrelator fl max positive (run steps c)
  run-IsCorrelator max positive [] c h = h
  run-IsCorrelator max positive (event span raw env ∷ steps) c h =
      run-IsCorrelator max positive steps _
        (process_event-IsCorrelator fl max positive digest span raw env c h)
  run-IsCorrelator max positive (cleanup ids now ∷ steps) c h =
      run-IsCorrelator max positive steps _
        (cleanup_expired-IsCorrelator fl max positive digest ids now c h)

  -- Behind any sequence of events and cleanups, on a new correlator with a span handler, every
  -- connection has at most 1000 requests in flight, in the order in which they were sent: their
  -- numbers are consecutive (modulo 2^64) and end with the connection's counter.
  pub run-flows :
      (steps : List Step)
      → Every (IsFlow 1000) (run steps (set_span_handler new_correlator)).connections
  unfolding new_correlator
  run-flows steps =
      (run-IsCorrelator 1000 (omega arith) steps (set_span_handler new_correlator) (refl, tt)).1
