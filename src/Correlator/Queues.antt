-- ===== src/Correlator/Queues.antt =====
-- pkg/trace/correlator.go: the handlers and the queues of the connections.
use a.Prelude.{
  ℕ, ◌<◌, ◌≡◌, sym, subst, Bool, true, false, List, [], ◌∷◌, arith, leb, if◌then◌else◌, length,
  Option-cases, List-cases, map, inl, inr, ◌==◌,
}
use a.Golang.Counter.{add_u64}
use a.Golang.Dict.{lookup}
use a.Golang.Dict.Every.{Every, Every-lookup, Every-insert, Every-delete}
use a.Golang.Float.{Float}
use a.Golang.Slice.{Bytes}
use a.Golang.Text.{text}
use a.Model.Event.{RawTraceEvent}
use a.Model.Span.{Span}
use a.Correlator.Payload.{is_request_payload, is_response_payload}
use a.Correlator.Flows.{IsFlow, IsFlow-tail, push_request-IsFlow}
use a.Correlator.State.{
  InflightRequest, ConnectionFlow, Correlator, Env, handle_spans, ensure_trace, new_flow, has_trace,
}
use a.Correlator.Handlers.{
  get_or_create_flow, set_flow, push_request, drop_oldest, handle_connect, handle_send,
  match_request, answer_response, correlate_front, handle_recv, tag_requests, end_flow,
  handle_close, try_correlate,
}

module _ (fl : Float) (max : ℕ) (positive : 0 < max) where
  open fl use {F}

  -- Every flow of a correlator with this bound is within it.
  abbrev pub IsCorrelator : Correlator F → Type 0
  IsCorrelator c = (c.max_inflight ≡ max) × Every (IsFlow max) c.connections

  pub if-IsCorrelator :
      (b : Bool) (c d : Correlator F)
      → IsCorrelator c
      → IsCorrelator d
      → IsCorrelator (if b then c else d)
  if-IsCorrelator true c d h k = h
  if-IsCorrelator false c d h k = k

  pub handle_spans-IsCorrelator :
      (refs : List ℕ) (c : Correlator F) → IsCorrelator c → IsCorrelator (handle_spans refs c)
  handle_spans-IsCorrelator refs c h = if-IsCorrelator c.has_handler _ c h h

  pub ensure_trace-IsCorrelator :
      (digest : Bytes → Bytes) (id : Bytes) (ref : ℕ) (c : Correlator F)
      → IsCorrelator c
      → IsCorrelator (ensure_trace digest id ref c)
  unfolding ensure_trace
  ensure_trace-IsCorrelator digest id ref c h = if-IsCorrelator (has_trace ref c) c _ h h

  set_flow-IsCorrelator :
      (key : Bytes) (flow : ConnectionFlow) (c : Correlator F)
      → IsFlow max flow
      → IsCorrelator c
      → IsCorrelator (set_flow key flow c)
  set_flow-IsCorrelator key flow c f h =
      (h.0, Every-insert (IsFlow max) key flow c.connections f h.1)

  new_flow-IsFlow : (span : Span F) → IsFlow max (new_flow span)
  new_flow-IsFlow span = (omega arith, tt)

  pub handle_connect-IsCorrelator :
      (span : Span F) (key : Bytes) (c : Correlator F)
      → IsCorrelator c
      → IsCorrelator (handle_connect span key c)
  unfolding handle_connect
  handle_connect-IsCorrelator span key c h =
      set_flow-IsCorrelator key (new_flow span) c (new_flow-IsFlow span) h

  -- What `getOrCreateFlow` gives.
  IsFlow-get_or_create_flow :
      (span : Span F) (key : Bytes) (c : Correlator F)
      → IsCorrelator c
      → IsCorrelator (get_or_create_flow span key c).0
        × IsFlow max (get_or_create_flow span key c).1
  unfolding get_or_create_flow handle_connect
  IsFlow-get_or_create_flow span key c h = elim (Option-cases (lookup key c.connections)) [
    | inl e ↦
        rw (e, get_or_create_flow) (handle_connect-IsCorrelator span key c h, new_flow-IsFlow span)
    | inr (flow, e) ↦
        rw (e, get_or_create_flow) (h, Every-lookup (IsFlow max) key c.connections h.1 e)
  ]

  drop_oldest-IsCorrelator :
      (reqs : List InflightRequest) (c : Correlator F)
      → IsCorrelator c
      → IsCorrelator (drop_oldest reqs c)
  unfolding drop_oldest
  drop_oldest-IsCorrelator [] c h = h
  drop_oldest-IsCorrelator (req ∷ reqs) c h =
      if-IsCorrelator (leb c.max_inflight (length (req ∷ reqs))) _ c
        (handle_spans-IsCorrelator (req.span ∷ [])
          (record c {
            stats = record c.stats { dropped_events = add_u64 c.stats.dropped_events 1 };
          })
          h)
        h

  pub handle_send-IsCorrelator :
      (digest : Bytes → Bytes) (ref : ℕ) (span : Span F) (event : RawTraceEvent) (key : Bytes)
      (env : Env) (c : Correlator F)
      → IsCorrelator c
      → IsCorrelator (handle_send digest ref span event key env c)
  unfolding handle_send
  handle_send-IsCorrelator digest ref span event key env c h =
      let g = IsFlow-get_or_create_flow span key c h in
      let (c1, found) = get_or_create_flow span key c in
      let flow : ConnectionFlow = record found { last_send = env.flow_time } in
      let c2 = drop_oldest flow.inflight_reqs (ensure_trace digest env.new_span_id ref c1) in
      if-IsCorrelator (is_request_payload event) _ _
        (set_flow-IsCorrelator key (push_request c.max_inflight ref env.request_time flow) c2
          (subst (λ m. IsFlow max (push_request m ref env.request_time flow)) (sym h.0)
            (push_request-IsFlow max ref env.request_time flow positive g.1))
          (drop_oldest-IsCorrelator flow.inflight_reqs _
            (ensure_trace-IsCorrelator digest env.new_span_id ref c1 g.0)))
        (set_flow-IsCorrelator key flow c1 g.1 g.0)

  match_request-IsCorrelator :
      (req : InflightRequest) (ref : ℕ) (env : Env) (c : Correlator F)
      → IsCorrelator c
      → IsCorrelator (match_request fl req ref env c)
  unfolding match_request
  match_request-IsCorrelator req ref env c h = handle_spans-IsCorrelator (req.span ∷ ref ∷ []) _ h

  -- The answer to a response and to a receive, by the requests of the flow.
  respond :
      (digest : Bytes → Bytes) (ref : ℕ) (key : Bytes) (env : Env) (c : Correlator F)
      (flow : ConnectionFlow)
      → IsCorrelator c
      → IsFlow max flow
      → IsCorrelator (answer_response fl digest ref key env flow c)
  unfolding answer_response
  respond digest ref key env c flow h f = elim (List-cases flow.inflight_reqs) [
    | inl e ↦
        rw (e, answer_response)
          (ensure_trace-IsCorrelator digest env.new_span_id ref _
            (set_flow-IsCorrelator key flow c f h))
    | inr (req, reqs, e) ↦
        rw (e, answer_response)
          (match_request-IsCorrelator req ref env _ (
            set_flow-IsCorrelator key (record flow { inflight_reqs = reqs }) c
              (IsFlow-tail max flow req reqs e f) h))
  ]

  correlate :
      (ref : ℕ) (key : Bytes) (env : Env) (c : Correlator F) (flow : ConnectionFlow)
      → IsCorrelator c
      → IsFlow max flow
      → IsCorrelator (correlate_front fl ref key env flow c)
  unfolding correlate_front
  correlate ref key env c flow h f = elim (List-cases flow.inflight_reqs) [
    | inl e ↦ rw (e, correlate_front) h
    | inr (req, reqs, e) ↦
        rw (e, correlate_front)
          (handle_spans-IsCorrelator (req.span ∷ ref ∷ []) _ (
            set_flow-IsCorrelator key (record flow { inflight_reqs = reqs }) c
              (IsFlow-tail max flow req reqs e f) h))
  ]

  -- The flow of a response: its oldest request leaves it.
  pub handle_recv-IsCorrelator :
      (digest : Bytes → Bytes) (ref : ℕ) (span : Span F) (event : RawTraceEvent) (key : Bytes)
      (env : Env) (c : Correlator F)
      → IsCorrelator c
      → IsCorrelator (handle_recv fl digest ref span event key env c)
  unfolding handle_recv
  handle_recv-IsCorrelator digest ref span event key env c h =
      let g = IsFlow-get_or_create_flow span key c h in
      let (c1, found) = get_or_create_flow span key c in
      if-IsCorrelator (is_response_payload event) _ _
        (respond digest ref key env c1 (record found { last_recv = env.flow_time }) g.0 g.1)
        (set_flow-IsCorrelator key (record found { last_recv = env.flow_time }) c1 g.1 g.0)

  pub tag_requests-IsCorrelator :
      (name : Bytes) (reqs : List InflightRequest) (c : Correlator F)
      → IsCorrelator c
      → IsCorrelator (tag_requests fl name reqs c)
  unfolding tag_requests
  tag_requests-IsCorrelator name [] c h = h
  tag_requests-IsCorrelator name (req ∷ reqs) c h = tag_requests-IsCorrelator name reqs _ h

  pub end_flow-IsCorrelator :
      (name key : Bytes) (flow : ConnectionFlow) (b : Bool) (c : Correlator F)
      → IsCorrelator c
      → IsCorrelator
          (end_flow fl key flow (if b then tag_requests fl name flow.inflight_reqs c else c))
  unfolding end_flow
  end_flow-IsCorrelator name key flow b c h =
      let tagged =
        if-IsCorrelator b _ c (tag_requests-IsCorrelator name flow.inflight_reqs c h) h in
      let handled = handle_spans-IsCorrelator (map (λ req. req.span) flow.inflight_reqs) _ tagged in
      (handled.0, Every-delete (IsFlow max) key _ handled.1)

  pub handle_close-IsCorrelator :
      (key : Bytes) (c : Correlator F) → IsCorrelator c → IsCorrelator (handle_close fl key c)
  unfolding handle_close
  handle_close-IsCorrelator key c h = elim (Option-cases (lookup key c.connections)) [
    | inl e ↦ rw (e, handle_close) h
    | inr (flow, e) ↦
        rw (e, handle_close)
          (end_flow-IsCorrelator (text "connection_closed") key flow c.has_handler c h)
  ]

  pub try_correlate-IsCorrelator :
      (ref : ℕ) (span : Span F) (event : RawTraceEvent) (key : Bytes) (env : Env) (c : Correlator F)
      → IsCorrelator c
      → IsCorrelator (try_correlate fl ref span event key env c)
  unfolding try_correlate
  try_correlate-IsCorrelator ref span event key env c h =
      let g = IsFlow-get_or_create_flow span key c h in
      let (c1, flow) = get_or_create_flow span key c in
      if-IsCorrelator (event.event_type == 3) _ c1 (correlate ref key env c1 flow g.0 g.1) g.0
