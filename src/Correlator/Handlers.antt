-- ===== src/Correlator/Handlers.antt =====
-- pkg/trace/correlator.go: `ProcessEvent` and its handlers. The span comes as an argument, as
-- `ConvertRawEventToSpan` and `Parser.Parse` leave it.
use a.Prelude.{
  ℕ, zero, suc, ◌-◌, ◌^◌, true, none, some, List, [], ◌∷◌, ◌++◌, map, get_elem?, if◌then◌else◌,
  length, leb, ◌==◌,
}
use a.Golang.Counter.{add_u64}
use a.Golang.Dict.{lookup, insert, delete}
use a.Golang.Float.{Float}
use a.Golang.Int.{pos}
use a.Golang.Slice.{Bytes}
use a.Golang.Text.{text}
use a.Model.Event.{
  RawTraceEvent, EventType, event_type_of, connect, accept, send_to, recv_from, close,
  unknown_event,
}
use a.Model.Span.{Span, TagValue, set_tag}
use a.Correlator.Payload.{get_connection_key, is_request_payload, is_response_payload}
use a.Correlator.State.{
  PendingRequest, InflightRequest, ConnectionFlow, Correlator, Env, modify, update_span, has_trace,
  handle_spans, ensure_trace, new_flow,
}

-- `^uint64(n-1)` for an int n that is not negative: what takes n from a counter.
abbrev pub minus_u64 : ℕ → ℕ
minus_u64 zero = 0
minus_u64 (suc n) = 2 ^ 64 - suc n

-- The requests that a full flow keeps: all but the oldest.
unfoldable pub kept_requests : ℕ → List InflightRequest → List InflightRequest
kept_requests max [] = []
kept_requests max (req ∷ reqs) = if leb max (length (req ∷ reqs)) then reqs else req ∷ reqs

-- The flow with a request at its end.
abbrev pub push_request : ℕ → ℕ → ℕ → ConnectionFlow → ConnectionFlow
push_request max ref now flow =
    let seq = add_u64 flow.seq_counter 1 in
    record flow {
      inflight_reqs =
          kept_requests max flow.inflight_reqs
          ++ (record { span = ref; send_time = now; seq = seq } ∷ []);
      seq_counter = seq;
    }

module _ {F : Type 0} where
  abbrev pub set_flow : Bytes → ConnectionFlow → Correlator F → Correlator F
  set_flow key flow c = record c { connections = insert key flow c.connections }

  abbrev pub count_connection : Correlator F → Correlator F
  count_connection c = record c {
    stats = record c.stats { active_connections = add_u64 c.stats.active_connections 1 };
  }

  -- The counter of requests in flight, with a number added to it.
  abbrev pub add_inflight : ℕ → Correlator F → Correlator F
  add_inflight n c = record c {
    stats = record c.stats { inflight_requests = add_u64 c.stats.inflight_requests n };
  }

  -- `handleConnect` and `handleAccept`, which do the same.
  unfoldable pub handle_connect : Span F → Bytes → Correlator F → Correlator F
  handle_connect span key c = count_connection (set_flow key (new_flow span) c)

  -- `getOrCreateFlow`
  unfoldable pub get_or_create_flow : Span F → Bytes → Correlator F → Correlator F × ConnectionFlow
  get_or_create_flow span key c = elim (lookup key c.connections) [
    | some flow ↦ (c, flow)
    | none ↦ (count_connection (set_flow key (new_flow span) c), new_flow span)
  ]

  -- What becomes of the oldest request of a full flow: it is given to the handler without a response.
  unfoldable pub drop_oldest : List InflightRequest → Correlator F → Correlator F
  drop_oldest [] c = c
  drop_oldest (req ∷ reqs) c =
      if leb c.max_inflight (length (req ∷ reqs))
      then handle_spans (req.span ∷ []) (record c {
        stats = record c.stats { dropped_events = add_u64 c.stats.dropped_events 1 };
      })
      else c

  -- `handleSend`, where `ref` is the event's span.
  unfoldable pub handle_send :
      (Bytes → Bytes) → ℕ → Span F → RawTraceEvent → Bytes → Env → Correlator F → Correlator F
  handle_send digest ref span event key env c =
      let (c1, found) = get_or_create_flow span key c in
      let flow = record found { last_send = env.flow_time } in
      if is_request_payload event
      then (let c2 = drop_oldest flow.inflight_reqs (ensure_trace digest env.new_span_id ref c1) in
          let pushed = push_request c.max_inflight ref env.request_time flow in
          update_span (set_tag (text "request_seq") (TagValue.num pushed.seq_counter)) ref
            (add_inflight 1 (set_flow key pushed c2)))
      else set_flow key flow c1

module _ (fl : Float) where
  open fl use {F, fdiv, of_int, lit}

  -- The milliseconds from a request to its response.
  abbrev pub elapsed_ms : ℕ → ℕ → F
  elapsed_ms sent now = fdiv (of_int (pos (now - sent))) (lit 1000000 0)

  -- A response takes its request's trace, and both take the time between them.
  unfoldable pub link_spans : InflightRequest → ℕ → Env → List (Span F) → List (Span F)
  link_spans req ref env spans = elim (get_elem? spans req.span) [
    | none ↦ spans
    | some request ↦
        let duration = elapsed_ms req.send_time env.match_time in
        modify (λ s. record s { duration_ms = duration }) req.span
          (modify
            (λ s. record s {
              parent_span_id = request.span_id;
              trace_id = request.trace_id;
              span_id = env.new_span_id;
              duration_ms = duration;
            })
            ref spans)
  ]

  abbrev pub tag_span : Bytes → TagValue → ℕ → Correlator F → Correlator F
  tag_span name value = update_span (set_tag name value)

  -- The branch of `handleRecv` for a request that was waiting.
  unfoldable pub match_request : InflightRequest → ℕ → Env → Correlator F → Correlator F
  match_request req ref env c =
      let c1 = record c { spans = link_spans req ref env c.spans } in
      let c2 =
        tag_span (text "response_seq") (TagValue.num req.seq) req.span
          (tag_span (text "request_seq") (TagValue.num req.seq) ref c1) in
      let c3 = handle_spans (req.span ∷ ref ∷ []) (add_inflight (minus_u64 1) c2) in
      tag_span (text "matched") (TagValue.flag true) ref c3

  -- The end of `handleRecv` for a response.
  unfoldable pub answer_response :
      (Bytes → Bytes) → ℕ → Bytes → Env → ConnectionFlow → Correlator F → Correlator F
  answer_response digest ref key env flow c = elim flow.inflight_reqs [
    | req ∷ reqs ↦ match_request req ref env (set_flow key (record flow { inflight_reqs = reqs }) c)
    | [] ↦
        tag_span (text "orphan_response") (TagValue.flag true) ref
          (ensure_trace digest env.new_span_id ref (set_flow key flow c))
  ]

  -- `handleRecv`
  unfoldable pub handle_recv :
      (Bytes → Bytes) → ℕ → Span F → RawTraceEvent → Bytes → Env → Correlator F → Correlator F
  handle_recv digest ref span event key env c =
      let (c1, found) = get_or_create_flow span key c in
      let flow = record found { last_recv = env.flow_time } in
      if is_response_payload event
      then answer_response digest ref key env flow c1
      else set_flow key flow c1

  -- The requests of a flow that ends are tagged and given to the handler.
  unfoldable pub tag_requests : Bytes → List InflightRequest → Correlator F → Correlator F
  tag_requests name [] c = c
  tag_requests name (req ∷ reqs) c =
      tag_requests name reqs (tag_span name (TagValue.flag true) req.span c)

  -- A flow that ends: its requests leave the counter, and it leaves the map.
  unfoldable pub end_flow : Bytes → ConnectionFlow → Correlator F → Correlator F
  end_flow key flow c =
      let c1 = handle_spans (map (λ req. req.span) flow.inflight_reqs) c in
      let c2 = add_inflight (minus_u64 (length flow.inflight_reqs)) c1 in
      record c2 {
        stats = record c2.stats {
          active_connections = add_u64 c2.stats.active_connections (minus_u64 1);
        };
        connections = delete key c2.connections;
      }

  -- `handleClose`; without a handler the requests are not tagged.
  unfoldable pub handle_close : Bytes → Correlator F → Correlator F
  handle_close key c = elim (lookup key c.connections) [
    | none ↦ c
    | some flow ↦
        end_flow key flow (
          if c.has_handler then tag_requests (text "connection_closed") flow.inflight_reqs c else c)
  ]

  -- `removeFromPending`: the first entry of a span.
  unfoldable pub remove_from_pending : ℕ → List PendingRequest → List PendingRequest
  remove_from_pending ref [] = []
  remove_from_pending ref (p ∷ ps) = if p.span == ref then ps else p ∷ remove_from_pending ref ps

  -- `tryCorrelate` for a receive, and as a whole.
  unfoldable pub correlate_front : ℕ → Bytes → Env → ConnectionFlow → Correlator F → Correlator F
  correlate_front ref key env flow c = elim flow.inflight_reqs [
    | [] ↦ c
    | req ∷ reqs ↦
        let c2 = set_flow key (record flow { inflight_reqs = reqs }) c in
        let c3 = record c2 { spans = link_spans req ref env c2.spans } in
        let c4 = handle_spans (req.span ∷ ref ∷ []) (add_inflight (minus_u64 1) c3) in
        record c4 {
          pending_requests =
              remove_from_pending ref (remove_from_pending req.span c4.pending_requests);
        }
  ]

  unfoldable pub try_correlate :
      ℕ → Span F → RawTraceEvent → Bytes → Env → Correlator F → Correlator F
  try_correlate ref span event key env c =
      let (c1, flow) = get_or_create_flow span key c in
      if event.event_type == 3 then correlate_front ref key env flow c1 else c1

  -- The handler of an event's type.
  unfoldable pub handle_event :
      (Bytes → Bytes)
      → ℕ
      → Span F
      → RawTraceEvent
      → Bytes
      → Env
      → EventType
      → Correlator F
      → Correlator F
  handle_event digest ref span event key env connect c = handle_connect span key c
  handle_event digest ref span event key env accept c = handle_connect span key c
  handle_event digest ref span event key env send_to c = handle_send digest ref span event key env c
  handle_event digest ref span event key env recv_from c =
      handle_recv digest ref span event key env c
  handle_event digest ref span event key env close c = handle_close key c
  handle_event digest ref span event key env (unknown_event n) c = c

  -- The end of `ProcessEvent`
  unfoldable pub finish_event :
      ℕ → Span F → RawTraceEvent → Bytes → Env → Correlator F → Correlator F
  finish_event ref span event key env c =
      if has_trace ref c
      then handle_spans (ref ∷ []) c
      else try_correlate ref span event key env (record c {
        pending_requests =
            c.pending_requests ++ (record { span = ref; timestamp = env.pending_time } ∷ []);
      })

  -- `ProcessEvent`
  unfoldable pub process_event :
      (Bytes → Bytes) → Span F → RawTraceEvent → Env → Correlator F → Correlator F
  process_event digest span event env c =
      let ref = length c.spans in
      let key =
        get_connection_key span.pid span.source_ip span.dest_ip span.source_port span.dest_port in
      let c1 = record c {
        spans = c.spans ++ (span ∷ []);
        stats = record c.stats { total_events = add_u64 c.stats.total_events 1 };
      } in
      finish_event ref span event key env
        (handle_event digest ref span event key env (event_type_of event.event_type) c1)
