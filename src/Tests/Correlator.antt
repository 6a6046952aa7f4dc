-- ===== src/Tests/Correlator.antt =====
-- The correlator: a request and its response, and instances of the theorems.
use a.Prelude.{arith, some, ℕ, ◌≡◌, refl, List, [], ◌∷◌, ◌*◌, ◌^◌, take}
use a.Golang.Dict.Every.{Every}
use a.Golang.Dict.{lookup, insert}
use a.Golang.Slice.{Bytes}
use a.Golang.Text.{text, bytes_eq, bytes_lt, decimal}
use a.Model.Event.{RawTraceEvent, event_type_of}
use a.Model.Span.{Span, set_tag}
use a.Correlator.Flows.{IsFlow}
use a.Correlator.Handlers.{
  process_event, handle_event, handle_send, handle_recv, finish_event, get_or_create_flow,
  kept_requests, drop_oldest, answer_response, match_request, link_spans,
}
use a.Correlator.History.{Step, event, cleanup, run, run-flows}
use a.Correlator.Matching.{ids_at, answer_response-ids}
use a.Correlator.Payload.{format_key, get_connection_key, is_request_payload, is_response_payload}
use a.Correlator.State.{
  InflightRequest, ConnectionFlow, Correlator, Env, new_correlator, set_span_handler, has_trace,
  ensure_trace, modify,
}
use a.Tests.Instances.{whole_numbers, span_of}

-- An event of a type, with a payload.
abbrev event_of : ℕ → Bytes → RawTraceEvent
event_of type payload = record {
  timestamp = 0;
  pid = 7;
  tid = 7;
  uid = 0;
  gid = 0;
  comm = [];
  event_type = type;
  protocol = 0;
  s_addr = 0;
  d_addr = 0;
  s_port = 0;
  d_port = 0;
  duration_ns = 0;
  error_code = 0;
  payload_size = 16;
  payload = payload;
  trace_id = [];
  span_id = [];
  parent_span_id = [];
  path = [];
}

abbrev request : RawTraceEvent
request = event_of 2 (text "GET / HTTP/1.1\r\n")

abbrev response : RawTraceEvent
response = event_of 3 (text "HTTP/1.1 200 OK\r")

abbrev clock : Env
clock = record {
  flow_time = 100;
  request_time = 100;
  match_time = 130;
  pending_time = 100;
  new_span_id = text "s";
}

abbrev sent : Span ℕ
sent = span_of (text "t1") 0 0

abbrev answered : Span ℕ
answered = span_of (text "t2") 0 0

abbrev steps : List (Step whole_numbers (λ t. t))
steps =
    event sent request clock
    ∷ event answered response clock
    ∷ event sent request clock
    ∷ cleanup (λ ref. text "s") (100 * 10 ^ 9)
    ∷ []

abbrev started : Correlator ℕ
started = set_span_handler new_correlator

-- Each of the two spans is given to the handler twice.
handled_spans : (run whole_numbers (λ t. t) (take 2 steps) started).handled ≡ 0 ∷ 0 ∷ 1 ∷ 1 ∷ []
unfolding new_correlator process_event handle_event handle_send handle_recv finish_event
    get_or_create_flow kept_requests drop_oldest answer_response match_request link_spans has_trace
    modify lookup insert bytes_eq is_request_payload is_response_payload event_type_of set_tag
    get_connection_key ensure_trace bytes_lt format_key decimal
handled_spans = refl

run-flows_example : Every (IsFlow 1000) (run whole_numbers (λ t. t) steps started).connections
run-flows_example = run-flows whole_numbers (λ t. t) steps

abbrev waiting : InflightRequest
waiting = record { span = 0; send_time = 100; seq = 1 }

abbrev open_flow : ConnectionFlow
open_flow = record {
  pid = 7;
  source_ip = [];
  dest_ip = [];
  source_port = 0;
  dest_port = 0;
  last_send = 100;
  last_recv = 0;
  inflight_reqs = waiting ∷ [];
  seq_counter = 1;
}

abbrev two_spans : Correlator ℕ
two_spans = record started { spans = sent ∷ answered ∷ [] }

answer_response-ids_example :
    (ids_at 1 (answer_response whole_numbers (λ t. t) 1 (text "k") clock open_flow two_spans).spans
      ≡ some (text "t1", []))
    × (lookup
          (text "k")
          (answer_response whole_numbers
            (λ t. t)
            1
            (text "k")
            clock
            open_flow
            two_spans).connections
        ≡ some (record open_flow { inflight_reqs = [] }))
unfolding new_correlator
answer_response-ids_example =
    answer_response-ids whole_numbers (λ t. t) 1 (text "k") clock open_flow two_spans waiting []
      sent refl refl (omega arith)
