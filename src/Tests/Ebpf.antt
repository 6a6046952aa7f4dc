-- ===== src/Tests/Ebpf.antt =====
-- Tests of the tracer.
use a.Prelude.{
  ◌≡◌, refl, arith, true, false, none, some, List, [], ◌∷◌, length, replicate, ltb, if◌then◌else◌,
}
use a.Golang.Result.{ok, panic, ◌>>=◌}
use a.Golang.Slice.{Bytes}
use a.Model.Event.{RawTraceEvent}
use a.Ebpf.Layout
use a.Ebpf.Layout.{IsEvent, put_process, put_addresses}
use a.Ebpf.Lifecycle
use a.Ebpf.Lifecycle.{Step, polled, taken, run, counted, accepted, IsOpen, Delivers}
use a.Ebpf.Padding
use a.Ebpf.Record.{parse_raw_event}
use a.Ebpf.Tracer.{Tracer, start, stop, push_event, sample, failed, temporary}

abbrev event : RawTraceEvent
event = record {
  timestamp = 7;
  pid = 300;
  tid = 301;
  uid = 0;
  gid = 0;
  comm = replicate 16 b'c';
  event_type = 2;
  protocol = 1;
  s_addr = 0x0100007f;
  d_addr = 0x0200007f;
  s_port = 8080;
  d_port = 80;
  duration_ns = 5;
  error_code = 0;
  payload_size = 3;
  payload = replicate 1024 b'p';
  trace_id = replicate 33 b't';
  span_id = replicate 17 b's';
  parent_span_id = replicate 17 0;
  path = replicate 256 b'/';
}

event-IsEvent : IsEvent event
event-IsEvent = record {
  timestamp = omega arith;
  pid = omega arith;
  tid = omega arith;
  uid = omega arith;
  gid = omega arith;
  comm = refl;
  event_type = omega arith;
  protocol = omega arith;
  s_addr = omega arith;
  d_addr = omega arith;
  s_port = omega arith;
  d_port = omega arith;
  duration_ns = omega arith;
  error_code = omega arith;
  payload_size = omega arith;
  payload = refl;
  trace_id = refl;
  span_id = refl;
  parent_span_id = refl;
  path = refl;
}

abbrev seven : Bytes
seven = replicate 7 0

parse_raw_event-put_example :
    parse_raw_event (put_process event (put_addresses event seven))
    ≡ (if ltb (length seven) 7 then none else some event)
parse_raw_event-put_example = Layout.parse_raw_event-put event event-IsEvent seven

abbrev five : Bytes
five = replicate 5 0

abbrev running : Tracer
running = record {
  running = true;
  stop_closed = false;
  events_closed = false;
  event_chan = [];
  stats = record {
    events_total = 0;
    events_dropped = 0;
    events_sent = 0;
    connections = 0;
    ringbuf_dropped = 0;
  };
  processed_events = 0;
  dropped_events = 0;
}

abbrev stopped : Tracer
stopped = record running { running = false; stop_closed = true; events_closed = true }

stop-start_panic_example : ((start stopped >>= stop) ≡ panic) × (push_event event stopped ≡ panic)
unfolding stop
stop-start_panic_example = Lifecycle.stop-start_panic running stopped refl refl event

abbrev steps : List Step
steps =
    polled (sample [])
    ∷ polled temporary
    ∷ polled (sample (put_process event (put_addresses event seven)))
    ∷ taken
    ∷ polled failed
    ∷ []

run-Delivers_example :
    (t' : Tracer) × (events : List RawTraceEvent) × (run steps running ≡ ok (t', events))
    × IsOpen t'
    × Delivers (counted steps) running t' (accepted 0 steps) events
run-Delivers_example =
    Lifecycle.run-Delivers steps running (record { open_events = refl; room = omega arith })
