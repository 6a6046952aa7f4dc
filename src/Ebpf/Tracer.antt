-- ===== src/Ebpf/Tracer.antt =====
-- pkg/ebpf/tracer.go: the tracer's state, `Start`, `Stop`, a round of `pollEvents` and the workers'
-- receive. The kernel's ring buffer and maps are outside: what a read of them yields is an argument.
use a.Prelude.{
  ℕ, Bool, true, false, not, ◌||◌, Option, none, some, List, [], ◌∷◌, ◌++◌, ltb, if◌then◌else◌,
  length,
}
use a.Golang.Counter.{add_u64}
use a.Golang.Result.{Result, ok, err, panic, ◌>>=◌}
use a.Golang.Slice.{Bytes}
use a.Model.Event.{RawTraceEvent}
use a.Ebpf.Record.{parse_raw_event}

pub record BpfStats : Type 0 where
  pub events_total : ℕ
  pub events_dropped : ℕ
  pub events_sent : ℕ
  pub connections : ℕ
  pub ringbuf_dropped : ℕ

-- `Tracer` without its handles of the kernel's objects; the two channels as to whether they are
-- closed, and the events in the second.
pub record Tracer : Type 0 where
  pub running : Bool
  pub stop_closed : Bool
  pub events_closed : Bool
  pub event_chan : List RawTraceEvent
  pub stats : BpfStats
  pub processed_events : ℕ
  pub dropped_events : ℕ

-- `Start`, but for the goroutines
unfoldable pub start : Tracer → Result Tracer
start t = if t.running then err else ok (record t { running = true })

-- `Stop`, but for the kernel's objects. Closing a closed channel is a panic.
unfoldable pub stop : Tracer → Result Tracer
stop t =
    if not t.running
    then ok t
    else if t.stop_closed || t.events_closed
    then panic
    else ok (record t { running = false; stop_closed = true; events_closed = true })

abbrev pub drop_event : Tracer → Tracer
drop_event t = record t { dropped_events = add_u64 t.dropped_events 1 }

-- The `select` that sends an event. Sending to a closed channel is a panic.
unfoldable pub push_event : RawTraceEvent → Tracer → Result Tracer
push_event event t =
    if t.events_closed
    then panic
    else if ltb (length t.event_chan) 100000
    then ok (record t {
      event_chan = t.event_chan ++ (event ∷ []);
      processed_events = add_u64 t.processed_events 1;
    })
    else ok (drop_event t)

-- What `ringbuf.Read` yields: a sample, an error that is `ErrClosed`, a temporary one, or another.
pub data Reading : Type 0 where
  sample : Bytes → Reading
  closed temporary failed : Reading

-- A round of `pollEvents` behind its read, and whether there is a next one.
unfoldable pub poll_round : Reading → Tracer → Result (Tracer × Bool)
poll_round closed t = ok (t, false)
poll_round temporary t = ok (t, true)
poll_round failed t = ok (drop_event t, true)
poll_round (sample bs) t = elim (parse_raw_event bs) [
  | none ↦ ok (drop_event t, true)
  | some event ↦ push_event event t >>= λ t'. ok (t', true)
]

-- A worker's receive, of the event that is the first in the channel.
abbrev pub receive_from : List RawTraceEvent → Tracer → Tracer × Option RawTraceEvent
receive_from [] t = (t, none)
receive_from (event ∷ events) t = (record t { event_chan = events }, some event)

abbrev pub take_event : Tracer → Tracer × Option RawTraceEvent
take_event t = receive_from t.event_chan t

-- `readBPFStats`, by what its two lookups yield, and `GetStats`
unfoldable pub read_bpf_stats : Option BpfStats → Option ℕ → BpfStats
read_bpf_stats value connections =
    let seen : BpfStats = elim value [
      | none ↦ record {
        events_total = 0;
        events_dropped = 0;
        events_sent = 0;
        connections = 0;
        ringbuf_dropped = 0;
      }
      | some v ↦ record v { connections = 0; ringbuf_dropped = 0 }
    ] in
    elim connections [ none ↦ seen | some count ↦ record seen { connections = count } ]

unfoldable pub get_stats : Tracer → BpfStats
get_stats t = record t.stats {
  events_sent = t.processed_events;
  ringbuf_dropped = t.dropped_events;
}
