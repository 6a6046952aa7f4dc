-- ===== src/Ebpf/Lifecycle.antt =====
-- pkg/ebpf/tracer.go: a tracer that is stopped, and the events of one that runs.
use a.Prelude.{
  subst, ℕ, suc, if◌then◌else◌, ◌+◌, ◌-◌, ◌%◌, ◌^◌, ◌≤◌, ◌≡◌, refl, sym, ◌∙◌, ap, arith, Bool, true,
  false, none, some, List, [], ◌∷◌, ◌++◌, ltb, length, length-append, append_assoc, append-nil,
  Bool-cases, Option-cases, List-cases, inl, inr,
}
use a.Golang.Counter.{add_u64}
use a.Golang.Result.{Result, ok, panic, ◌>>=◌}
use a.Model.Event.{RawTraceEvent}
use a.Ebpf.Record.{parse_raw_event}
use a.Ebpf.Tracer.{
  Tracer, start, stop, drop_event, push_event, Reading, sample, closed, temporary, failed,
  poll_round, receive_from, take_event,
}

-- A running tracer that `Stop` has stopped can be started, but stopping it once more is a panic, and
-- so is sending an event that was read before.
pub stop-start_panic :
    (t t' : Tracer)
    → t.running ≡ true
    → stop t ≡ ok t'
    → (event : RawTraceEvent) → ((start t' >>= stop) ≡ panic) × (push_event event t' ≡ panic)
unfolding start stop push_event
stop-start_panic t t' runs e event = ground (arith, runs, e)

-- What happens to a running tracer: a round of `pollEvents`, or a receive by a worker.
pub data Step : Type 0 where
  polled : Reading → Step
  taken : Step

-- A sequence of steps: the tracer behind it, and the events received.
unfoldable pub run : List Step → Tracer → Result (Tracer × List RawTraceEvent)
run [] t = ok (t, [])
run (polled reading ∷ steps) t = poll_round reading t >>= λ (t', next). run steps t'
run (taken ∷ steps) t =
    let (t', event) = take_event t in
    run steps t' >>= λ (t'', events). ok (t'', elim event [ none ↦ events | some e ↦ e ∷ events ])

-- The readings that are counted: all but the end and temporary errors.
abbrev pub counted : List Step → ℕ
counted [] = 0
counted (polled (sample bs) ∷ steps) = suc (counted steps)
counted (polled failed ∷ steps) = suc (counted steps)
counted (_ ∷ steps) = counted steps

-- The events of a reading that a channel with n events takes: what `parseRawEvent` reads of a sample,
-- while there is room for it.
abbrev pub accepts : ℕ → Reading → List RawTraceEvent
accepts n (sample bs) = elim (parse_raw_event bs) [
  | none ↦ []
  | some event ↦ if ltb n 100000 then event ∷ [] else []
]
accepts n _ = []

-- The events of a sequence of steps that a channel takes which holds n events before: only the number
-- of events in it is kept.
abbrev pub accepted : ℕ → List Step → List RawTraceEvent
accepted n [] = []
accepted n (polled reading ∷ steps) =
    accepts n reading ++ accepted (n + length (accepts n reading)) steps
accepted n (taken ∷ steps) = accepted (n - 1) steps

pub record IsOpen (t : Tracer) : Type 0 where
  pub open_events : t.events_closed ≡ false
  pub room : length t.event_chan ≤ 100000

-- What a step, or a sequence of them, makes of a tracer: events come behind those in the channel, are
-- received from the front, and each reading is counted once.
abbrev pub Delivers : ℕ → Tracer → Tracer → List RawTraceEvent → List RawTraceEvent → Type 0
Delivers n t t' taking events =
    (t.event_chan ++ taking ≡ events ++ t'.event_chan)
    × (t'.processed_events % 2 ^ 64 ≡ (t.processed_events + length taking) % 2 ^ 64)
    × ((t'.processed_events + t'.dropped_events) % 2 ^ 64
        ≡ (t.processed_events + t.dropped_events + n) % 2 ^ 64)

drop_event-Delivers : (t : Tracer) → Delivers 1 t (drop_event t) [] []
drop_event-Delivers t = (append-nil t.event_chan, omega arith, omega arith)

push_event-Delivers :
    (event : RawTraceEvent) (t : Tracer)
    → IsOpen t
    → (t' : Tracer) × (push_event event t ≡ ok t')
      × IsOpen t'
      × Delivers 1 t t' (if ltb (length t.event_chan) 100000 then event ∷ [] else []) []
unfolding push_event
push_event-Delivers event t h =
    let open_events : t.events_closed ≡ false = h.open_events in
    let room : length t.event_chan ≤ 100000 = h.room in
    elim (Bool-cases (ltb (length t.event_chan) 100000)) [
      | inl e ↦
          let longer = length-append t.event_chan (event ∷ []) in
          (
            record t {
              event_chan = t.event_chan ++ (event ∷ []);
              processed_events = add_u64 t.processed_events 1;
            },
            rw (open_events, e) refl,
            record { open_events = open_events; room = ground (arith, e, longer) },
            rw e (refl, omega arith, omega arith),
          )
      | inr e ↦ (
        drop_event t,
        rw (open_events, e) refl,
        record { open_events = open_events; room = room },
        rw (e, accepts) (drop_event-Delivers t),
      )
    ]

poll_round-Delivers :
    (reading : Reading) (t : Tracer)
    → IsOpen t
    → (t' : Tracer) × (next : Bool) × (poll_round reading t ≡ ok (t', next))
      × IsOpen t'
      × Delivers (counted (polled reading ∷ [])) t t' (accepts (length t.event_chan) reading) []
unfolding poll_round
poll_round-Delivers closed t h =
    (t, false, refl, h, (append-nil t.event_chan, omega arith, omega arith))
poll_round-Delivers temporary t h =
    (t, true, refl, h, (append-nil t.event_chan, omega arith, omega arith))
poll_round-Delivers failed t h = (
  drop_event t,
  true,
  refl,
  record { open_events = h.open_events; room = h.room },
  drop_event-Delivers t,
)
poll_round-Delivers (sample bs) t h = elim (Option-cases (parse_raw_event bs)) [
  | inl e ↦ (
    drop_event t,
    true,
    rw (e, poll_round) refl,
    record { open_events = h.open_events; room = h.room },
    rw (e, accepts) (drop_event-Delivers t),
  )
  | inr (event, e) ↦
      let (t', sent, opened, delivers) = push_event-Delivers event t h in
      (t', true, rw (e, sent, poll_round) refl, opened, rw (e, accepts) delivers)
]

-- Two sequences, one behind the other, the first without receives.
Delivers-trans :
    (m n : ℕ) (t t1 t' : Tracer) (first second events : List RawTraceEvent)
    → Delivers m t t1 first []
    → Delivers n t1 t' second events
    → Delivers (m + n) t t' (first ++ second) events
Delivers-trans m n t t1 t' first second events (a, b, c) (a', b', c') = (
  sym (append_assoc t.event_chan first second) ∙ ap (λ xs. xs ++ second) a ∙ a',
  omega (arith, b, b', length-append first second),
  omega (arith, c, c'),
)

counted-polled :
    (reading : Reading) (steps : List Step)
    → counted (polled reading ∷ steps) ≡ counted (polled reading ∷ []) + counted steps
counted-polled (sample bs) steps = omega arith
counted-polled closed steps = omega arith
counted-polled temporary steps = omega arith
counted-polled failed steps = omega arith

take_event-empty : (t : Tracer) → t.event_chan ≡ [] → take_event t ≡ (t, none)
take_event-empty t e = ap (λ events. receive_from events t) e

take_event-first :
    (t : Tracer) (event : RawTraceEvent) (rest : List RawTraceEvent)
    → t.event_chan ≡ event ∷ rest
    → take_event t ≡ (record t { event_chan = rest }, some event)
take_event-first t event rest e = ap (λ events. receive_from events t) e

none_left : (n : ℕ) → n ≡ 0 → n ≡ n - 1
none_left n e = omega (arith, e)

one_less : (n m : ℕ) → n ≡ suc m → m ≡ n - 1
one_less n m e = omega (arith, e)

-- However the rounds of `pollEvents` and the receives of the workers follow each other, a tracer
-- whose channel of events is open, with at most 100000 events in it, stays so and never panics. The
-- events that were in it, and behind them what `parseRawEvent` reads of each sample that finds less
-- than 100000 events in it, in this order, are the events received and those left in it; the
-- processed events are counted, and every reading but the end and temporary errors is counted as
-- processed or dropped, up to the wrap of the counters.
pub run-Delivers :
    (steps : List Step) (t : Tracer)
    → IsOpen t
    → (t' : Tracer) × (events : List RawTraceEvent) × (run steps t ≡ ok (t', events))
      × IsOpen t'
      × Delivers (counted steps) t t' (accepted (length t.event_chan) steps) events
unfolding run
run-Delivers [] t h = (t, [], refl, h, (append-nil t.event_chan, omega arith, omega arith))
run-Delivers (polled reading ∷ steps) t h =
    let (t1, next, e, opened, delivers) = poll_round-Delivers reading t h in
    let (t', events, e', opened', delivers') = run-Delivers steps t1 opened in
    let first = accepts (length t.event_chan) reading in
    let longer : length t1.event_chan ≡ length t.event_chan + length first =
      sym (ap length delivers.0) ∙ length-append t.event_chan first in
    let all =
      Delivers-trans (counted (polled reading ∷ [])) (counted steps) t t1 t' first
        (accepted (length t.event_chan + length first) steps) events delivers
        (subst (λ n. Delivers (counted steps) t1 t' (accepted n steps) events) longer delivers') in
    (
      t',
      events,
      rw (e, run) e',
      opened',
      subst (λ n. Delivers n t t' (accepted (length t.event_chan) (polled reading ∷ steps)) events)
          (sym (counted-polled reading steps)) all,
    )
run-Delivers (taken ∷ steps) t h = elim (List-cases t.event_chan) [
  | inl e ↦
      let (t', events, e', opened, delivers) = run-Delivers steps t h in
      (
        t',
        events,
        rw (take_event-empty t e, e', run) refl,
        opened,
        subst (λ n. Delivers (counted steps) t t' (accepted n steps) events)
            (none_left (length t.event_chan) (ap length e)) delivers,
      )
  | inr (event, rest, e) ↦
      let t1 : Tracer = record t { event_chan = rest } in
      let room = h.room in
      let shorter : length rest ≤ 100000 = omega (arith, room, ap length e) in
      let (t', events, e', opened, delivers) =
        run-Delivers steps t1 (record { open_events = h.open_events; room = shorter }) in
      let (same, processed, all) =
        subst (λ n. Delivers (counted steps) t1 t' (accepted n steps) events)
          (one_less (length t.event_chan) (length rest) (ap length e)) delivers in
      (
        t',
        event ∷ events,
        rw (take_event-first t event rest e, e', run) refl,
        opened,
        (
          ap (λ xs. xs ++ accepted (length t.event_chan - 1) steps) e ∙ ap (λ xs. event ∷ xs) same,
          processed,
          all,
        ),
      )
]
