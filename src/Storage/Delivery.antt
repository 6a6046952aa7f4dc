-- ===== src/Storage/Delivery.antt =====
-- pkg/storage/clickhouse.go: the rows that reach a database which takes every batch.
use a.Prelude.{
  ℕ, ◌≡◌, refl, sym, ap, ◌∙◌, Bool, true, false, List, [], ◌∷◌, ◌++◌, map, ltb, leb, if◌then◌else◌,
  length, append-nil, append_assoc, map-append, List-cases, Bool-cases, inl, inr,
}
use native.Mathlib.Numerals.{add-one}
use a.Model.Span.{Span}
use a.Storage.Row.{Row, row_of}
use a.Storage.Writer.{
  Stats, Driver, ClickHouseStore, flush_timeout, append_rows, do_flush, flush_from,
  flush_with_retry, flush_batch, append_span, save_span, receive, tick, stop, Action, act,
  accepted_by, run, accepted, saved, received, ticked, stopped,
}

-- A database that takes every batch: it holds the rows of the batches sent, and those appended to
-- the batch at hand, which a `PrepareBatch` starts empty.
pub record ReliableDatabase {F : Type 0} (driver : Driver F) : Type 0 where
  pub stored : driver.Conn → List (Row F)
  pub pending : driver.Conn → List (Row F)
  pub prepares : (n : ℕ) (c : driver.Conn) → (driver.prepare_batch n c).1 ≡ true
  pub prepare-pending : (n : ℕ) (c : driver.Conn) → pending (driver.prepare_batch n c).0 ≡ []
  pub prepare-stored : (n : ℕ) (c : driver.Conn) → stored (driver.prepare_batch n c).0 ≡ stored c
  pub append-pending :
      (row : Row F) (c : driver.Conn) → pending (driver.append row c).0 ≡ pending c ++ (row ∷ [])
  pub append-stored : (row : Row F) (c : driver.Conn) → stored (driver.append row c).0 ≡ stored c
  pub sends : (c : driver.Conn) → (driver.send c).1 ≡ true
  pub send-stored : (c : driver.Conn) → stored (driver.send c).0 ≡ stored c ++ pending c

module _ {F : Type 0} (driver : Driver F) (db : ReliableDatabase driver) where
  open driver use {Conn, prepare_batch, append, send, parse_ip}
  open db use {stored, pending}

  abbrev pub rows : List (Span F) → List (Row F)
  rows = map (row_of parse_ip)

  append_rows-pending :
      (batch : List (Span F)) (c : Conn)
      → pending (append_rows driver batch c) ≡ pending c ++ rows batch
  unfolding append_rows
  append_rows-pending [] c = sym (append-nil (pending c))
  append_rows-pending (span ∷ spans) c =
      append_rows-pending spans _
      ∙ (ap (λ r. r ++ rows spans) (db.append-pending (row_of parse_ip span) c)
          ∙ append_assoc (pending c) (row_of parse_ip span ∷ []) (rows spans))

  append_rows-stored :
      (batch : List (Span F)) (c : Conn) → stored (append_rows driver batch c) ≡ stored c
  unfolding append_rows
  append_rows-stored [] c = refl
  append_rows-stored (span ∷ spans) c =
      append_rows-stored spans _ ∙ db.append-stored (row_of parse_ip span) c

  open_flush :
      (batch : List (Span F)) (c : Conn)
      → do_flush driver batch c
        ≡ send (append_rows driver batch (prepare_batch (flush_timeout (length batch)) c).0)
  unfolding do_flush
  open_flush batch c = rw (db.prepares (flush_timeout (length batch)) c) refl

  do_flush-stored :
      (batch : List (Span F)) (c : Conn)
      → ((do_flush driver batch c).1 ≡ true)
        × (stored (do_flush driver batch c).0 ≡ stored c ++ rows batch)
  do_flush-stored batch c =
      let n = flush_timeout (length batch) in
      let c1 = (prepare_batch n c).0 in
      let c2 = append_rows driver batch c1 in
      rw (open_flush batch c) (
        db.sends c2,
        db.send-stored c2
            ∙ cc (
              append_rows-stored batch c1,
              append_rows-pending batch c1,
              db.prepare-stored n c,
              db.prepare-pending n c,
            ),
      )

  first_flush :
      (max : ℕ) (batch : List (Span F)) (st : Stats) (c : Conn)
      → (flush_with_retry driver max batch st c).1 ≡ (do_flush driver batch c).0
  unfolding flush_with_retry flush_from
  first_flush max batch st c = rw (add-one, (do_flush-stored batch c).0, flush_from) refl

  flush_batch-stored :
      (batch : List (Span F)) (s : ClickHouseStore F Conn)
      → (stored (flush_batch driver batch s).conn ≡ stored s.conn ++ rows batch)
        × ((flush_batch driver batch s).write_queue ≡ s.write_queue)
  unfolding flush_batch
  flush_batch-stored [] s = (sym (append-nil (stored s.conn)), refl)
  flush_batch-stored (span ∷ spans) s = (
    ap stored (first_flush s.max_retries (span ∷ spans) s.stats s.conn)
        ∙ (do_flush-stored (span ∷ spans) s.conn).1,
    refl,
  )

  -- All rows of a store: those in the database, in the batch and in the queue, in this order.
  abbrev pub all_rows : ClickHouseStore F Conn → List (Row F)
  all_rows s = stored s.conn ++ rows (s.batch ++ s.write_queue)

  flushed-all_rows :
      (batch queue : List (Span F)) (c c' : Conn)
      → stored c' ≡ stored c ++ rows batch
      → stored c' ++ rows ([] ++ queue) ≡ stored c ++ rows (batch ++ queue)
  flushed-all_rows batch queue c c' e = cc (
    e,
    append_assoc (stored c) (rows batch) (rows queue),
    map-append {A = Span F} {B = Row F} (row_of parse_ip) batch queue,
  )

  append_span-all_rows :
      (span : Span F) (queue : List (Span F)) (s : ClickHouseStore F Conn)
      → s.write_queue ≡ queue
      → all_rows (append_span driver span s) ≡ stored s.conn ++ rows (s.batch ++ (span ∷ queue))
  unfolding append_span
  append_span-all_rows span queue s e =
      let batch = s.batch ++ (span ∷ []) in
      elim (Bool-cases (leb s.batch_size (length batch))) [
        | inl full ↦ rw full (
            ap (λ q. stored (flush_batch driver batch s).conn ++ rows q)
              ((flush_batch-stored batch s).1 ∙ e)
            ∙ (flushed-all_rows batch queue s.conn _ (flush_batch-stored batch s).0
                ∙ ap (λ q. stored s.conn ++ rows q) (append_assoc s.batch (span ∷ []) queue)))
        | inr small ↦
            rw (small, e)
              (ap (λ q. stored s.conn ++ rows q) (append_assoc s.batch (span ∷ []) queue))
      ]

  receive-all_rows : (s : ClickHouseStore F Conn) → all_rows (receive driver s) ≡ all_rows s
  unfolding receive
  receive-all_rows s = elim (List-cases s.write_queue) [
    | inl e ↦ rw (e, receive) (ap (λ q. stored s.conn ++ rows (s.batch ++ q)) e)
    | inr (span, queue, e) ↦
        rw (e, receive) (append_span-all_rows span queue (record s { write_queue = queue }) refl)
  ]

  -- A flush of the batch, which is then empty.
  flush-all_rows :
      (s : ClickHouseStore F Conn) (end : Bool)
      → all_rows (record (flush_batch driver s.batch s) { batch = []; stopped = end }) ≡ all_rows s
  flush-all_rows s end =
      ap (λ q. stored (flush_batch driver s.batch s).conn ++ rows q)
        (flush_batch-stored s.batch s).1
      ∙ flushed-all_rows s.batch s.write_queue s.conn _ (flush_batch-stored s.batch s).0

  tick-all_rows : (s : ClickHouseStore F Conn) → all_rows (tick driver s) ≡ all_rows s
  unfolding tick
  tick-all_rows s = elim (Bool-cases (ltb 0 (length s.batch))) [
    | inl some_spans ↦ rw some_spans (flush-all_rows s s.stopped)
    | inr empty ↦ rw empty refl
  ]

  stop-all_rows : (s : ClickHouseStore F Conn) → all_rows (stop driver s) ≡ all_rows s
  unfolding stop
  stop-all_rows s = flush-all_rows s true

  more-rows :
      (c : Conn) (batch queue new : List (Span F))
      → stored c ++ rows (batch ++ (queue ++ new)) ≡ (stored c ++ rows (batch ++ queue)) ++ rows new
  more-rows c batch queue new = cc (
    append_assoc batch queue new,
    map-append {A = Span F} {B = Row F} (row_of parse_ip) (batch ++ queue) new,
    append_assoc (stored c) (rows (batch ++ queue)) (rows new),
  )

  -- A step of the writer, which does nothing once it has stopped.
  writer-all_rows :
      (ended : Bool) (s s' : ClickHouseStore F Conn)
      → all_rows s' ≡ all_rows s
      → all_rows (if ended then s else s') ≡ all_rows s ++ []
  writer-all_rows true s s' h = sym (append-nil (all_rows s))
  writer-all_rows false s s' h = h ∙ sym (append-nil (all_rows s))

  saved-all_rows :
      (span : Span F) (s : ClickHouseStore F Conn)
      → all_rows (save_span span s).0 ≡ all_rows s ++ rows (accepted_by driver (saved span) s)
  unfolding save_span
  saved-all_rows span s = elim (Bool-cases (ltb (length s.write_queue) s.queue_capacity)) [
    | inl fits ↦ rw fits (more-rows s.conn s.batch s.write_queue (span ∷ []))
    | inr full ↦ rw full (sym (append-nil (all_rows s)))
  ]

  act-all_rows :
      (a : Action driver) (s : ClickHouseStore F Conn)
      → all_rows (act driver a s) ≡ all_rows s ++ rows (accepted_by driver a s)
  unfolding act
  act-all_rows (saved span) s = saved-all_rows span s
  act-all_rows received s = writer-all_rows s.stopped s (receive driver s) (receive-all_rows s)
  act-all_rows ticked s = writer-all_rows s.stopped s (tick driver s) (tick-all_rows s)
  act-all_rows stopped s = writer-all_rows s.stopped s (stop driver s) (stop-all_rows s)

  -- With a database that takes every batch, the rows stored behind any sequence of actions, with the
  -- rows of the spans in the batch and in the queue behind them, are the rows that were there before
  -- and those of the spans that `SaveSpan` accepted: each once, in the order of the calls.
  pub run-all_rows :
      (actions : List (Action driver)) (s : ClickHouseStore F Conn)
      → all_rows (run driver actions s) ≡ all_rows s ++ rows (accepted driver actions s)
  unfolding run accepted
  run-all_rows [] s = sym (append-nil (all_rows s))
  run-all_rows (a ∷ actions) s =
      run-all_rows actions (act driver a s)
      ∙ (ap (λ r. r ++ rows (accepted driver actions (act driver a s))) (act-all_rows a s)
          ∙ cc (
            append_assoc (all_rows s) (rows (accepted_by driver a s))
                (rows (accepted driver actions (act driver a s))),
            map-append {A = Span F} {B = Row F} (row_of parse_ip) (accepted_by driver a s)
                (accepted driver actions (act driver a s)),
          ))
