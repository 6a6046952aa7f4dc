-- ===== src/Storage/Drain.antt =====
-- pkg/storage/clickhouse.go: what the writer comes to with the spans that are waiting for it.
use a.Prelude.{
  ℕ, zero, suc, ◌≤◌, ◌≡◌, refl, sym, subst, ◌∙◌, ap, arith, Bool, true, false, List, [], ◌∷◌, ◌++◌,
  append-nil, ltb, leb, if◌then◌else◌, length, drop, length-drop, Bool-cases, inl, inr,
}
use a.Model.Span.{Span}
use a.Storage.Delivery.{ReliableDatabase, rows, all_rows, run-all_rows}
use a.Storage.Writer.{
  Driver, ClickHouseStore, flush_batch, append_span, receive, tick, Action, received, ticked, act,
  run, accepted,
}

no_element : {A : Type 0} (xs : List A) → ltb 0 (length xs) ≡ false → xs ≡ []
no_element [] e = refl
no_element (x ∷ xs) e = absurd (ground arith)

choose : {A : Type 0} (b : Bool) (x y : A) → b ≡ false → (if b then x else y) ≡ y
choose true x y e = absurd (cc)
choose false x y e = refl

module _ {F : Type 0} (driver : Driver F) where
  open driver use {Conn}

  -- A number of receives, and the ticker behind them.
  abbrev pub drain : ℕ → List (Action driver)
  drain zero = ticked ∷ []
  drain (suc n) = received ∷ drain n

  flush-keeps :
      (batch : List (Span F)) (s : ClickHouseStore F Conn)
      → ((flush_batch driver batch s).write_queue ≡ s.write_queue)
        × ((flush_batch driver batch s).stopped ≡ s.stopped)
  unfolding flush_batch
  flush-keeps [] s = (refl, refl)
  flush-keeps (span ∷ spans) s = (refl, refl)

  append_span-keeps :
      (span : Span F) (s : ClickHouseStore F Conn)
      → ((append_span driver span s).write_queue ≡ s.write_queue)
        × ((append_span driver span s).stopped ≡ s.stopped)
  unfolding append_span
  append_span-keeps span s =
      elim (Bool-cases (leb s.batch_size (length (s.batch ++ (span ∷ []))))) [
        | inl full ↦ rw full (flush-keeps (s.batch ++ (span ∷ [])) s)
        | inr more ↦ rw more (refl, refl)
      ]

  -- A receive takes the first span from the queue.
  receive-from :
      (queue : List (Span F)) (s : ClickHouseStore F Conn)
      → s.write_queue ≡ queue
      → ((receive driver s).write_queue ≡ drop 1 queue) × ((receive driver s).stopped ≡ s.stopped)
  unfolding receive
  receive-from [] s e = rw (e, receive) (e, refl)
  receive-from (span ∷ queue) s e =
      rw (e, receive) (append_span-keeps span (record s { write_queue = queue }))

  tick-empties :
      (s : ClickHouseStore F Conn)
      → ((tick driver s).write_queue ≡ s.write_queue) × ((tick driver s).batch ≡ [])
  unfolding tick
  tick-empties s = elim (Bool-cases (ltb 0 (length s.batch))) [
    | inl some_left ↦ rw some_left ((flush-keeps s.batch s).0, refl)
    | inr none_left ↦ rw none_left (refl, no_element s.batch none_left)
  ]

  -- A writer that runs empties the queue and the batch.
  drain-empties :
      (n : ℕ) (s : ClickHouseStore F Conn)
      → s.stopped ≡ false
      → length s.write_queue ≤ n
      → ((run driver (drain n) s).write_queue ≡ []) × ((run driver (drain n) s).batch ≡ [])
  unfolding run act
  drain-empties zero s running short =
      let (queue, batch) = tick-empties s in
      subst (λ (t : ClickHouseStore F Conn). (t.write_queue ≡ []) × (t.batch ≡ []))
        (sym (choose s.stopped s (tick driver s) running))
        (queue ∙ no_element s.write_queue (ground arith), batch)
  drain-empties (suc n) s running short =
      let (queue, still) = receive-from s.write_queue s refl in
      subst
        (λ (t : ClickHouseStore F Conn).
          ((run driver (drain n) t).write_queue ≡ []) × ((run driver (drain n) t).batch ≡ []))
        (sym (choose s.stopped s (receive driver s) running))
        (drain-empties n (receive driver s) (still ∙ running)
          (omega (arith, ap length queue, length-drop 1 s.write_queue)))

  drain-accepted : (n : ℕ) (s : ClickHouseStore F Conn) → accepted driver (drain n) s ≡ []
  unfolding accepted
  drain-accepted zero s = refl
  drain-accepted (suc n) s = drain-accepted n (act driver received s)

  module _ (db : ReliableDatabase driver) where
    open db use {stored}

    -- Every span that waits is stored in the end: with a database that takes every batch, a writer
    -- that has not stopped, has received as often as the queue is long or more and then gets its tick
    -- leaves nothing in the queue and the batch, and the database then holds, behind what it held,
    -- the rows of the batch and of the queue, in their order.
    pub drain-stored :
        (n : ℕ) (s : ClickHouseStore F Conn)
        → s.stopped ≡ false
        → length s.write_queue ≤ n
        → ((run driver (drain n) s).write_queue ≡ [])
          × ((run driver (drain n) s).batch ≡ [])
          × (stored (run driver (drain n) s).conn
              ≡ stored s.conn ++ rows driver db (s.batch ++ s.write_queue))
    drain-stored n s running short =
        let s' = run driver (drain n) s in
        let (queue, batch) = drain-empties n s running short in
        let all : all_rows driver db s'
            ≡ all_rows driver db s ++ rows driver db (accepted driver (drain n) s) =
          run-all_rows driver db (drain n) s in
        (
          queue,
          batch,
          sym (
                ap (λ q. stored s'.conn ++ rows driver db q)
                  (ap (λ b. b ++ s'.write_queue) batch ∙ queue)
                ∙ append-nil (stored s'.conn))
              ∙ (all
                  ∙ (ap (λ new. all_rows driver db s ++ rows driver db new) (drain-accepted n s)
                      ∙ append-nil (all_rows driver db s))),
        )
