-- ===== src/Storage/Bounds.antt =====
-- pkg/storage/clickhouse.go: the bounds of the queue and the batch, and the counters of `SaveSpan`,
-- with any database.
use a.Prelude.{
  ℕ, zero, suc, ◌+◌, ◌^◌, ◌≤◌, ◌<◌, ◌≡◌, refl, ap, ◌∙◌, Bool, true, false, List, [], ◌∷◌, ◌++◌,
  arith, ltb, leb, if◌then◌else◌, length, length-append, Bool-cases, List-cases, inl, inr,
}
use a.Golang.Counter.{add_u64}
use a.Golang.Int.{ℤ, pos, negsuc}
use a.Model.Span.{Span}
use a.Storage.Writer.{
  Stats, Driver, ClickHouseStore, ClickHouseConfig, new_click_house_store, setting_or, do_flush,
  flush_from, flush_with_retry, flush_batch, append_span, save_span, receive, tick, stop, Action,
  act, accepted_by, run, accepted, saved, received, ticked, stopped,
}

module _ {F : Type 0} (driver : Driver F) where
  open driver use {Conn}

  -- A store behind n calls of `SaveSpan`, k of them accepted.
  pub record IsStore (s : ClickHouseStore F Conn) (n k : ℕ) : Type 0 where
    pub queue_fits : length s.write_queue ≤ s.queue_capacity
    pub batch_open : length s.batch < s.batch_size
    pub totals : s.stats.total_spans ≡ n
    pub split : k + s.stats.dropped_spans ≡ n

  flush_from-counters :
      (left attempt : ℕ) (batch : List (Span F)) (st : Stats) (c : Conn)
      → ((flush_from driver left attempt batch st c).0.total_spans ≡ st.total_spans)
        × ((flush_from driver left attempt batch st c).0.dropped_spans ≡ st.dropped_spans)
  unfolding flush_from
  flush_from-counters zero attempt batch st c = (refl, refl)
  flush_from-counters (suc left) attempt batch st c =
      let st1 : Stats =
        if ltb 0 attempt
        then record st { retried_batches = add_u64 st.retried_batches 1 }
        else st in
      ground (arith, flush_from-counters left (attempt + 1) batch st1 (do_flush driver batch c).0)

  flush_batch-counters :
      (batch : List (Span F)) (s : ClickHouseStore F Conn)
      → ((flush_batch driver batch s).stats.total_spans ≡ s.stats.total_spans)
        × ((flush_batch driver batch s).stats.dropped_spans ≡ s.stats.dropped_spans)
  unfolding flush_batch flush_with_retry
  flush_batch-counters [] s = (refl, refl)
  flush_batch-counters (span ∷ spans) s =
      ground (arith, flush_from-counters (s.max_retries + 1) 0 (span ∷ spans) s.stats s.conn)

  -- A store whose batch was flushed.
  flush-IsStore :
      (batch : List (Span F)) (s : ClickHouseStore F Conn) (end : Bool) (n k : ℕ)
      → IsStore s n k
      → IsStore (record (flush_batch driver batch s) { batch = []; stopped = end }) n k
  unfolding flush_batch
  flush-IsStore [] s end n k i = record {
    queue_fits = i.queue_fits;
    batch_open = omega (arith, i.batch_open);
    totals = i.totals;
    split = i.split;
  }
  flush-IsStore (span ∷ spans) s end n k i =
      let c = flush_batch-counters (span ∷ spans) s in
      record {
        queue_fits = i.queue_fits;
        batch_open = omega (arith, i.batch_open);
        totals = c.0 ∙ i.totals;
        split = ap (◌+◌ k) c.1 ∙ i.split;
      }

  append_span-IsStore :
      (span : Span F) (s : ClickHouseStore F Conn) (n k : ℕ)
      → IsStore s n k
      → IsStore (append_span driver span s) n k
  unfolding append_span
  append_span-IsStore span s n k i =
      elim (Bool-cases (leb s.batch_size (length (s.batch ++ (span ∷ []))))) [
        | inl full ↦ rw full (
            flush-IsStore (s.batch ++ (span ∷ [])) s
              (flush_batch driver (s.batch ++ (span ∷ [])) s).stopped n k i)
        | inr small ↦ rw small (record {
          queue_fits = i.queue_fits;
          batch_open = ground (arith, small);
          totals = i.totals;
          split = i.split;
        })
      ]

  receive-IsStore :
      (s : ClickHouseStore F Conn) (n k : ℕ) → IsStore s n k → IsStore (receive driver s) n k
  unfolding receive
  receive-IsStore s n k i = elim (List-cases s.write_queue) [
    | inl e ↦
        rw (e, receive)
          (record {
            queue_fits = i.queue_fits;
            batch_open = i.batch_open;
            totals = i.totals;
            split = i.split;
          })
    | inr (span, queue, e) ↦
        rw (e, receive)
          (append_span-IsStore span (record s { write_queue = queue }) n k
            (record {
              queue_fits = omega (arith, i.queue_fits, ap length e);
              batch_open = i.batch_open;
              totals = i.totals;
              split = i.split;
            }))
  ]

  tick-IsStore :
      (s : ClickHouseStore F Conn) (n k : ℕ) → IsStore s n k → IsStore (tick driver s) n k
  unfolding tick
  tick-IsStore s n k i = elim (Bool-cases (ltb 0 (length s.batch))) [
    | inl full ↦ rw full (flush-IsStore s.batch s (flush_batch driver s.batch s).stopped n k i)
    | inr empty ↦ rw empty i
  ]

  save_span-IsStore :
      (span : Span F) (s : ClickHouseStore F Conn) (n k : ℕ)
      → n + 1 < 2 ^ 64
      → IsStore s n k
      → IsStore (save_span span s).0 (n + 1) (k + length (accepted_by driver (saved span) s))
  unfolding save_span
  save_span-IsStore span s n k small i =
      elim (Bool-cases (ltb (length s.write_queue) s.queue_capacity)) [
        | inl fits ↦ rw fits (record {
          queue_fits = ground (arith, fits, length-append s.write_queue (span ∷ []));
          batch_open = i.batch_open;
          totals = omega (arith, i.totals, small);
          split = omega (arith, i.split);
        })
        | inr full ↦ rw full (record {
          queue_fits = i.queue_fits;
          batch_open = i.batch_open;
          totals = omega (arith, i.totals, small);
          split = omega (arith, i.split, small);
        })
      ]

  -- The number of calls of `SaveSpan` in an action.
  abbrev pub calls_in : Action driver → ℕ
  calls_in (saved span) = 1
  calls_in _ = 0

  abbrev pub calls : List (Action driver) → ℕ
  calls [] = 0
  calls (a ∷ actions) = calls_in a + calls actions

  IsStore-cast :
      (s : ClickHouseStore F Conn) {n m k j : ℕ} → n ≡ m → k ≡ j → IsStore s n k → IsStore s m j
  IsStore-cast s e f i = rw (← e, ← f) i

  step-IsStore :
      (ended : Bool) (s s' : ClickHouseStore F Conn) (n k : ℕ)
      → IsStore s n k
      → IsStore s' n k
      → IsStore (if ended then s else s') (n + 0) (k + 0)
  step-IsStore true s s' n k i j = IsStore-cast s (omega arith) (omega arith) i
  step-IsStore false s s' n k i j = IsStore-cast s' (omega arith) (omega arith) j

  act-IsStore :
      (a : Action driver) (s : ClickHouseStore F Conn) (n k : ℕ)
      → n + calls_in a < 2 ^ 64
      → IsStore s n k
      → IsStore (act driver a s) (n + calls_in a) (k + length (accepted_by driver a s))
  unfolding act stop
  act-IsStore (saved span) s n k small i = save_span-IsStore span s n k small i
  act-IsStore received s n k small i = step-IsStore s.stopped s _ n k i (receive-IsStore s n k i)
  act-IsStore ticked s n k small i = step-IsStore s.stopped s _ n k i (tick-IsStore s n k i)
  act-IsStore stopped s n k small i =
      step-IsStore s.stopped s _ n k i (flush-IsStore s.batch s true n k i)

  run-IsStore :
      (actions : List (Action driver)) (s : ClickHouseStore F Conn) (n k : ℕ)
      → n + calls actions < 2 ^ 64
      → IsStore s n k
      → IsStore (run driver actions s) (n + calls actions) (k + length (accepted driver actions s))
  unfolding run accepted
  run-IsStore [] s n k small i = IsStore-cast s (omega arith) (omega arith) i
  run-IsStore (a ∷ actions) s n k small i =
      IsStore-cast _ (omega arith)
        (omega (
          arith,
          length-append (accepted_by driver a s) (accepted driver actions (act driver a s)),
        ))
        (run-IsStore actions (act driver a s) (n + calls_in a) (k + length (accepted_by driver a s))
          (omega (arith, small)) (act-IsStore a s n k (omega (arith, small)) i))

  setting_or-positive : (n : ℤ) → 0 < setting_or n 10000
  setting_or-positive (pos zero) = omega arith
  setting_or-positive (pos (suc n)) = omega arith
  setting_or-positive (negsuc n) = omega arith

  new-IsStore :
      (cfg : ClickHouseConfig) (conn : Conn) → IsStore (new_click_house_store cfg conn) 0 0
  unfolding new_click_house_store
  new-IsStore cfg conn = record {
    queue_fits = omega arith;
    batch_open = setting_or-positive cfg.batch_size;
    totals = refl;
    split = refl;
  }

  -- Whatever the database does, behind any sequence of actions on a new store with fewer than 2^64
  -- calls of `SaveSpan` among them, the queue holds no more than its capacity and the batch fewer spans
  -- than the size at which it is flushed; the total counts the calls, and the calls that did not
  -- accept their span are counted as dropped.
  pub run-bounds :
      (cfg : ClickHouseConfig) (conn : Conn) (actions : List (Action driver))
      → calls actions < 2 ^ 64
      → IsStore
          (run driver actions (new_click_house_store cfg conn))
          (calls actions)
          (length (accepted driver actions (new_click_house_store cfg conn)))
  run-bounds cfg conn actions small = IsStore-cast _ (omega arith) (omega arith) (
      run-IsStore actions (new_click_house_store cfg conn) 0 0 (omega (arith, small))
        (new-IsStore cfg conn))
