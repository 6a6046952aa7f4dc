-- ===== src/Tests/Storage.antt =====
-- The span store: a database that is a list of rows, and instances of the theorems.
use a.Prelude.{
  ℕ, suc, ◌+◌, ◌≤◌, ◌≡◌, refl, ◌⊎◌, true, false, none, List, [], ◌∷◌, ◌++◌, arith, length, ltb,
}
use a.Golang.Text.{text}
use a.Golang.Int.{pos}
use a.Model.Span.{Span}
use a.Storage.Bounds.{IsStore, calls, run-bounds}
use a.Storage.Drain.{drain, drain-stored}
use a.Storage.Delivery.{ReliableDatabase, all_rows, rows, run-all_rows}
use a.Storage.Retry.{after, fail, retried, flush_with_retry_lem}
use a.Storage.Row.{Row, row_of}
use a.Storage.Writer.{
  Stats, Driver, ClickHouseConfig, ClickHouseStore, new_click_house_store, do_flush,
  flush_with_retry, flush_from, flush_batch, append_rows, append_span, save_span, receive, tick,
  stop, act, Action, run, accepted, saved, received, ticked, stopped,
}
use a.Tests.Instances.{span_of}

-- A database that keeps the rows sent and the rows of the batch at hand.
abbrev list_driver : Driver ℕ
list_driver = record {
  Conn = List (Row ℕ) × List (Row ℕ);
  prepare_batch = λ n c. ((c.0, []), true);
  append = λ row c. ((c.0, c.1 ++ (row ∷ [])), true);
  send = λ c. ((c.0 ++ c.1, []), true);
  parse_ip = λ s. none;
}

abbrev list_database : ReliableDatabase list_driver
list_database = record {
  stored = λ c. c.0;
  pending = λ c. c.1;
  prepares = λ n c. refl;
  prepare-pending = λ n c. refl;
  prepare-stored = λ n c. refl;
  append-pending = λ row c. refl;
  append-stored = λ row c. refl;
  sends = λ c. refl;
  send-stored = λ c. refl;
}

-- A database that refuses the first two batches.
abbrev slow_driver : Driver ℕ
slow_driver = record {
  Conn = ℕ;
  prepare_batch = λ n c. (c, true);
  append = λ row c. (c, true);
  send = λ c. (c + 1, ltb 1 c);
  parse_ip = λ s. none;
}

-- Batches of two spans, and a queue of two.
abbrev small_config : ClickHouseConfig
small_config = record { batch_size = pos 2; queue_capacity = pos 2; max_retries = pos 3 }

abbrev first : Span ℕ
first = span_of (text "t1") 5 0

abbrev second : Span ℕ
second = span_of (text "t2") 7 0

abbrev no_counts : Stats
no_counts = record {
  total_spans = 0;
  flushed_batches = 0;
  failed_batches = 0;
  retried_batches = 0;
  dropped_spans = 0;
}

-- The third span does not fit into the queue, and the second fills the batch.
abbrev actions : (driver : Driver ℕ) → List (Action driver)
actions driver =
    saved first
    ∷ saved second
    ∷ saved first
    ∷ received
    ∷ received
    ∷ saved first
    ∷ ticked
    ∷ stopped
    ∷ []

abbrev empty_store : ClickHouseStore ℕ (List (Row ℕ) × List (Row ℕ))
empty_store = new_click_house_store small_config ([], [])

stored_rows :
    (run list_driver (actions list_driver) empty_store).conn.0
    ≡ row_of list_driver.parse_ip first ∷ row_of list_driver.parse_ip second ∷ []
unfolding run act new_click_house_store save_span receive append_span flush_batch flush_with_retry
    flush_from do_flush append_rows tick stop
stored_rows = refl

run-all_rows_example :
    all_rows list_driver list_database (run list_driver (actions list_driver) empty_store)
    ≡ all_rows list_driver list_database empty_store
      ++ rows list_driver list_database (accepted list_driver (actions list_driver) empty_store)
run-all_rows_example = run-all_rows list_driver list_database (actions list_driver) empty_store

run-bounds_example :
    IsStore slow_driver
      (run slow_driver (actions slow_driver) (new_click_house_store small_config 0))
      (calls slow_driver (actions slow_driver))
      (length (accepted slow_driver (actions slow_driver) (new_click_house_store small_config 0)))
run-bounds_example = run-bounds slow_driver small_config 0 (actions slow_driver) (omega arith)

flush_with_retry_example :
    ((k : ℕ) × (k ≤ 3)
      × (fail slow_driver (first ∷ []) k 0 ≡ true)
      × ((do_flush slow_driver (first ∷ []) (after slow_driver (first ∷ []) k 0)).1 ≡ true)
      × (flush_with_retry slow_driver 3 (first ∷ []) no_counts 0 ≡ (
        retried slow_driver (first ∷ []) k no_counts,
        after slow_driver (first ∷ []) (suc k) 0,
        true,
      )))
    ⊎ ((fail slow_driver (first ∷ []) 4 0 ≡ true)
        × (flush_with_retry slow_driver 3 (first ∷ []) no_counts 0 ≡ (
          retried slow_driver (first ∷ []) 3 no_counts,
          after slow_driver (first ∷ []) 4 0,
          false,
        )))
flush_with_retry_example = flush_with_retry_lem slow_driver (first ∷ []) 3 no_counts 0 (omega arith)

-- A store with a span in its batch and one in its queue.
abbrev waiting : ClickHouseStore ℕ (List (Row ℕ) × List (Row ℕ))
waiting = record empty_store { batch = first ∷ []; write_queue = first ∷ [] }

drain-stored_example :
    ((run list_driver (drain list_driver 1) waiting).write_queue ≡ [])
    × ((run list_driver (drain list_driver 1) waiting).batch ≡ [])
    × (list_database.stored (run list_driver (drain list_driver 1) waiting).conn
        ≡ list_database.stored waiting.conn
          ++ rows list_driver list_database (waiting.batch ++ waiting.write_queue))
unfolding new_click_house_store
drain-stored_example = drain-stored list_driver list_database 1 waiting refl (omega arith)
