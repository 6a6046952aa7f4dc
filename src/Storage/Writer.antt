-- ===== src/Storage/Writer.antt =====
-- pkg/storage/clickhouse.go: `SaveSpan` and the goroutine `batchWriter` with its flushes. A store
-- has one writer, so its local batch is a field; each case of its `select` is a step. The pauses
-- between attempts and the log are not modelled.
use a.Prelude.{
  ℕ, zero, suc, ◌+◌, ◌/◌, Bool, true, false, Option, List, [], ◌∷◌, ◌++◌, ltb, leb, if◌then◌else◌,
  length,
}
use a.Golang.Counter.{add_u64}
use a.Golang.Int.{ℤ, pos, negsuc}
use a.Golang.Slice.{Bytes}
use a.Model.Span.{Span}
use a.Storage.Row.{Row, row_of}

-- The counters of `ClickHouseStats` that the code writes.
pub record Stats : Type 0 where
  pub total_spans : ℕ
  pub flushed_batches : ℕ
  pub failed_batches : ℕ
  pub retried_batches : ℕ
  pub dropped_spans : ℕ

-- The settings of `config.ClickHouseConfig` that size the store.
pub record ClickHouseConfig : Type 0 where
  pub batch_size : ℤ
  pub queue_capacity : ℤ
  pub max_retries : ℤ

-- The database driver, which is not part of the repository: `PrepareBatch` with its timeout in
-- seconds, `Append` and `Send`, each with whether it returned nil.
pub record Driver (F : Type 0) : Type 1 where
  pub Conn : Type 0
  pub prepare_batch : ℕ → Conn → Conn × Bool
  pub append : Row F → Conn → Conn × Bool
  pub send : Conn → Conn × Bool
  -- `net.ParseIP`
  pub parse_ip : Bytes → Option Bytes

pub record ClickHouseStore (F Conn : Type 0) : Type 0 where
  pub conn : Conn
  pub write_queue : List (Span F)
  pub queue_capacity : ℕ
  pub batch_size : ℕ
  pub max_retries : ℕ
  pub stats : Stats
  pub batch : List (Span F)
  pub stopped : Bool

-- A setting that is positive, or the default.
abbrev pub setting_or : ℤ → ℕ → ℕ
setting_or (pos zero) default = default
setting_or (pos (suc n)) default = suc n
setting_or (negsuc n) default = default

unfoldable pub new_click_house_store :
    {F Conn : Type 0} → ClickHouseConfig → Conn → ClickHouseStore F Conn
new_click_house_store cfg conn = record {
  conn = conn;
  write_queue = [];
  queue_capacity = setting_or cfg.queue_capacity 100000;
  batch_size = setting_or cfg.batch_size 10000;
  max_retries = setting_or cfg.max_retries 3;
  stats = record {
    total_spans = 0;
    flushed_batches = 0;
    failed_batches = 0;
    retried_batches = 0;
    dropped_spans = 0;
  };
  batch = [];
  stopped = false;
}

-- The timeout of a flush of n spans, in seconds.
unfoldable pub flush_timeout : ℕ → ℕ
flush_timeout n = if ltb (n / 1000) 10 then 10 else if ltb 60 (n / 1000) then 60 else n / 1000

-- `SaveSpan`, and whether it returned nil.
unfoldable pub save_span :
    {F Conn : Type 0} → Span F → ClickHouseStore F Conn → ClickHouseStore F Conn × Bool
save_span span s =
    let counted = record s.stats { total_spans = add_u64 s.stats.total_spans 1 } in
    if ltb (length s.write_queue) s.queue_capacity
    then (record s { stats = counted; write_queue = s.write_queue ++ (span ∷ []) }, true)
    else (
      record s { stats = record counted { dropped_spans = add_u64 counted.dropped_spans 1 } },
      false,
    )

module _ {F : Type 0} (driver : Driver F) where
  open driver use {Conn, prepare_batch, append, send, parse_ip}

  -- The loop of `doFlush`: a row that is refused is logged and left out.
  unfoldable pub append_rows : List (Span F) → Conn → Conn
  append_rows [] c = c
  append_rows (span ∷ spans) c = append_rows spans (append (row_of parse_ip span) c).0

  -- `doFlush`, and whether it returned nil.
  unfoldable pub do_flush : List (Span F) → Conn → Conn × Bool
  do_flush batch c =
      let (prepared, ready) = prepare_batch (flush_timeout (length batch)) c in
      if ready then send (append_rows batch prepared) else (prepared, false)

  -- The loop of `flushWithRetry` from an attempt on, with the attempts that are left.
  unfoldable pub flush_from : ℕ → ℕ → List (Span F) → Stats → Conn → Stats × Conn × Bool
  flush_from zero attempt batch st c = (st, c, false)
  flush_from (suc left) attempt batch st c =
      let st1 : Stats =
        if ltb 0 attempt
        then record st { retried_batches = add_u64 st.retried_batches 1 }
        else st in
      elim (do_flush batch c).1 [
        | true ↦ (st1, (do_flush batch c).0, true)
        | false ↦ flush_from left (attempt + 1) batch st1 (do_flush batch c).0
      ]

  -- `flushWithRetry`, and whether it returned nil.
  unfoldable pub flush_with_retry : ℕ → List (Span F) → Stats → Conn → Stats × Conn × Bool
  flush_with_retry max_retries batch st c = flush_from (max_retries + 1) 0 batch st c

  -- `flushBatch`
  unfoldable pub flush_batch : List (Span F) → ClickHouseStore F Conn → ClickHouseStore F Conn
  flush_batch [] s = s
  flush_batch (span ∷ spans) s =
      let (st, c, done) = flush_with_retry s.max_retries (span ∷ spans) s.stats s.conn in
      record s {
        conn = c;
        stats =
            if done
            then record st { flushed_batches = add_u64 st.flushed_batches 1 }
            else record st { failed_batches = add_u64 st.failed_batches 1 };
      }

  -- The case of `batchWriter` for a span that it took out of the queue, and the step that takes it;
  -- an empty queue leaves the writer waiting.
  unfoldable pub append_span : Span F → ClickHouseStore F Conn → ClickHouseStore F Conn
  append_span span s =
      let batch = s.batch ++ (span ∷ []) in
      if leb s.batch_size (length batch)
      then record (flush_batch batch s) { batch = [] }
      else record s { batch = batch }

  unfoldable pub receive : ClickHouseStore F Conn → ClickHouseStore F Conn
  receive s = elim s.write_queue [
    | [] ↦ s
    | span ∷ queue ↦ append_span span (record s { write_queue = queue })
  ]

  -- The case of the ticker
  unfoldable pub tick : ClickHouseStore F Conn → ClickHouseStore F Conn
  tick s = if ltb 0 (length s.batch) then record (flush_batch s.batch s) { batch = [] } else s

  -- The case of `stopChan`: the batch is flushed, the queue is left, and the writer ends.
  unfoldable pub stop : ClickHouseStore F Conn → ClickHouseStore F Conn
  stop s = record (flush_batch s.batch s) { batch = []; stopped = true }

  -- What can happen to a store: a call of `SaveSpan`, or a step of the writer.
  pub data Action : Type 0 where
    saved : Span F → Action
    received : Action
    ticked : Action
    stopped : Action

  unfoldable pub act : Action → ClickHouseStore F Conn → ClickHouseStore F Conn
  act (saved span) s = (save_span span s).0
  act received s = if s.stopped then s else receive s
  act ticked s = if s.stopped then s else tick s
  act stopped s = if s.stopped then s else stop s

  -- The spans that `SaveSpan` accepted in an action.
  abbrev pub accepted_by : Action → ClickHouseStore F Conn → List (Span F)
  accepted_by (saved span) s = if (save_span span s).1 then span ∷ [] else []
  accepted_by _ s = []

  -- A sequence of actions, and what it accepted.
  unfoldable pub run : List Action → ClickHouseStore F Conn → ClickHouseStore F Conn
  run [] s = s
  run (a ∷ actions) s = run actions (act a s)

  unfoldable pub accepted : List Action → ClickHouseStore F Conn → List (Span F)
  accepted [] s = []
  accepted (a ∷ actions) s = accepted_by a s ++ accepted actions (act a s)
