-- ===== src/Command/App.antt =====
-- cmd/main.go: `handleSpan`, the span handler that joins the correlator to the sampler and the store.
-- The log is not modelled, nor the statistics that are only read for it.
use a.Prelude.{ℕ, Bool, List, [], ◌∷◌, if◌then◌else◌}
use a.Golang.Result.{Result, ok, ◌>>=◌}
use a.Model.Span.{Span}
use a.Sampling.TraceLevel.{Sampler, TraceLevelSampler, should_sample}
use a.Storage.Writer.{ClickHouseStore, save_span}

-- The parts of `App` that the handler uses. The sampler's inner one is the dynamic sampler.
pub record App (F S Conn : Type 0) : Type 0 where
  pub sampler : TraceLevelSampler S
  pub store : ClickHouseStore F Conn

module _ {F : Type 0} (inner : Sampler F) {Conn : Type 0} where
  open inner use {State, Env}

  -- The end of `handleSpan`; an error of `SaveSpan` is logged.
  abbrev pub keep_span : Span F → Bool → App F State Conn → App F State Conn
  keep_span span sampled app =
      if sampled then record app { store = (save_span span app.store).0 } else app

  -- `handleSpan`, with the time and what the environment gives to the inner sampler.
  unfoldable pub handle_span : Span F → ℕ → Env → App F State Conn → Result (App F State Conn)
  handle_span span now env app = do
    (sampler, sampled) ← should_sample inner app.sampler span now env
    ok (keep_span span sampled (record app { sampler = sampler }))

  -- The calls of the handler, one behind the other.
  unfoldable pub handle_all : List (Span F × ℕ × Env) → App F State Conn → Result (App F State Conn)
  handle_all [] app = ok app
  handle_all ((span, now, env) ∷ calls) app = do
    app' ← handle_span span now env app
    handle_all calls app'
