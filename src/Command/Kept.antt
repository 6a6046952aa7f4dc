-- ===== src/Command/Kept.antt =====
-- cmd/main.go: which spans `handleSpan` hands to the store.
use a.Prelude.{
  ℕ, suc, ◌+◌, ◌≤◌, ◌<◌, ◌≢◌, ◌≡◌, refl, sym, ◌∙◌, ap, subst, arith, Bool, true, false, List, [],
  ◌∷◌, ◌++◌, append_assoc, append-nil, ltb, if◌then◌else◌, length, length-append, All, Bool-cases,
  Option-cases, inl, inr,
}
use a.Golang.Dict.{lookup, insert}
use a.Golang.Result.{ok, bind-ok, ok-injective}
use a.Golang.Slice.{Bytes}
use a.Golang.Text.{bytes_eq}
use a.Model.Span.{Span}
use a.Sampling.TraceLevel.{
  Sampler, TraceLevelSampler, decide_trace, should_sample, is_trace_sampled,
}
use a.Sampling.TraceLevel.Consistent.{Decided, should_sample-Decided, should_sample-keeps}
use a.Storage.Writer.{ClickHouseStore, save_span}
use a.Command.App.{App, keep_span, handle_span, handle_all}

-- The spans whose trace a sampler keeps.
abbrev pub of_kept_traces :
    {F S E : Type 0} → TraceLevelSampler S → List (Span F × ℕ × E) → List (Span F)
of_kept_traces s [] = []
of_kept_traces s ((span, now, env) ∷ calls) =
    let rest = of_kept_traces s calls in
    if is_trace_sampled span.trace_id s then span ∷ rest else rest

grown :
    {A : Type 0} (span : A) (sampled : Bool) (queue rest : List A)
    → (queue ++ (if sampled then span ∷ [] else [])) ++ rest
      ≡ queue ++ (if sampled then span ∷ rest else rest)
grown span true queue rest = append_assoc queue (span ∷ []) rest
grown span false queue rest = ap (λ q. q ++ rest) (append-nil queue)

module _ {F : Type 0} (inner : Sampler F) where
  open inner use {State}

  Decided-sampled :
      (trace_id : Bytes) (kept : Bool) (s : TraceLevelSampler State)
      → Decided inner trace_id kept s
      → is_trace_sampled trace_id s ≡ kept
  unfolding is_trace_sampled
  Decided-sampled trace_id kept s (entry, known, value) = rw (known, is_trace_sampled) value

module _ {F : Type 0} (inner : Sampler F) {Conn : Type 0} where
  open inner use {State, Env}

  keep_span_inv :
      (span : Span F) (sampled : Bool) (sampler : TraceLevelSampler State)
      (app app' : App F State Conn)
      → ok (keep_span inner span sampled (record app { sampler = sampler })) ≡ ok app'
      → (sampler ≡ app'.sampler)
        × (app'.store ≡ (if sampled then (save_span span app.store).0 else app.store))
  keep_span_inv span true sampler app app' e =
      (ap (λ a. a.sampler) (ok-injective e), sym (ap (λ a. a.store) (ok-injective e)))
  keep_span_inv span false sampler app app' e =
      (ap (λ a. a.sampler) (ok-injective e), sym (ap (λ a. a.store) (ok-injective e)))

  -- A call that returns has a decision of the sampler, and follows it.
  handle_span_inv :
      (span : Span F) (now : ℕ) (env : Env) (app app' : App F State Conn)
      → handle_span inner span now env app ≡ ok app'
      → (sampled : Bool) × (should_sample inner app.sampler span now env
          ≡ ok (app'.sampler, sampled))
        × (app'.store ≡ (if sampled then (save_span span app.store).0 else app.store))
  unfolding handle_span
  handle_span_inv span now env app app' e =
      let ((sampler, sampled), first, rest) =
        bind-ok (should_sample inner app.sampler span now env)
          (λ r. ok (keep_span inner span r.1 (record app { sampler = r.0 }))) e in
      let (same, stored) = keep_span_inv span sampled sampler app app' rest in
      (sampled, first ∙ ap (λ s. ok (s, sampled)) same, stored)

  handle_all-keeps :
      (calls : List (Span F × ℕ × Env)) (app app' : App F State Conn) (trace_id : Bytes)
      (kept : Bool)
      → handle_all inner calls app ≡ ok app'
      → Decided inner trace_id kept app.sampler
      → Decided inner trace_id kept app'.sampler
  unfolding handle_all
  handle_all-keeps [] app app' trace_id kept e d =
      subst (λ a. Decided inner trace_id kept a.sampler) (ok-injective e) d
  handle_all-keeps ((span, now, env) ∷ calls) app app' trace_id kept e d =
      let (app1, first, rest) =
        bind-ok (handle_span inner span now env app) (λ a. handle_all inner calls a) e in
      let (sampled, asked, stored) = handle_span_inv span now env app app1 first in
      handle_all-keeps calls app1 app' trace_id kept rest (
        should_sample-keeps inner app.sampler app1.sampler span now env sampled kept trace_id asked
          d)

  save_span-room :
      (span : Span F) (s : ClickHouseStore F Conn)
      → length s.write_queue < s.queue_capacity
      → ((save_span span s).0.write_queue ≡ s.write_queue ++ (span ∷ []))
        × ((save_span span s).0.queue_capacity ≡ s.queue_capacity)
  unfolding save_span
  save_span-room span s room =
      let free : ltb (length s.write_queue) s.queue_capacity ≡ true = ground arith in
      rw (free, save_span) (refl, refl)

  -- The queue behind a call, and the room that is left in it.
  queued :
      (span : Span F) (sampled : Bool) (n : ℕ) (s s' : ClickHouseStore F Conn)
      → s' ≡ (if sampled then (save_span span s).0 else s)
      → length s.write_queue + suc n ≤ s.queue_capacity
      → (s'.write_queue ≡ s.write_queue ++ (if sampled then span ∷ [] else []))
        × (length s'.write_queue + n ≤ s'.queue_capacity)
  queued span true n s s' e room =
      let (queue, capacity) = save_span-room span s (omega arith) in
      let queue' : s'.write_queue ≡ s.write_queue ++ (span ∷ []) =
        ap (λ t. t.write_queue) e ∙ queue in
      let capacity' : s'.queue_capacity ≡ s.queue_capacity =
        ap (λ t. t.queue_capacity) e ∙ capacity in
      (queue', omega (arith, ap length queue', length-append s.write_queue (span ∷ []), capacity'))
  queued span false n s s' e room =
      let queue' : s'.write_queue ≡ s.write_queue = ap (λ t. t.write_queue) e in
      let capacity' : s'.queue_capacity ≡ s.queue_capacity = ap (λ t. t.queue_capacity) e in
      (queue' ∙ sym (append-nil s.write_queue), omega (arith, ap length queue', capacity'))

  returned-queue :
      (calls : List (Span F × ℕ × Env)) (app app' : App F State Conn)
      → All (λ c. c.0.trace_id ≢ []) calls
      → handle_all inner calls app ≡ ok app'
      → length app.store.write_queue + length calls ≤ app.store.queue_capacity
      → app'.store.write_queue ≡ app.store.write_queue ++ of_kept_traces app'.sampler calls
  unfolding handle_all
  returned-queue [] app app' ids e room =
      sym (ap (λ a. a.store.write_queue) (ok-injective e)) ∙ sym (append-nil app.store.write_queue)
  returned-queue ((span, now, env) ∷ calls) app app' ids e room =
      let (app1, first, rest) =
        bind-ok (handle_span inner span now env app) (λ a. handle_all inner calls a) e in
      let (sampled, asked, stored) = handle_span_inv span now env app app1 first in
      let decided = Decided-sampled inner span.trace_id sampled app'.sampler (
        handle_all-keeps calls app1 app' span.trace_id sampled rest (
          should_sample-Decided inner app.sampler app1.sampler span now env sampled ids.0 asked)) in
      let (queue, room') = queued span sampled (length calls) app.store app1.store stored room in
      returned-queue calls app1 app' ids.1 rest room'
      ∙ ap (λ q. q ++ of_kept_traces app'.sampler calls) queue
      ∙ grown span sampled app.store.write_queue (of_kept_traces app'.sampler calls)
      ∙ ap
          (λ b.
            app.store.write_queue
            ++ (if b
                then span ∷ of_kept_traces app'.sampler calls
                else of_kept_traces app'.sampler calls))
          (sym decided)

module _ {F : Type 0} (inner : Sampler F) where
  open inner use {State, Env}

  -- The inner sampler returns a decision in every state, as the dynamic sampler does.
  abbrev pub Decides : Type 0
  Decides =
      (s : State) (span : Span F) (env : Env)
      → (r : State × Bool) × (inner.should_sample s span env ≡ ok r)

  module _ (decides : Decides) where
    should_sample-returns :
        (s : TraceLevelSampler State) (span : Span F) (now : ℕ) (env : Env)
        → (r : TraceLevelSampler State × Bool) × (should_sample inner s span now env ≡ ok r)
    unfolding should_sample decide_trace
    should_sample-returns s span now env =
        let (r, e) = decides s.inner span env in
        elim (Bool-cases (bytes_eq span.trace_id [])) [
          | inl empty ↦ ((record s { inner = r.0 }, r.1), rw empty (rw e refl))
          | inr id ↦ elim (Option-cases (lookup span.trace_id s.sampled_traces)) [
            | inl new ↦ (
              (
                record {
                  sampled_traces =
                      insert span.trace_id (record { sampled = r.1; timestamp = now })
                        s.sampled_traces;
                  inner = r.0;
                },
                r.1,
              ),
              rw id (rw new (rw e refl)),
            )
            | inr (entry, known) ↦ ((s, entry.sampled), rw id (rw known refl))
          ]
        ]

    handle_all-returns :
        {Conn : Type 0} (calls : List (Span F × ℕ × Env)) (app : App F State Conn)
        → (app' : App F State Conn) × (handle_all inner calls app ≡ ok app')
    unfolding handle_all handle_span
    handle_all-returns [] app = (app, refl)
    handle_all-returns ((span, now, env) ∷ calls) app =
        let ((sampler, sampled), e) = should_sample-returns app.sampler span now env in
        let (app', rest) =
          handle_all-returns calls
            (keep_span inner span sampled (record app { sampler = sampler })) in
        (app', rw e rest)

    -- Where the inner sampler always returns, any calls of `handleSpan`, on spans with a trace's
    -- identifier and with room in the queue for all of them, return, and behind them the queue has
    -- grown by exactly the spans whose trace the sampler then has down as kept, in their order.
    pub handle_all-queue :
        {Conn : Type 0} (calls : List (Span F × ℕ × Env)) (app : App F State Conn)
        → All (λ c. c.0.trace_id ≢ []) calls
        → length app.store.write_queue + length calls ≤ app.store.queue_capacity
        → (app' : App F State Conn) × (handle_all inner calls app ≡ ok app')
          × (app'.store.write_queue ≡ app.store.write_queue ++ of_kept_traces app'.sampler calls)
    handle_all-queue calls app ids room =
        let (app', e) = handle_all-returns calls app in
        (app', e, returned-queue inner calls app app' ids e room)
