-- ===== src/Sampling/TraceLevel/Consistent.antt =====
-- pkg/sampling/sampler.go: the decisions of `TraceLevelSampler` on a trace.
use a.Prelude.{
  ℕ, ◌≡◌, ◌≢◌, refl, subst, ◌⊎◌, inl, inr, Bool, none, some, List, [], ◌∷◌, arith, Bool-cases,
  Option-cases,
}
use a.Golang.Dict.{lookup, insert, lookup-insert, lookup-insert_self}
use a.Golang.Result.{Result, ok, ◌>>=◌, bind-ok, ok-injective}
use a.Golang.Slice.{Bytes}
use a.Golang.Text.{bytes_eq}
use a.Golang.Text.Laws.{bytes_eq_iff}
use a.Model.Span.{Span}
use a.Sampling.TraceLevel.{Sampler, Entry, TraceLevelSampler, decide_trace, should_sample}

module _ {F : Type 0} (inner : Sampler F) where
  open inner use {State, Env}

  -- A sequence of calls, each with its time.
  abbrev pub Calls : Type 0
  Calls = List (Span F × ℕ × Env)

  unfoldable pub run : Calls → TraceLevelSampler State → Result (TraceLevelSampler State)
  run [] s = ok s
  run ((span, now, env) ∷ calls) s = do
    (s', kept) ← should_sample inner s span now env
    run calls s'

  -- The recorded decision of a trace.
  abbrev pub Decided : Bytes → Bool → TraceLevelSampler State → Type 0
  Decided trace_id kept s =
      (entry : Entry) × (lookup trace_id s.sampled_traces ≡ some entry) × (entry.sampled ≡ kept)

  -- What the end of a call stores.
  decide_trace_inv :
      (s s' : TraceLevelSampler State) (span : Span F) (now : ℕ) (env : Env) (kept : Bool)
      → decide_trace inner s span now env ≡ ok (s', kept)
      → s'.sampled_traces
        ≡ insert span.trace_id (record { sampled = kept; timestamp = now }) s.sampled_traces
  unfolding decide_trace
  decide_trace_inv s s' span now env kept e = ground arith

  -- The three ways of a call that returns.
  should_sample_inv :
      (s s' : TraceLevelSampler State) (span : Span F) (now : ℕ) (env : Env) (kept : Bool)
      → should_sample inner s span now env ≡ ok (s', kept)
      → ((span.trace_id ≡ []) × (s'.sampled_traces ≡ s.sampled_traces))
        ⊎ (((entry : Entry) × (lookup span.trace_id s.sampled_traces ≡ some entry)
              × (entry.sampled ≡ kept)
              × (s'.sampled_traces ≡ s.sampled_traces))
            ⊎ ((lookup span.trace_id s.sampled_traces ≡ none)
                × (s'.sampled_traces
                    ≡ insert span.trace_id
                        (record { sampled = kept; timestamp = now })
                        s.sampled_traces)))
  unfolding should_sample
  should_sample_inv s s' span now env kept e = elim (Bool-cases (bytes_eq span.trace_id [])) [
    | inl empty ↦ inl ((bytes_eq_iff span.trace_id []).0 empty, ground arith)
    | inr other ↦ elim (Option-cases (lookup span.trace_id s.sampled_traces)) [
      | inl new ↦ inr (inr (new, decide_trace_inv s s' span now env kept (ground arith)))
      | inr (entry, known) ↦ inr (inl (entry, known, ground arith, ground arith))
    ]
  ]

  pub should_sample-Decided :
      (s s' : TraceLevelSampler State) (span : Span F) (now : ℕ) (env : Env) (kept : Bool)
      → span.trace_id ≢ []
      → should_sample inner s span now env ≡ ok (s', kept)
      → Decided span.trace_id kept s'
  should_sample-Decided s s' span now env kept ne e =
      elim (should_sample_inv s s' span now env kept e) [
        | inl (empty, same) ↦ absurd (ne empty)
        | inr later ↦ elim later [
          | inl (entry, known, value, same) ↦ (entry, rw same known, value)
          | inr (new, stored) ↦ (
            record { sampled = kept; timestamp = now },
            rw stored (lookup-insert_self span.trace_id _ s.sampled_traces),
            refl,
          )
        ]
      ]

  -- A later call leaves the entries that are there.
  pub should_sample-keeps :
      (s s' : TraceLevelSampler State) (span : Span F) (now : ℕ) (env : Env) (b kept : Bool)
      (trace_id : Bytes)
      → should_sample inner s span now env ≡ ok (s', b)
      → Decided trace_id kept s
      → Decided trace_id kept s'
  should_sample-keeps s s' span now env b kept trace_id e (entry, known, value) =
      elim (should_sample_inv s s' span now env b e) [
        | inl (empty, same) ↦ (entry, rw same known, value)
        | inr later ↦ elim later [
          | inl (_, _, _, same) ↦ (entry, rw same known, value)
          | inr (new, stored) ↦ (
            entry,
            rw stored (
                ground (
                  arith,
                  lookup-insert span.trace_id trace_id (record { sampled = b; timestamp = now })
                      s.sampled_traces,
                  bytes_eq_iff span.trace_id trace_id,
                )),
            value,
          )
        ]
      ]

  run-keeps :
      (calls : Calls) (s s' : TraceLevelSampler State) (kept : Bool) (trace_id : Bytes)
      → run calls s ≡ ok s'
      → Decided trace_id kept s
      → Decided trace_id kept s'
  unfolding run
  run-keeps [] s s' kept trace_id e d = subst (Decided trace_id kept) (ok-injective e) d
  run-keeps ((span, now, env) ∷ calls) s s' kept trace_id e d =
      let (x, called, ran) = bind-ok (should_sample inner s span now env) (λ x. run calls x.0) e in
      run-keeps calls x.0 s' kept trace_id ran
        (should_sample-keeps s x.0 span now env x.1 kept trace_id called d)

  Decided-answers :
      (s : TraceLevelSampler State) (span : Span F) (now : ℕ) (env : Env) (kept : Bool)
      → span.trace_id ≢ []
      → Decided span.trace_id kept s
      → should_sample inner s span now env ≡ ok (s, kept)
  unfolding should_sample
  Decided-answers s span now env kept ne (entry, known, value) =
      ground (arith, bytes_eq_iff span.trace_id [])

  -- All spans of a trace get one decision: behind a call that decides on a span of a trace (with an
  -- identifier that is not empty), and any calls after it that return, on whatever spans, a call on
  -- a span of the same trace returns the same decision, and changes nothing.
  pub should_sample-consistent :
      (s s1 s2 : TraceLevelSampler State) (span other : Span F) (now later : ℕ) (env env' : Env)
      (kept : Bool) (calls : Calls)
      → span.trace_id ≢ []
      → other.trace_id ≡ span.trace_id
      → should_sample inner s span now env ≡ ok (s1, kept)
      → run calls s1 ≡ ok s2
      → should_sample inner s2 other later env' ≡ ok (s2, kept)
  should_sample-consistent s s1 s2 span other now later env env' kept calls ne same first ran =
      let d = should_sample-Decided s s1 span now env kept ne first in
      let d' = run-keeps calls s1 s2 kept span.trace_id ran d in
      Decided-answers s2 other later env' kept (rw same ne) (rw same d')
