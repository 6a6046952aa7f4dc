-- ===== src/Sampling/TraceLevel.antt =====
-- pkg/sampling/sampler.go: the interface `Sampler`, and `TraceLevelSampler` over it.
pub mod Consistent
use a.Prelude.{
  ℕ, ◌+◌, ◌*◌, ◌^◌, Bool, true, false, Option, none, some, List, [], ◌∷◌, ltb, if◌then◌else◌,
}
use a.Golang.Dict.{lookup, insert, delete}
use a.Golang.Result.{Result, ok, ◌>>=◌}
use a.Golang.Slice.{Bytes}
use a.Golang.Text.{bytes_eq}
use a.Model.Span.{Span}

-- `Sampler`, as seen by a caller: a state, and what the environment (the clock, the random
-- generator) gives to one call.
pub record Sampler (F : Type 0) : Type 1 where
  pub State : Type 0
  pub Env : Type 0
  pub should_sample : State → Span F → Env → Result (State × Bool)
  pub sampling_rate : State → Span F → F

-- The value of `sampledTraces`
pub record Entry : Type 0 where
  pub sampled : Bool
  pub timestamp : ℕ

pub record TraceLevelSampler (S : Type 0) : Type 0 where
  pub sampled_traces : List (Bytes × Entry)
  pub inner : S

unfoldable pub new_trace_level_sampler : {S : Type 0} → S → TraceLevelSampler S
new_trace_level_sampler inner = record { sampled_traces = []; inner = inner }

-- `MarkTraceSampled` at the time `now`
unfoldable pub mark_trace_sampled :
    {S : Type 0} → Bytes → ℕ → TraceLevelSampler S → TraceLevelSampler S
mark_trace_sampled trace_id now s = record s {
  sampled_traces = insert trace_id (record { sampled = true; timestamp = now }) s.sampled_traces;
}

unfoldable pub is_trace_sampled : {S : Type 0} → Bytes → TraceLevelSampler S → Bool
is_trace_sampled trace_id s = elim (lookup trace_id s.sampled_traces) [
  | some entry ↦ entry.sampled
  | none ↦ false
]

-- The keys that a round of `cleanupOldTraces` collects, those stored before `now - 10 minutes`.
unfoldable pub old_traces : ℕ → List (Bytes × Entry) → List Bytes
old_traces now [] = []
old_traces now ((k, entry) ∷ m) =
    if ltb (entry.timestamp + 600 * 10 ^ 9) now then k ∷ old_traces now m else old_traces now m

unfoldable pub delete_all : List Bytes → List (Bytes × Entry) → List (Bytes × Entry)
delete_all [] m = m
delete_all (k ∷ ks) m = delete_all ks (delete k m)

-- A round of `cleanupOldTraces` at the time `now`
unfoldable pub cleanup_old_traces : {S : Type 0} → ℕ → TraceLevelSampler S → TraceLevelSampler S
unfolding old_traces delete_all
cleanup_old_traces now s = record s {
  sampled_traces = delete_all (old_traces now s.sampled_traces) s.sampled_traces;
}

module _ {F : Type 0} (inner : Sampler F) where
  open inner use {State, Env}

  -- The end of `ShouldSample` for a trace that has no entry.
  unfoldable pub decide_trace :
      TraceLevelSampler State → Span F → ℕ → Env → Result (TraceLevelSampler State × Bool)
  decide_trace s span now env = do
    (inner', kept) ← inner.should_sample s.inner span env
    ok (
      record {
        sampled_traces =
            insert span.trace_id (record { sampled = kept; timestamp = now }) s.sampled_traces;
        inner = inner';
      },
      kept,
    )

  -- `ShouldSample`
  unfoldable pub should_sample :
      TraceLevelSampler State → Span F → ℕ → Env → Result (TraceLevelSampler State × Bool)
  should_sample s span now env =
      if bytes_eq span.trace_id []
      then (do
        (inner', kept) ← inner.should_sample s.inner span env
        ok (record s { inner = inner' }, kept))
      else elim (lookup span.trace_id s.sampled_traces) [
        | some entry ↦ ok (s, entry.sampled)
        | none ↦ decide_trace s span now env
      ]

  -- `SamplingRate`
  abbrev pub sampling_rate : TraceLevelSampler State → Span F → F
  sampling_rate s span = inner.sampling_rate s.inner span
