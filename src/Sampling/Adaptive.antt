-- ===== src/Sampling/Adaptive.antt =====
-- pkg/sampling/sampler.go: `AdaptiveSampler`. The two readings of the clock and the draw of
-- `rand.Float64` are arguments.
pub mod Window
pub mod Faults
use a.Prelude.{
  ℕ, ◌+◌, ◌*◌, ◌^◌, Bool, true, false, ◌++◌, List, [], ◌∷◌, Option, none, ltb, if◌then◌else◌,
  length,
}
use a.Golang.Counter.{add_u64}
use a.Golang.Float.{Float}
use a.Golang.Int.{ℤ, pos}
use a.Golang.Result.{Result, ok, ◌>>=◌}
use a.Model.Span.{Span}
use a.Sampling.Dynamic.{
  SamplingConfig, DynamicSampler, new_dynamic_sampler, is_slow, is_error, sampling_rate,
}

pub record AdaptiveSampler (F : Type 0) : Type 0 where
  pub dynamic : DynamicSampler F
  pub target_eps : ℤ
  pub window : List ℕ
  -- in nanoseconds
  pub window_duration : ℕ

unfoldable pub new_adaptive_sampler : {F : Type 0} → SamplingConfig F → ℤ → AdaptiveSampler F
unfolding new_dynamic_sampler
new_adaptive_sampler cfg target = record {
  dynamic = new_dynamic_sampler cfg;
  target_eps = target;
  window = [];
  window_duration = 10 * 10 ^ 9;
}

-- The loop of `pruneOldEvents`, which stops at the first event after `now - duration`.
unfoldable pub prune : ℕ → ℕ → List ℕ → List ℕ
prune duration now [] = []
prune duration now (t ∷ ts) =
    let rest = prune duration now ts in if ltb now (t + duration) then t ∷ ts else rest

unfoldable pub prune_old_events : {F : Type 0} → ℕ → AdaptiveSampler F → AdaptiveSampler F
prune_old_events now s = record s { window = prune s.window_duration now s.window }

unfoldable pub add_event : {F : Type 0} → ℕ → AdaptiveSampler F → AdaptiveSampler F
unfolding prune_old_events
add_event t s = prune_old_events t (record s { window = s.window ++ (t ∷ []) })

module _ (fl : Float) where
  open fl use {F, flt, fle, fmul, fdiv, of_int, lit}

  -- `currentEPS`: the window's duration is a whole number of seconds.
  unfoldable pub current_eps : ℕ → AdaptiveSampler F → AdaptiveSampler F × F
  unfolding prune_old_events
  current_eps now s =
      let s' = prune_old_events now s in
      (
        s',
        fdiv (of_int (pos (length s'.window)))
            (fdiv (of_int (pos s'.window_duration)) (lit (10 ^ 9) 0)),
      )

  -- `calculateAdaptiveRate`
  unfoldable pub calculate_adaptive_rate : AdaptiveSampler F → F → Result F
  unfolding sampling_rate
  calculate_adaptive_rate s eps = if fle eps (of_int s.target_eps) then ok (lit 1 0) else (do
    base ← sampling_rate fl s.dynamic none
    ok (fmul base (fdiv (of_int s.target_eps) eps)))

  -- The counters of a span that is kept as slow, as failed, by the draw.
  abbrev pub keep_slow : DynamicSampler F → DynamicSampler F
  keep_slow d = record d {
    sampled_count = add_u64 d.sampled_count 1;
    high_latency_count = add_u64 d.high_latency_count 1;
  }

  abbrev pub keep_failed : DynamicSampler F → DynamicSampler F
  keep_failed d = record d { sampled_count = add_u64 d.sampled_count 1 }

  abbrev pub keep_drawn : DynamicSampler F → DynamicSampler F
  keep_drawn d = record d {
    sampled_count = add_u64 d.sampled_count 1;
    low_latency_count = add_u64 d.low_latency_count 1;
  }

  -- `ShouldSample`, behind its two early returns, with the window's rate.
  unfoldable pub sample_by_rate : AdaptiveSampler F → F → F → Result (AdaptiveSampler F × Bool)
  unfolding calculate_adaptive_rate
  sample_by_rate s eps draw = do
    rate ← calculate_adaptive_rate s eps
    let counted = record (s.dynamic) { total_count = add_u64 s.dynamic.total_count 1 }
    ok (
        if flt draw rate
        then (record s { dynamic = keep_drawn counted }, true)
        else (record s { dynamic = counted }, false))

  -- `ShouldSample`
  unfoldable pub should_sample :
      AdaptiveSampler F → Span F → ℕ → ℕ → F → Result (AdaptiveSampler F × Bool)
  should_sample s span now later draw =
      let s1 = add_event now s in
      if is_slow fl s1.dynamic span
      then ok (record s1 { dynamic = keep_slow s1.dynamic }, true)
      else if is_error span.error_code
      then ok (record s1 { dynamic = keep_failed s1.dynamic }, true)
      else (let (s2, eps) = current_eps later s1 in sample_by_rate s2 eps draw)
