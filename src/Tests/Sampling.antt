-- ===== src/Tests/Sampling.antt =====
-- Tests of the samplers.
use a.Prelude.{ℕ, ◌+◌, ◌*◌, ◌≤◌, ◌^◌, ◌≡◌, ◌↔◌, refl, Bool, true, false, List, [], ◌∷◌, arith}
use a.Golang.Dict.{lookup, insert}
use a.Golang.Int.{pos}
use a.Golang.Result.{ok, panics}
use a.Golang.Text.{text, bytes_eq}
use a.Model.Span.{Span}
use a.Sampling.Adaptive
use a.Sampling.Adaptive.{AdaptiveSampler, add_event}
use a.Sampling.Adaptive.Faults
use a.Sampling.Adaptive.Window.{IsOrdered, recent, add_event-recent}
use a.Sampling.Dynamic.{SamplingConfig, DynamicSampler, new_dynamic_sampler}
use a.Sampling.Dynamic.Counts
use a.Sampling.TraceLevel
use a.Sampling.TraceLevel.{Sampler, TraceLevelSampler}
use a.Sampling.TraceLevel.Consistent
use a.Tests.Instances.{whole_numbers, span_of}

abbrev settings : SamplingConfig ℕ
settings = record {
  high_latency_threshold_ms = pos 100;
  high_latency_sample_rate = 1;
  low_latency_sample_rate = 0;
}

abbrev fast : Span ℕ
fast = span_of (text "t1") 5 0

abbrev slow : Span ℕ
slow = span_of (text "t1") 500 0

abbrev sampler : DynamicSampler ℕ
sampler = record {
  threshold_ms = pos 100;
  high_rate = 1;
  low_rate = 0;
  total_count = 0;
  sampled_count = 0;
  high_latency_count = 0;
  low_latency_count = 0;
}

abbrev calls : List (Span ℕ × ℕ)
calls = (fast, 0) ∷ (slow, 0) ∷ []

run-counts_example :
    ((Counts.run whole_numbers calls (new_dynamic_sampler settings)).0.total_count ≡ 2)
    × ((Counts.run whole_numbers calls (new_dynamic_sampler settings)).0.sampled_count
        ≡ Counts.count_true whole_numbers
            (Counts.run whole_numbers calls (new_dynamic_sampler settings)).1)
    × ((Counts.run whole_numbers calls (new_dynamic_sampler settings)).0.high_latency_count
          + (Counts.run whole_numbers calls (new_dynamic_sampler settings)).0.low_latency_count
        ≡ Counts.count_true whole_numbers
            (Counts.run whole_numbers calls (new_dynamic_sampler settings)).1)
    × ((Counts.run whole_numbers calls (new_dynamic_sampler settings)).0.sampled_count
        ≤ (Counts.run whole_numbers calls (new_dynamic_sampler settings)).0.total_count)
run-counts_example = Counts.run-counts whole_numbers settings calls (omega arith)

abbrev adaptive : AdaptiveSampler ℕ
adaptive = record {
  dynamic = sampler;
  target_eps = pos 0;
  window = 5 ∷ 6 ∷ [];
  window_duration = 10 * 10 ^ 9;
}

should_sample-panics_example :
    (panics (Adaptive.should_sample whole_numbers adaptive fast 7 8 0) ≡ true)
    ↔ Faults.IsOverloaded whole_numbers adaptive fast 7 8 0
should_sample-panics_example = Faults.should_sample-panics whole_numbers adaptive fast 7 8 0

add_event-recent_example :
    ((add_event 8 adaptive).window ≡ recent (10 * 10 ^ 9) 8 (5 ∷ 6 ∷ 8 ∷ []))
    × IsOrdered 8 (add_event 8 adaptive).window
add_event-recent_example = add_event-recent adaptive 7 8 (omega arith) (omega arith)

-- A sampler whose decision is what the environment says.
abbrev oracle : Sampler ℕ
oracle = record {
  State = ℕ;
  Env = Bool;
  should_sample = λ s span env. ok (s, env);
  sampling_rate = λ s span. 1;
}

abbrev fresh : TraceLevelSampler ℕ
fresh = record { sampled_traces = []; inner = 0 }

abbrev decided : TraceLevelSampler ℕ
decided = record {
  sampled_traces = (text "t1", record { sampled = true; timestamp = 3 }) ∷ [];
  inner = 0;
}

should_sample-consistent_example :
    TraceLevel.should_sample oracle decided fast 9 false ≡ ok (decided, true)
unfolding TraceLevel.should_sample TraceLevel.decide_trace Consistent.run lookup insert bytes_eq
should_sample-consistent_example =
    Consistent.should_sample-consistent oracle fresh decided decided slow fast 3 9 true false true
      ((slow, 5, false) ∷ []) (λ e. cc) refl refl refl
