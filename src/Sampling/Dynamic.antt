-- ===== src/Sampling/Dynamic.antt =====
-- pkg/sampling/sampler.go: `DynamicSampler`. The draw of `rand.Float64` is an argument. The locks
-- protect the three settings only, so a call is one step here.
pub mod Counts
use a.Prelude.{
  ℕ, ◌+◌, ◌^◌, Bool, true, false, ◌&&◌, ◌||◌, Option, none, some, ltb, leb, if◌then◌else◌, not,
  ◌==◌,
}
use a.Golang.Counter.{add_u64}
use a.Golang.Float.{Float}
use a.Golang.Int.{ℤ, pos}
use a.Golang.Result.{Result, ok, panic}
use a.Model.Span.{Span}

-- `config.SamplingConfig`
pub record SamplingConfig (F : Type 0) : Type 0 where
  pub high_latency_threshold_ms : ℤ
  pub high_latency_sample_rate : F
  pub low_latency_sample_rate : F

pub record DynamicSampler (F : Type 0) : Type 0 where
  pub threshold_ms : ℤ
  pub high_rate : F
  pub low_rate : F
  pub total_count : ℕ
  pub sampled_count : ℕ
  pub high_latency_count : ℕ
  pub low_latency_count : ℕ

-- `Stats`
pub record Stats (F : Type 0) : Type 0 where
  pub total : ℕ
  pub sampled : ℕ
  pub high_latency : ℕ
  pub low_latency : ℕ
  pub overall_sample_rate : F
  pub high_latency_rate : F
  pub low_latency_rate : F
  pub threshold : ℤ

-- `ErrorCode != 0 && ErrorCode >= 400` on the bit pattern of an int32.
abbrev pub is_error : ℕ → Bool
is_error code = not (code == 0) && (ltb code (2 ^ 31) && leb 400 code)

unfoldable pub new_dynamic_sampler : {F : Type 0} → SamplingConfig F → DynamicSampler F
new_dynamic_sampler cfg = record {
  threshold_ms = cfg.high_latency_threshold_ms;
  high_rate = cfg.high_latency_sample_rate;
  low_rate = cfg.low_latency_sample_rate;
  total_count = 0;
  sampled_count = 0;
  high_latency_count = 0;
  low_latency_count = 0;
}

-- `UpdateConfig`: the counters stay.
unfoldable pub update_config : {F : Type 0} → SamplingConfig F → DynamicSampler F → DynamicSampler F
update_config cfg s = record s {
  threshold_ms = cfg.high_latency_threshold_ms;
  high_rate = cfg.high_latency_sample_rate;
  low_rate = cfg.low_latency_sample_rate;
}

unfoldable pub reset_stats : {F : Type 0} → DynamicSampler F → DynamicSampler F
reset_stats s = record s {
  total_count = 0;
  sampled_count = 0;
  high_latency_count = 0;
  low_latency_count = 0;
}

module _ (fl : Float) where
  open fl use {F, flt, fle, fdiv, of_int, lit}

  -- A slow span.
  abbrev pub is_slow : DynamicSampler F → Span F → Bool
  is_slow s span = fle (of_int s.threshold_ms) span.duration_ms

  -- `SamplingRate` of a span that is not nil.
  unfoldable pub rate_of : DynamicSampler F → Span F → F
  rate_of s span =
      if is_slow s span
      then s.high_rate
      else if is_error span.error_code
      then s.high_rate
      else s.low_rate

  -- `SamplingRate`: it reads the span's duration first, so a nil span is a panic.
  unfoldable pub sampling_rate : DynamicSampler F → Option (Span F) → Result F
  unfolding rate_of
  sampling_rate s none = panic
  sampling_rate s (some span) = ok (rate_of s span)

  -- `ShouldSample`
  unfoldable pub should_sample : DynamicSampler F → Span F → F → DynamicSampler F × Bool
  should_sample s span draw =
      let s1 = record s { total_count = add_u64 s.total_count 1 } in
      let rate = rate_of s1 span in
      if fle (lit 1 0) rate
      then (
        record s1 {
          sampled_count = add_u64 s1.sampled_count 1;
          high_latency_count = add_u64 s1.high_latency_count 1;
        },
        true,
      )
      else if fle rate (lit 0 0)
      then (s1, false)
      else if flt draw rate
      then (
        record s1 {
          sampled_count = add_u64 s1.sampled_count 1;
          low_latency_count = add_u64 s1.low_latency_count 1;
        },
        true,
      )
      else (s1, false)

  -- `Stats`
  unfoldable pub stats : DynamicSampler F → Stats F
  stats s = record {
    total = s.total_count;
    sampled = s.sampled_count;
    high_latency = s.high_latency_count;
    low_latency = s.low_latency_count;
    overall_sample_rate =
        if ltb 0 s.total_count
        then fdiv (of_int (pos s.sampled_count)) (of_int (pos s.total_count))
        else lit 0 0;
    high_latency_rate = s.high_rate;
    low_latency_rate = s.low_rate;
    threshold = s.threshold_ms;
  }
