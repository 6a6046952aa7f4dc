-- ===== src/Sampling/Adaptive/Faults.antt =====
-- pkg/sampling/sampler.go: where `AdaptiveSampler.ShouldSample` panics, and what it leaves out of
-- its counters.
use a.Prelude.{
  ℕ, ◌+◌, ◌^◌, ◌<◌, ◌≡◌, refl, ◌∙◌, ◌↔◌, inl, inr, true, false, ◌||◌, List, [], ◌∷◌, All, arith,
  length, Bool-cases,
}
use a.Golang.Float.{Float}
use a.Golang.Int.{ℤ}
use a.Golang.Result.{Result, ok, panics, ◌>>=◌}
use a.Model.Span.{Span}
use a.Sampling.Dynamic.{is_slow, is_error}
use a.Sampling.Adaptive.{
  AdaptiveSampler, add_event, current_eps, sample_by_rate, should_sample, keep_slow, keep_failed,
}

module _ (fl : Float) where
  open fl use {F, fle, of_int}

  rate_panics :
      (s : AdaptiveSampler F) (eps draw : F)
      → fle eps (of_int s.target_eps) ≡ false
      → panics (sample_by_rate fl s eps draw) ≡ true
  unfolding sample_by_rate
  rate_panics s eps draw h = rw (h, sample_by_rate)

  rate_returns :
      (s : AdaptiveSampler F) (eps draw : F)
      → fle eps (of_int s.target_eps) ≡ true
      → panics (sample_by_rate fl s eps draw) ≡ false
  unfolding sample_by_rate
  rate_returns s eps draw h = rw (h, sample_by_rate)

  module _ (s : AdaptiveSampler F) (span : Span F) (now later : ℕ) (draw : F) where
    -- A call that is not decided by the span alone, with more events in the window than the target.
    abbrev pub IsOverloaded : Type 0
    IsOverloaded =
        ((is_slow fl (add_event now s).dynamic span || is_error span.error_code) ≡ false)
        × (fle (current_eps fl later (add_event now s)).1
              (of_int (current_eps fl later (add_event now s)).0.target_eps)
            ≡ false)

    overloaded_panics : IsOverloaded → panics (should_sample fl s span now later draw) ≡ true
    unfolding should_sample
    overloaded_panics h = ground (
      arith,
      rate_panics (current_eps fl later (add_event now s)).0
          (current_eps fl later (add_event now s)).1 draw,
    )

    panics_overloaded : panics (should_sample fl s span now later draw) ≡ true → IsOverloaded
    unfolding should_sample
    panics_overloaded h = ground (
      arith,
      rate_returns (current_eps fl later (add_event now s)).0
          (current_eps fl later (add_event now s)).1 draw,
    )

    -- `ShouldSample` panics exactly when the span is neither slow nor failed and the rate of events
    -- in the window is above the target.
    pub should_sample-panics :
        (panics (should_sample fl s span now later draw) ≡ true) ↔ IsOverloaded
    should_sample-panics = (panics_overloaded, overloaded_panics)

  -- The sampled and the total counter of a sampler.
  abbrev pub sampled : AdaptiveSampler F → ℕ
  sampled s = s.dynamic.sampled_count

  abbrev pub total : AdaptiveSampler F → ℕ
  total s = s.dynamic.total_count

  -- A run of calls on spans, each at its own two times.
  abbrev pub Call : Type 0
  Call = Span F × ℕ × ℕ × F

  unfoldable pub run : List Call → AdaptiveSampler F → Result (AdaptiveSampler F)
  run [] s = ok s
  run ((span, now, later, draw) ∷ calls) s = do
    (s', kept) ← should_sample fl s span now later draw
    run calls s'

  -- A span that is slow at the threshold, or failed.
  abbrev pub IsKept : ℤ → Call → Type 0
  IsKept threshold (span, now, later, draw) =
      (fle (of_int threshold) span.duration_ms || is_error span.error_code) ≡ true

  kept_step :
      (s : AdaptiveSampler F) (span : Span F) (now later : ℕ) (draw : F) (k : ℕ)
      → IsKept s.dynamic.threshold_ms (span, now, later, draw)
      → s.dynamic.sampled_count ≡ k
      → k + 1 < 2 ^ 64
      → (s' : AdaptiveSampler F) × (should_sample fl s span now later draw ≡ ok (s', true))
        × (s'.dynamic.threshold_ms ≡ s.dynamic.threshold_ms)
        × (s'.dynamic.sampled_count ≡ k + 1)
        × (s'.dynamic.total_count ≡ s.dynamic.total_count)
  unfolding should_sample add_event
  kept_step s span now later draw k kept e small =
      let s1 = add_event now s in
      elim (Bool-cases (is_slow fl s.dynamic span)) [
        | inl slow ↦ (
          record s1 { dynamic = keep_slow fl s1.dynamic },
          ground arith,
          refl,
          ground arith,
          refl,
        )
        | inr fast ↦ (
          record s1 { dynamic = keep_failed fl s1.dynamic },
          ground arith,
          refl,
          ground arith,
          refl,
        )
      ]

  -- Calls on slow or failed spans alone are not counted in the total, though each is counted as
  -- sampled: behind fewer than 2^64 of them the sampled counter has grown by their number and the
  -- total is what it was.
  run-uncounted :
      (calls : List Call) (s : AdaptiveSampler F)
      → All (IsKept s.dynamic.threshold_ms) calls
      → sampled s + length calls < 2 ^ 64
      → (end : AdaptiveSampler F) × (run calls s ≡ ok end)
        × (sampled end ≡ sampled s + length calls)
        × (total end ≡ total s)
  unfolding run
  run-uncounted [] s kept small = (s, refl, omega arith, refl)
  run-uncounted ((span, now, later, draw) ∷ calls) s kept small =
      let (s', e, threshold, k, n) = kept_step s span now later draw _ kept.0 refl (omega arith) in
      let (end, ran, more, same) =
        run-uncounted calls s' (rw threshold kept.1) (omega (arith, k)) in
      (end, rw (e, run) ran, omega (arith, k), same ∙ n)
