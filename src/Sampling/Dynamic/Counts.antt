-- ===== src/Sampling/Dynamic/Counts.antt =====
-- pkg/sampling/sampler.go: what the counters of `DynamicSampler` count, and which spans are kept.
use a.Prelude.{
  ℕ, suc, ◌+◌, ◌^◌, ◌≤◌, ◌<◌, ◌≡◌, refl, Bool, true, false, ◌||◌, List, [], ◌∷◌, arith, length,
  if◌then◌else◌,
}
use a.Golang.Float.{Float}
use a.Model.Span.{Span}
use a.Sampling.Dynamic.{
  SamplingConfig, DynamicSampler, new_dynamic_sampler, should_sample, is_slow, is_error, rate_of,
}

module _ (fl : Float) where
  open fl use {F, fle, lit}

  -- A run of calls: the sampler behind them, and the decisions.
  abbrev pub run : List (Span F × F) → DynamicSampler F → DynamicSampler F × List Bool
  run [] s = (s, [])
  run ((span, draw) ∷ calls) s =
      let (s', kept) = should_sample fl s span draw in
      let (end, decisions) = run calls s' in (end, kept ∷ decisions)

  abbrev pub count_true : List Bool → ℕ
  count_true [] = 0
  count_true (true ∷ bs) = suc (count_true bs)
  count_true (false ∷ bs) = count_true bs

  -- The counters after `n` calls of which `k` kept their span.
  record Counts (s : DynamicSampler F) (n k : ℕ) : Type 0 where
    totals : s.total_count ≡ n
    kept : s.sampled_count ≡ k
    split : s.high_latency_count + s.low_latency_count ≡ k
    bounded : k ≤ n

  new-Counts : (cfg : SamplingConfig F) → Counts (new_dynamic_sampler cfg) 0 0
  unfolding new_dynamic_sampler
  new-Counts cfg = record { totals = refl; kept = refl; split = refl; bounded = omega arith }

  should_sample-Counts :
      (s : DynamicSampler F) (span : Span F) (draw : F) (n k : ℕ)
      → n + 1 < 2 ^ 64
      → Counts s n k
      → Counts
          (should_sample fl s span draw).0
          (n + 1)
          (if (should_sample fl s span draw).1 then k + 1 else k)
  unfolding should_sample
  should_sample-Counts s span draw n k small c = ground arith

  add_kept :
      (k : ℕ) (b : Bool) (bs : List Bool)
      → (if b then k + 1 else k) + count_true bs ≡ k + count_true (b ∷ bs)
  add_kept k true bs = omega arith
  add_kept k false bs = omega arith

  Counts-cast : (s : DynamicSampler F) {n m k j : ℕ} → n ≡ m → k ≡ j → Counts s n k → Counts s m j
  Counts-cast s e f c = rw (← e, ← f) c

  run-Counts :
      (calls : List (Span F × F)) (s : DynamicSampler F) (n k : ℕ)
      → n + length calls < 2 ^ 64
      → Counts s n k
      → Counts (run calls s).0 (n + length calls) (k + count_true (run calls s).1)
  run-Counts [] s n k small c = Counts-cast s (omega arith) (omega arith) c
  run-Counts ((span, draw) ∷ calls) s n k small c =
      let (s', b) = should_sample fl s span draw in
      Counts-cast _ (omega arith) (add_kept k b _) (
        run-Counts calls s' (n + 1) (if b then k + 1 else k) (omega arith)
          (should_sample-Counts s span draw n k (omega arith) c))

  -- After fewer than 2^64 calls on a new sampler the total counts the calls, the sampled counter
  -- counts the calls that kept their span, the two latency counters add up to it, and it is at most
  -- the total.
  pub run-counts :
      (cfg : SamplingConfig F) (calls : List (Span F × F))
      → length calls < 2 ^ 64
      → ((run calls (new_dynamic_sampler cfg)).0.total_count ≡ length calls)
        × ((run calls (new_dynamic_sampler cfg)).0.sampled_count
            ≡ count_true (run calls (new_dynamic_sampler cfg)).1)
        × ((run calls (new_dynamic_sampler cfg)).0.high_latency_count
              + (run calls (new_dynamic_sampler cfg)).0.low_latency_count
            ≡ count_true (run calls (new_dynamic_sampler cfg)).1)
        × ((run calls (new_dynamic_sampler cfg)).0.sampled_count
            ≤ (run calls (new_dynamic_sampler cfg)).0.total_count)
  run-counts cfg calls small =
      let c = run-Counts calls (new_dynamic_sampler cfg) 0 0 (omega arith) (new-Counts cfg) in
      omega (arith, c.totals, c.kept, c.split, c.bounded)

  -- With a high rate of 1 or more every span that is slow or failed is kept, whatever is drawn; with
  -- a low rate of at most 0, which is not 1 or more, no other span is.
  should_sample-error :
      (s : DynamicSampler F) (span : Span F) (draw : F)
      → fle (lit 1 0) s.high_rate ≡ true
      → fle s.low_rate (lit 0 0) ≡ true
      → fle (lit 1 0) s.low_rate ≡ false
      → (should_sample fl s span draw).1 ≡ (is_slow fl s span || is_error span.error_code)
  unfolding should_sample rate_of
  should_sample-error s span draw high low below = ground arith
