-- ===== src/Sampling/Composite.antt =====
-- pkg/sampling/sampler.go: `CompositeSampler`.
use a.Prelude.{Bool, true, false, not, List, [], ◌∷◌, if◌then◌else◌}
use a.Golang.Float.{Float}
use a.Golang.Result.{Result, ok, ◌>>=◌}
use a.Model.Span.{Span}
use a.Sampling.TraceLevel.{Sampler}

-- A sampler with its state and what the environment gives to its call.
pub record Member (F : Type 0) : Type 1 where
  pub sampler : Sampler F
  pub state : sampler.State
  pub env : sampler.Env

module _ (fl : Float) where
  open fl use {F, flt, lit}

  -- The call of one member: the member behind it, and its decision.
  abbrev pub ask : Member F → Span F → Result (Member F × Bool)
  ask m span = do
    (state', kept) ← m.sampler.should_sample m.state span m.env
    ok (record { sampler = m.sampler; state = state'; env = m.env }, kept)

  -- `ShouldSample` stops at the first member that refuses the span.
  unfoldable pub should_sample : List (Member F) → Span F → Result (List (Member F) × Bool)
  should_sample [] span = ok ([], true)
  should_sample (m ∷ ms) span =
      let rest = should_sample ms span in
      (do
        (m', kept) ← ask m span
        if not kept then ok (m' ∷ ms, false) else (do (ms', all) ← rest; ok (m' ∷ ms', all)))

  -- The loop of `SamplingRate`, with the least rate so far.
  unfoldable pub least_rate : F → List (Member F) → Span F → F
  least_rate least [] span = least
  least_rate least (m ∷ ms) span =
      let rate = m.sampler.sampling_rate m.state span in
      least_rate (if flt rate least then rate else least) ms span

  unfoldable pub sampling_rate : List (Member F) → Span F → F
  unfolding least_rate
  sampling_rate ms span = least_rate (lit 1 0) ms span
