-- ===== src/Model/Trace/Times.antt =====
-- pkg/model/trace.go: the times of the trace that `BuildTraceTree` makes.
use a.Prelude.{ℕ, ◌≤◌, ◌≡◌, refl, some, List, [], ◌∷◌, arith, ltb, if◌then◌else◌, All}
use a.Golang.Float.{Float}
use a.Model.Span.{Span}
use a.Model.Trace.{Trace, time_bounds, build_trace_tree}

module _ {F : Type 0} where
  -- A span's times lie within bounds.
  abbrev pub IsWithin : ℕ × ℕ → Span F → Type 0
  IsWithin b span = (b.0 ≤ span.start_time) × (span.end_time ≤ b.1)

  -- The loop's bounds only grow.
  bounds_grow :
      (spans : List (Span F)) (b : ℕ × ℕ)
      → ((time_bounds spans b).0 ≤ b.0) × (b.1 ≤ (time_bounds spans b).1)
  unfolding time_bounds
  bounds_grow [] b = (omega arith, omega arith)
  bounds_grow (span ∷ spans) b = ground (
    arith,
    bounds_grow spans (
      if ltb span.start_time b.0 then span.start_time else b.0,
      if ltb b.1 span.end_time then span.end_time else b.1,
    ),
  )

  time_bounds-All : (spans : List (Span F)) (b : ℕ × ℕ) → All (IsWithin (time_bounds spans b)) spans
  unfolding time_bounds
  time_bounds-All [] b = tt
  time_bounds-All (span ∷ spans) b =
      let next : ℕ × ℕ = (
        if ltb span.start_time b.0 then span.start_time else b.0,
        if ltb b.1 span.end_time then span.end_time else b.1,
      ) in
      (ground (arith, bounds_grow spans next), time_bounds-All spans next)

module _ (fl : Float) where
  open fl use {F}

  -- `BuildTraceTree` of one span or more is a trace of these spans, whose start is not behind the
  -- start of any of them, and whose end is not before the end of any.
  build_trace_tree-IsWithin :
      (first : Span F) (rest : List (Span F))
      → (trace : Trace F) × (build_trace_tree fl (first ∷ rest) ≡ some trace)
        × (trace.spans ≡ first ∷ rest)
        × All (IsWithin (trace.start_time, trace.end_time)) (first ∷ rest)
  unfolding build_trace_tree
  build_trace_tree-IsWithin first rest =
      (_, refl, refl, time_bounds-All (first ∷ rest) (first.start_time, first.end_time))
