-- ===== src/Sampling/Adaptive/Window.antt =====
-- pkg/sampling/sampler.go: the window of `AdaptiveSampler` and the events of the last 10 seconds.
use a.Prelude.{
  ℕ, ◌+◌, ◌≤◌, ◌<◌, ◌≡◌, refl, List, [], ◌∷◌, ◌++◌, arith, ltb, if◌then◌else◌, All, All-append,
  Bool-cases, inl, inr,
}
use a.Sampling.Adaptive.{AdaptiveSampler, prune, add_event}

-- The events in the order of their times, none after `t`.
abbrev pub IsOrdered : ℕ → List ℕ → Type 0
IsOrdered t [] = Unit
IsOrdered t (x ∷ xs) = All (λ y. x ≤ y) xs × (x ≤ t) × IsOrdered t xs

-- The events after `now - duration`: a plain filter.
abbrev pub recent : ℕ → ℕ → List ℕ → List ℕ
recent duration now [] = []
recent duration now (t ∷ ts) =
    if ltb now (t + duration) then t ∷ recent duration now ts else recent duration now ts

recent-All :
    (duration now t : ℕ) (ts : List ℕ)
    → now < t + duration
    → All (λ y. t ≤ y) ts
    → recent duration now ts ≡ ts
recent-All duration now t [] h a = refl
recent-All duration now t (y ∷ ys) h a = ground (arith, recent-All duration now t ys h a.1)

prune-recent :
    (duration now t : ℕ) (ts : List ℕ)
    → IsOrdered t ts
    → prune duration now ts ≡ recent duration now ts
unfolding prune
prune-recent duration now t [] o = refl
prune-recent duration now t (x ∷ xs) o =
    ground (arith, prune-recent duration now t xs o.2, recent-All duration now x xs)

IsOrdered-append : (t u : ℕ) (ts : List ℕ) → IsOrdered t ts → t ≤ u → IsOrdered u (ts ++ (u ∷ []))
IsOrdered-append t u [] o h = (tt, omega arith, tt)
IsOrdered-append t u (x ∷ xs) o h = (
  All-append (λ y. x ≤ y) xs (u ∷ []) o.0 (omega arith, tt),
  omega arith,
  IsOrdered-append t u xs o.2 h,
)

IsOrdered-prune :
    (duration now t : ℕ) (ts : List ℕ) → IsOrdered t ts → IsOrdered t (prune duration now ts)
unfolding prune
IsOrdered-prune duration now t [] o = tt
IsOrdered-prune duration now t (x ∷ xs) o = elim (Bool-cases (ltb now (x + duration))) [
  | inl late ↦ rw late o
  | inr old ↦ rw old (IsOrdered-prune duration now t xs o.2)
]

-- Where the window's events stand in the order of their times, none later than the new event's,
-- `addEvent` leaves exactly the events of the last `windowDuration`, the new one with them, in order.
pub add_event-recent :
    {F : Type 0} (s : AdaptiveSampler F) (t now : ℕ)
    → IsOrdered t s.window
    → t ≤ now
    → ((add_event now s).window ≡ recent s.window_duration now (s.window ++ (now ∷ [])))
      × IsOrdered now (add_event now s).window
unfolding add_event
add_event-recent s t now o h =
    let ordered = IsOrdered-append t now s.window o h in
    (
      prune-recent s.window_duration now now _ ordered,
      IsOrdered-prune s.window_duration now now _ ordered,
    )
