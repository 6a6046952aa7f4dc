-- ===== src/Correlator/Flows.antt =====
-- pkg/trace/correlator.go: the requests in flight of each connection.
use a.Prelude.{
  ℕ, ◌≤◌, ◌<◌, ◌≡◌, refl, ap, subst, List, [], ◌∷◌, ◌++◌, arith, leb, length, length-append,
  Bool-cases, inl, inr,
}
use a.Golang.Counter.{add_u64}
use a.Correlator.State.{InflightRequest, ConnectionFlow}
use a.Correlator.Handlers.{kept_requests, push_request}

-- Requests with consecutive numbers, the last of which is the counter.
abbrev pub AreConsecutive : ℕ → List InflightRequest → Type 0
AreConsecutive counter [] = Unit
AreConsecutive counter (req ∷ []) = req.seq ≡ counter
AreConsecutive counter (req ∷ next ∷ reqs) =
    (next.seq ≡ add_u64 req.seq 1) × AreConsecutive counter (next ∷ reqs)

-- A flow of at most `max` requests, in the order in which they were sent.
abbrev pub IsFlow : ℕ → ConnectionFlow → Type 0
IsFlow max flow =
    (length flow.inflight_reqs ≤ max) × AreConsecutive flow.seq_counter flow.inflight_reqs

AreConsecutive-tail :
    (counter : ℕ) (req : InflightRequest) (reqs : List InflightRequest)
    → AreConsecutive counter (req ∷ reqs)
    → AreConsecutive counter reqs
AreConsecutive-tail counter req [] h = tt
AreConsecutive-tail counter req (next ∷ reqs) h = h.1

AreConsecutive-append :
    (counter : ℕ) (reqs : List InflightRequest) (new : InflightRequest)
    → AreConsecutive counter reqs
    → new.seq ≡ add_u64 counter 1
    → AreConsecutive new.seq (reqs ++ (new ∷ []))
AreConsecutive-append counter [] new h e = refl
AreConsecutive-append counter (req ∷ []) new h e = (rw h e, refl)
AreConsecutive-append counter (req ∷ next ∷ reqs) new h e =
    (h.0, AreConsecutive-append counter (next ∷ reqs) new h.1 e)

pub IsFlow-tail :
    (max : ℕ) (flow : ConnectionFlow) (req : InflightRequest) (reqs : List InflightRequest)
    → flow.inflight_reqs ≡ req ∷ reqs
    → IsFlow max flow
    → IsFlow max (record flow { inflight_reqs = reqs })
IsFlow-tail max flow req reqs e h = (
  omega (arith, h.0, ap length e),
  AreConsecutive-tail flow.seq_counter req reqs (subst (AreConsecutive flow.seq_counter) e h.1),
)

kept_requests-bound :
    (max counter : ℕ) (reqs : List InflightRequest)
    → 0 < max
    → length reqs ≤ max
    → AreConsecutive counter reqs
    → (length (kept_requests max reqs) < max) × AreConsecutive counter (kept_requests max reqs)
unfolding kept_requests
kept_requests-bound max counter [] pos h c = (pos, tt)
kept_requests-bound max counter (req ∷ reqs) pos h c =
    elim (Bool-cases (leb max (length (req ∷ reqs)))) [
      | inl full ↦ rw full (omega (arith, h), AreConsecutive-tail counter req reqs c)
      | inr fits ↦ rw fits (ground (arith, fits), c)
    ]

pub push_request-IsFlow :
    (max ref now : ℕ) (flow : ConnectionFlow)
    → 0 < max
    → IsFlow max flow
    → IsFlow max (push_request max ref now flow)
push_request-IsFlow max ref now flow pos h =
    let k = kept_requests-bound max flow.seq_counter flow.inflight_reqs pos h.0 h.1 in
    (
      omega (
        arith,
        k.0,
        length-append (kept_requests max flow.inflight_reqs)
            (record { span = ref; send_time = now; seq = add_u64 flow.seq_counter 1 } ∷ []),
      ),
      AreConsecutive-append flow.seq_counter (kept_requests max flow.inflight_reqs) _ k.1 refl,
    )
