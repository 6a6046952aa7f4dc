-- ===== src/Correlator/Matching.antt =====
-- pkg/trace/correlator.go: what a response makes of the oldest request in flight.
use mathlib.Core.Option
use a.Prelude.{
  ℕ, zero, suc, ◌<◌, ◌≡◌, refl, ap, ◌∙◌, Bool, true, false, Option, some, List, [], ◌∷◌, arith,
  length, get_elem?, if◌then◌else◌,
}
use a.Golang.Dict.{lookup, lookup-insert_self}
use a.Golang.Float.{Float}
use a.Golang.Slice.{Bytes}
use a.Model.Span.{Span, set_tag}
use a.Correlator.State.{InflightRequest, ConnectionFlow, Correlator, Env, modify}
use a.Correlator.Handlers.{answer_response, match_request, link_spans}

module _ {F : Type 0} where
  -- The trace and the parent of the span at a place.
  abbrev pub ids : Span F → Bytes × Bytes
  ids span = (span.trace_id, span.parent_span_id)

  abbrev pub ids_at : ℕ → List (Span F) → Option (Bytes × Bytes)
  ids_at i spans = Option.map ids (get_elem? spans i)

  ids_at-modify :
      (f : Span F → Span F) (i j : ℕ) (spans : List (Span F))
      → ((s : Span F) → ids (f s) ≡ ids s)
      → ids_at i (modify f j spans) ≡ ids_at i spans
  unfolding modify
  ids_at-modify f i j [] same = refl
  ids_at-modify f zero zero (s ∷ ss) same = ap some (same s)
  ids_at-modify f (suc i) zero (s ∷ ss) same = refl
  ids_at-modify f zero (suc j) (s ∷ ss) same = refl
  ids_at-modify f (suc i) (suc j) (s ∷ ss) same = ids_at-modify f i j ss same

  ids_at-modify_self :
      (f : Span F → Span F) (i : ℕ) (spans : List (Span F)) (t : Bytes × Bytes)
      → i < length spans
      → ((s : Span F) → ids (f s) ≡ t)
      → ids_at i (modify f i spans) ≡ some t
  unfolding modify
  ids_at-modify_self f i [] t h new = absurd (omega (arith, h))
  ids_at-modify_self f zero (s ∷ ss) t h new = ap some (new s)
  ids_at-modify_self f (suc i) (s ∷ ss) t h new = ids_at-modify_self f i ss t (omega (arith, h)) new

  -- The handler changes no span.
  if_spans :
      (b : Bool) (c d : Correlator F) → c.spans ≡ d.spans → (if b then c else d).spans ≡ d.spans
  if_spans true c d e = e
  if_spans false c d e = refl

  if_connections :
      (b : Bool) (c d : Correlator F)
      → c.connections ≡ d.connections
      → (if b then c else d).connections ≡ d.connections
  if_connections true c d e = e
  if_connections false c d e = refl

module _ (fl : Float) where
  open fl use {F}

  link_spans-ids :
      (req : InflightRequest) (ref : ℕ) (env : Env) (spans : List (Span F)) (request : Span F)
      → get_elem? spans req.span ≡ some request
      → ref < length spans
      → ids_at ref (link_spans fl req ref env spans) ≡ some (request.trace_id, request.span_id)
  unfolding link_spans
  link_spans-ids req ref env spans request e h =
      rw (e, link_spans)
        (ids_at-modify _ ref req.span _ (λ s. refl)
          ∙ ids_at-modify_self _ ref spans (request.trace_id, request.span_id) h (λ s. refl))

  match_request-ids :
      (req : InflightRequest) (ref : ℕ) (env : Env) (c : Correlator F) (request : Span F)
      → get_elem? c.spans req.span ≡ some request
      → ref < length c.spans
      → ids_at ref (match_request fl req ref env c).spans ≡ some (request.trace_id, request.span_id)
  unfolding match_request set_tag
  match_request-ids req ref env c request e h =
      ids_at-modify _ ref ref _ (λ s. refl)
      ∙ (ap (ids_at ref) (if_spans c.has_handler _ _ refl)
          ∙ (ids_at-modify _ ref req.span _ (λ s. refl)
              ∙ (ids_at-modify _ ref ref _ (λ s. refl)
                  ∙ link_spans-ids req ref env c.spans request e h)))

  match_request-connections :
      (req : InflightRequest) (ref : ℕ) (env : Env) (c : Correlator F)
      → (match_request fl req ref env c).connections ≡ c.connections
  unfolding match_request
  match_request-connections req ref env c = if_connections c.has_handler _ _ refl

  -- A response on a flow with requests in flight joins the trace of the oldest of them: its span gets
  -- that request's trace and has that request's span for its parent. The request leaves the flow, and
  -- the others stay.
  pub answer_response-ids :
      (digest : Bytes → Bytes) (ref : ℕ) (key : Bytes) (env : Env) (flow : ConnectionFlow)
      (c : Correlator F) (req : InflightRequest) (reqs : List InflightRequest) (request : Span F)
      → flow.inflight_reqs ≡ req ∷ reqs
      → get_elem? c.spans req.span ≡ some request
      → ref < length c.spans
      → (ids_at ref (answer_response fl digest ref key env flow c).spans
          ≡ some (request.trace_id, request.span_id))
        × (lookup key (answer_response fl digest ref key env flow c).connections
            ≡ some (record flow { inflight_reqs = reqs }))
  unfolding answer_response
  answer_response-ids digest ref key env flow c req reqs request e at h =
      rw (e, answer_response)
        (
          match_request-ids req ref env _ request at h,
          ap (lookup key) (match_request-connections req ref env _)
              ∙ lookup-insert_self key (record flow { inflight_reqs = reqs }) c.connections,
        )
