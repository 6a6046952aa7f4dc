-- ===== src/Correlator/Expiry.antt =====
-- pkg/trace/correlator.go: `cleanupExpired`.
use a.Prelude.{ℕ, ◌+◌, Bool, true, ◌&&◌, List, [], ◌∷◌, ltb, if◌then◌else◌}
use a.Golang.Float.{Float}
use a.Golang.Slice.{Bytes}
use a.Golang.Text.{text}
use a.Model.Span.{TagValue}
use a.Correlator.State.{PendingRequest, ConnectionFlow, Correlator, handle_spans, ensure_trace}
use a.Correlator.Handlers.{tag_span, tag_requests, end_flow}

module _ (fl : Float) where
  open fl use {F}

  -- `now.Sub(t) > timeout`; the difference to Go's zero time is the largest duration.
  abbrev pub is_expired : ℕ → ℕ → ℕ → Bool
  is_expired now timeout t = ltb (t + timeout) now

  -- The pending spans that stay, and the pass over those that do not, each with a new identifier.
  unfoldable pub live_requests : ℕ → ℕ → List PendingRequest → List PendingRequest
  live_requests now timeout [] = []
  live_requests now timeout (p ∷ ps) =
      if is_expired now timeout p.timestamp
      then live_requests now timeout ps
      else p ∷ live_requests now timeout ps

  unfoldable pub expire_requests :
      (Bytes → Bytes) → (ℕ → Bytes) → ℕ → List PendingRequest → Correlator F → Correlator F
  expire_requests digest new_span_id now [] c = c
  expire_requests digest new_span_id now (p ∷ ps) c = expire_requests digest new_span_id now ps (
      if is_expired now c.timeout p.timestamp
      then handle_spans (p.span ∷ []) (
          tag_span fl (text "timeout") (TagValue.flag true) p.span
            (ensure_trace digest (new_span_id p.span) p.span c))
      else c)

  -- The flows that neither sent nor received within the timeout end; `flows` are those of the map.
  unfoldable pub expire_flows : ℕ → List (Bytes × ConnectionFlow) → Correlator F → Correlator F
  expire_flows now [] c = c
  expire_flows now ((key, flow) ∷ flows) c = expire_flows now flows (
      if is_expired now c.timeout flow.last_send && is_expired now c.timeout flow.last_recv
      then end_flow fl key flow (tag_requests fl (text "connection_timeout") flow.inflight_reqs c)
      else c)

  -- `cleanupExpired`
  unfoldable pub cleanup_expired : (Bytes → Bytes) → (ℕ → Bytes) → ℕ → Correlator F → Correlator F
  cleanup_expired digest new_span_id now c =
      let c1 = expire_requests digest new_span_id now c.pending_requests c in
      let c2 = record c1 { pending_requests = live_requests now c.timeout c1.pending_requests } in
      expire_flows now c2.connections c2
