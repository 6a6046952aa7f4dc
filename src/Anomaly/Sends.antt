-- ===== src/Anomaly/Sends.antt =====
-- pkg/anomaly/anomaly.go: what a call of `RecordSpan` makes of the cooldowns.
use a.Prelude.{
  ℕ, ◌≡◌, refl, sym, subst, inl, inr, true, Option, none, some, List, [], ◌∷◌, ltb, arith,
  Bool-cases, Option-cases,
}
use a.Golang.Float.{Float}
use a.Golang.Int.{ℤ, bits64}
use a.Golang.Slice.{Bytes}
use a.Model.Span.{Span}
use a.Anomaly.State.{LatencyStats, AnomalyAlert, AnomalyDetector, set_time}
use a.Anomaly.Detector.{
  Clock, alert_key, is_over, key_of, threshold_of, should_send_alert, raise_alert, push_alert,
  recorded_stats, record_span,
}

-- The cooldown of a key that has ended, or was never begun.
abbrev pub IsFree : ℤ → ℕ → Option ℕ → Type 0
IsFree seconds check none = Unit
IsFree seconds check (some last) = is_over seconds last check ≡ true

module _ (fl : Float) where
  open fl use {F, flt, fle, lit}

  -- The sends of a call, each with the key of its cooldown and its time.
  abbrev pub sends_of : Option (Span F) → Option (AnomalyAlert F) → ℕ → List (Bytes × ℕ)
  sends_of (some span) (some alert) now = (alert_key (key_of fl span) alert.severity, now) ∷ []
  sends_of _ _ now = []

  -- What a call makes of the cooldowns, by its sends.
  abbrev pub CooldownAfter :
      Clock → AnomalyDetector F → AnomalyDetector F → List (Bytes × ℕ) → Type 0
  CooldownAfter clock d d' [] = d'.cooldown ≡ d.cooldown
  CooldownAfter clock d d' ((key, now) ∷ more) =
      IsFree d.config.cooldown_seconds clock.check_time (d.cooldown key)
      × (d'.cooldown ≡ set_time key now d.cooldown)
      × (now ≡ clock.sent_time)
      × (more ≡ [])

  push_alert-cooldown :
      (alert : AnomalyAlert F) (d : AnomalyDetector F)
      → (push_alert fl alert d).cooldown ≡ d.cooldown
  push_alert-cooldown alert d = ground arith

  raise_alert-cooldown :
      (span : Span F) (alert : AnomalyAlert F) (clock : Clock) (d : AnomalyDetector F)
      → CooldownAfter clock d
          (raise_alert fl (key_of fl span) alert clock d).0
          (sends_of (some span) (raise_alert fl (key_of fl span) alert clock d).1 clock.sent_time)
  unfolding raise_alert should_send_alert
  raise_alert-cooldown span alert clock d =
      let key = alert_key (key_of fl span) alert.severity in
      let free =
        λ (key : Bytes) (o : Option ℕ) (e : d.cooldown key ≡ o)
            (h : IsFree d.config.cooldown_seconds clock.check_time o).
          subst (IsFree d.config.cooldown_seconds clock.check_time) (sym e) h in
      elim (Option-cases (d.cooldown key)) [
        | inl e ↦
            rw (e, raise_alert, should_send_alert)
              (free key none e tt, push_alert-cooldown alert _, refl, refl)
        | inr (last, e) ↦
            elim (Bool-cases (is_over d.config.cooldown_seconds last clock.check_time)) [
              | inl over ↦
                  rw (e, over, raise_alert, should_send_alert)
                    (free key (some last) e over, push_alert-cooldown alert _, refl, refl)
              | inr early ↦ rw (e, early, raise_alert, should_send_alert) refl
            ]
      ]

  pub record_span-cooldown :
      (span : Option (Span F)) (clock : Clock) (d : AnomalyDetector F)
      → CooldownAfter clock d
          (record_span fl span clock d).0
          (sends_of span (record_span fl span clock d).1 clock.sent_time)
  unfolding record_span
  record_span-cooldown none clock d = refl
  record_span-cooldown (some span) clock d = elim (Bool-cases (fle span.duration_ms (lit 0 0))) [
    | inl e ↦ rw (e, record_span) refl
    | inr e ↦
        let s : LatencyStats F = recorded_stats fl span clock.update_time d in
        elim (Bool-cases (ltb s.count (bits64 d.config.min_samples))) [
          | inl few ↦ rw (e, few, record_span) refl
          | inr enough ↦ elim (Bool-cases (flt (threshold_of fl d.config s) span.duration_ms)) [
            | inl above ↦ rw (e, enough, above, record_span) (raise_alert-cooldown span _ clock _)
            | inr below ↦ rw (e, enough, below, record_span) refl
          ]
        ]
  ]

  pub record_span-config :
      (span : Option (Span F)) (clock : Clock) (d : AnomalyDetector F)
      → (record_span fl span clock d).0.config ≡ d.config
  unfolding record_span raise_alert should_send_alert
  record_span-config none clock d = refl
  record_span-config (some span) clock d = ground arith
