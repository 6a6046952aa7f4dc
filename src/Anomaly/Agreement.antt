-- ===== src/Anomaly/Agreement.antt =====
-- pkg/anomaly/anomaly.go: `RecordSpan` and `IsAnomaly`.
use a.Prelude.{ℕ, ◌+◌, ◌%◌, ◌^◌, ◌≡◌, Bool, true, false, ◌&&◌, Option, none, some, leb}
use a.Golang.Float.{Float}
use a.Golang.Int.{bits64}
use a.Golang.Slice.{Bytes}
use a.Model.Span.{Span}
use a.Anomaly.State.{LatencyStats, AnomalyAlert, DetectorConfig, OperationKey, AnomalyDetector}
use a.Anomaly.Detector.{Clock, alert_key, is_over, key_of, deviation_of, severity_of}

module _ (fl : Float) where
  open fl use {F, flt, fle, fadd, fmul, fsqrt, lit}

  -- What is known of a key: 0 where it has no statistics.
  abbrev pub known : {A : Type 0} → (LatencyStats F → A) → A → Option (LatencyStats F) → A
  known field zero none = zero
  known field zero (some s) = field s

  -- The statistics of a span's key, behind a call that found others.
  abbrev pub Counts : Option (LatencyStats F) → F → ℕ → LatencyStats F → Type 0
  Counts old d now s =
      (s.count ≡ (known (λ s. s.count) 0 old + 1) % 2 ^ 64)
      × (s.sum ≡ fadd (known (λ s. s.sum) (lit 0 0) old) d)
      × (s.sum_sq ≡ fadd (known (λ s. s.sum_sq) (lit 0 0) old) (fmul d d))
      × (s.last_update ≡ now)

  -- Whether a duration is above the threshold of statistics that are of enough samples.
  abbrev pub exceeds : DetectorConfig F → LatencyStats F → F → Bool
  exceeds config s d =
      leb (bits64 config.min_samples) s.count
      && flt (fadd s.ewma (fmul config.deviation_threshold (fsqrt s.ewma_var))) d

  -- Whether an alert of this severity may be sent, since there was none or its cooldown has ended.
  abbrev pub is_free : AnomalyDetector F → OperationKey → Bytes → ℕ → Bool
  is_free d key severity now = elim (d.cooldown (alert_key key severity)) [
    | none ↦ true
    | some last ↦ is_over d.config.cooldown_seconds last now
  ]

  -- Whether a call returns an alert, which is not nil then.
  abbrev pub is_returned : Option (AnomalyAlert F) → Bool
  is_returned none = false
  is_returned (some alert) = true

  -- Whether a call returns an alert, by the statistics behind it.
  abbrev pub Returns :
      Span F → Clock → AnomalyDetector F → LatencyStats F → Bool → Option (AnomalyAlert F) → Type 0
  Returns span clock d s says alert = is_returned alert ≡ (
      says
      && is_free d (key_of fl span) (severity_of fl (deviation_of fl s span.duration_ms))
          clock.check_time)
