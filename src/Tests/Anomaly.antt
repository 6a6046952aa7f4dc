-- ===== src/Tests/Anomaly.antt =====
-- Tests of the anomaly detector.
use a.Prelude.{ℕ, ◌*◌, ◌^◌, ◌≡◌, refl, Option, some, List, [], ◌∷◌, arith}
use a.Golang.Int.{pos}
use a.Golang.Text.{text, bytes_eq}
use a.Model.Span.{Span}
use a.Anomaly.State.{DetectorConfig, AnomalyDetector}
use a.Anomaly.Detector.{
  Clock, recorded_stats, record_span, new_anomaly_detector, update_stats, update_mean, update_ewma,
  raise_alert, should_send_alert, alert_of, severity_of, is_over, cleanup_old_cooldown,
  cleanup_old_stats,
}
use a.Anomaly.Agreement
use a.Anomaly.Cooldown
use a.Anomaly.Cooldown.{Step, recorded, cleaned, sends, AreSpaced}
use a.Tests.Instances.{whole_numbers, span_of}

-- Every duration above the first one is an anomaly.
abbrev settings : DetectorConfig ℕ
settings = record {
  alpha = 0;
  deviation_threshold = 0;
  min_samples = pos 0;
  cooldown_seconds = pos 60;
}

abbrev detector : AnomalyDetector ℕ
unfolding new_anomaly_detector
detector = new_anomaly_detector whole_numbers (some settings)

abbrev at : ℕ → Clock
at t = record { update_time = t; alert_time = t; check_time = t; sent_time = t }

abbrev span : ℕ → Option (Span ℕ)
span duration = some (span_of (text "t1") duration 0)

-- A first span, one above it, one more in the cooldown, and one behind the cooldown.
abbrev steps : List (Step whole_numbers)
steps =
    recorded (span 5) (at 1)
    ∷ recorded (span 8) (at 2)
    ∷ recorded (span 8) (at 3)
    ∷ cleaned 4 4
    ∷ recorded (span 8) (at (61000000000))
    ∷ []

runs :
    sends whole_numbers steps detector
    ≡ ((text ":::warning", 2) ∷ (text ":::warning", 61000000000) ∷ [])
unfolding record_span recorded_stats update_stats update_mean update_ewma detector bytes_eq
    raise_alert should_send_alert alert_of severity_of is_over cleanup_old_cooldown
    cleanup_old_stats
runs = refl

sends-AreSpaced_example : AreSpaced (60 * 10 ^ 9) (sends whole_numbers steps detector)
unfolding detector
sends-AreSpaced_example =
    Cooldown.sends-AreSpaced whole_numbers 60 (omega arith) 0 steps detector refl (
      omega arith,
      omega arith,
      (
        omega arith,
        omega arith,
        (omega arith, omega arith, (omega arith, (omega arith, omega arith, tt))),
      ),
    )

abbrev spike : Span ℕ
spike = span_of (text "t1") 50 0

abbrev second : AnomalyDetector ℕ
unfolding record_span recorded_stats
second = (record_span whole_numbers (span 5) (at 1) detector).0
