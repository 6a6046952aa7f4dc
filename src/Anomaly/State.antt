-- ===== src/Anomaly/State.antt =====
-- pkg/anomaly/anomaly.go: the state of an `AnomalyDetector`. Its two maps are functions here, since
-- the code looks keys up and deletes those that fit a test, and never depends on their order.
use a.Prelude.{ℕ, Bool, ◌&&◌, Option, some, List, if◌then◌else◌}
use a.Golang.Int.{ℤ}
use a.Golang.Slice.{Bytes}
use a.Golang.Text.{bytes_eq}
use a.Model.Span.{Tags}

-- `LatencyStats`. The code never writes the fields P50, P95 and P99.
pub record LatencyStats (F : Type 0) : Type 0 where
  pub count : ℕ
  pub sum : F
  pub sum_sq : F
  pub ewma : F
  pub ewma_var : F
  pub mean : F
  pub std_dev : F
  pub alpha : F
  pub last_update : ℕ

pub record AnomalyAlert (F : Type 0) : Type 0 where
  pub trace_id : Bytes
  pub span_id : Bytes
  pub service_name : Bytes
  pub operation : Bytes
  pub timestamp : ℕ
  pub severity : Bytes
  pub anomaly_type : Bytes
  pub description : Bytes
  pub current_value : F
  pub threshold : F
  pub deviation : F
  pub tags : Tags

-- `DetectorConfig`, but for the address of the alert manager.
pub record DetectorConfig (F : Type 0) : Type 0 where
  pub alpha : F
  pub deviation_threshold : F
  pub min_samples : ℤ
  pub cooldown_seconds : ℤ

pub record OperationKey : Type 0 where
  pub service_name : Bytes
  pub operation : Bytes
  pub protocol : Bytes

abbrev pub key_eq : OperationKey → OperationKey → Bool
key_eq j k =
    bytes_eq j.service_name k.service_name
    && (bytes_eq j.operation k.operation && bytes_eq j.protocol k.protocol)

pub record AnomalyDetector (F : Type 0) : Type 0 where
  pub stats : OperationKey → Option (LatencyStats F)
  pub config : DetectorConfig F
  pub alert_chan : List (AnomalyAlert F)
  pub cooldown : Bytes → Option ℕ

-- Writes to the two maps.
abbrev pub set_stats :
    {F : Type 0}
    → OperationKey
    → LatencyStats F
    → (OperationKey → Option (LatencyStats F))
    → OperationKey
    → Option (LatencyStats F)
set_stats k v m j = if key_eq k j then some v else m j

abbrev pub set_time : Bytes → ℕ → (Bytes → Option ℕ) → Bytes → Option ℕ
set_time k t m j = if bytes_eq k j then some t else m j
