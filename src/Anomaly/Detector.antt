-- ===== src/Anomaly/Detector.antt =====
-- pkg/anomaly/anomaly.go: the operations of an `AnomalyDetector`. A call holds the locks from its
-- start to its end, so it is one step. Posting alerts to the alert manager is not modelled.
use mathlib.Core.Option
use a.Prelude.{
  ℕ, ◌+◌, ◌-◌, ◌*◌, ◌%◌, ◌^◌, Bool, true, false, ◌&&◌, ◌||◌, Option, none, some, [], ◌∷◌, ◌++◌, ltb,
  leb, if◌then◌else◌, length,
}
use a.Golang.Counter.{add_u64}
use a.Golang.Float.{Float}
use a.Golang.Int.{ℤ, pos, bits64}
use a.Golang.Slice.{Bytes}
use a.Golang.Text.{text}
use a.Model.Span.{Span}
use a.Anomaly.State.{
  LatencyStats, AnomalyAlert, DetectorConfig, OperationKey, AnomalyDetector, set_stats, set_time,
}

-- The readings of the clock in a call of `RecordSpan`, in the order in which they are taken.
pub record Clock : Type 0 where
  pub update_time : ℕ
  pub alert_time : ℕ
  pub check_time : ℕ
  pub sent_time : ℕ

-- `fmt.Sprintf("%s:%s:%s:%s", ...)`
abbrev pub alert_key : OperationKey → Bytes → Bytes
alert_key key severity =
    key.service_name
    ++ (text ":" ++ (key.operation ++ (text ":" ++ (key.protocol ++ (text ":" ++ severity)))))

-- `time.Since(last) > time.Duration(seconds)*time.Second` at a time that is not before `last`. The
-- product wraps at 64 bits, and a negative one is below every elapsed time.
unfoldable pub is_over : ℤ → ℕ → ℕ → Bool
is_over seconds last now =
    let nanos = bits64 seconds * 10 ^ 9 % 2 ^ 64 in leb (2 ^ 63) nanos || ltb (last + nanos) now

module _ (fl : Float) where
  open fl use {F, flt, fle, fadd, fsub, fmul, fdiv, of_int, lit, fsqrt, fmax, show2}

  -- `NewAnomalyDetector`, without the loops that it starts; a nil configuration is `none`.
  abbrev pub default_config : DetectorConfig F
  default_config = record {
    alpha = lit 2 1;
    deviation_threshold = lit 3 0;
    min_samples = pos 100;
    cooldown_seconds = pos 60;
  }

  unfoldable pub new_anomaly_detector : Option (DetectorConfig F) → AnomalyDetector F
  new_anomaly_detector config = record {
    stats = λ k. none;
    config = Option.get_or config default_config;
    alert_chan = [];
    cooldown = λ k. none;
  }

  -- `x == 0`, which a NaN is not.
  abbrev pub is_zero : F → Bool
  is_zero x = fle x (lit 0 0) && fle (lit 0 0) x

  abbrev pub key_of : Span F → OperationKey
  key_of span = record {
    service_name = span.service_name;
    operation = span.operation;
    protocol = span.protocol;
  }

  -- The statistics of a key that has none.
  abbrev pub fresh_stats : DetectorConfig F → ℕ → LatencyStats F
  fresh_stats config now = record {
    count = 0;
    sum = lit 0 0;
    sum_sq = lit 0 0;
    ewma = lit 0 0;
    ewma_var = lit 0 0;
    mean = lit 0 0;
    std_dev = lit 0 0;
    alpha = config.alpha;
    last_update = now;
  }

  -- The moving average and variance, with a duration more.
  unfoldable pub update_ewma : F → F → LatencyStats F → LatencyStats F
  update_ewma alpha d s =
      if is_zero s.ewma
      then record s { ewma = d; ewma_var = lit 0 0 }
      else (let diff = fsub d s.ewma in
          record s {
            ewma = fadd s.ewma (fmul alpha diff);
            ewma_var = fmul (fsub (lit 1 0) alpha) (fadd s.ewma_var (fmul (fmul alpha diff) diff));
          })

  -- The mean and the deviation of all durations.
  unfoldable pub update_mean : LatencyStats F → LatencyStats F
  update_mean s =
      let n = of_int (pos s.count) in
      let s1 = record s { mean = fdiv s.sum n } in
      if ltb 1 s.count
      then (let variance =
            fdiv (fsub s.sum_sq (fdiv (fmul s.sum s.sum) n)) (of_int (pos (s.count - 1))) in
          record s1 { std_dev = fsqrt (fmax (lit 0 0) variance) })
      else s1

  -- The statistics with a duration more.
  unfoldable pub update_stats : F → F → ℕ → LatencyStats F → LatencyStats F
  update_stats alpha d now s = update_mean (
      update_ewma alpha d (record s {
        count = add_u64 s.count 1;
        sum = fadd s.sum d;
        sum_sq = fadd s.sum_sq (fmul d d);
        last_update = now;
      }))

  abbrev pub threshold_of : DetectorConfig F → LatencyStats F → F
  threshold_of config s = fadd s.ewma (fmul config.deviation_threshold (fsqrt s.ewma_var))

  abbrev pub deviation_of : LatencyStats F → F → F
  deviation_of s d = fmul (fdiv (fsub d s.ewma) s.ewma) (lit 100 0)

  unfoldable pub severity_of : F → Bytes
  severity_of deviation =
      if flt (lit 500 0) deviation
      then text "critical"
      else if flt (lit 200 0) deviation
      then text "error"
      else text "warning"

  unfoldable pub alert_of : DetectorConfig F → LatencyStats F → Span F → ℕ → AnomalyAlert F
  alert_of config s span now =
      let threshold = threshold_of config s in
      let deviation = deviation_of s span.duration_ms in
      record {
        trace_id = span.trace_id;
        span_id = span.span_id;
        service_name = span.service_name;
        operation = span.operation;
        timestamp = now;
        severity = severity_of deviation;
        anomaly_type = text "latency_spike";
        description =
            text "Latency anomaly detected: "
            ++ (show2 span.duration_ms
                ++ (text "ms exceeds threshold " ++ (show2 threshold ++ text "ms")));
        current_value = span.duration_ms;
        threshold = threshold;
        deviation = deviation;
        tags = span.tags;
      }

  -- `shouldSendAlert`, for the key of an alert.
  unfoldable pub should_send_alert : Bytes → ℕ → ℕ → AnomalyDetector F → AnomalyDetector F × Bool
  should_send_alert key check sent d =
      let send : AnomalyDetector F × Bool =
        (record d { cooldown = set_time key sent d.cooldown }, true) in
      elim (d.cooldown key) [
        | none ↦ send
        | some last ↦ if is_over d.config.cooldown_seconds last check then send else (d, false)
      ]

  -- An alert goes into the channel while it has room.
  abbrev pub push_alert : AnomalyAlert F → AnomalyDetector F → AnomalyDetector F
  push_alert alert d =
      if ltb (length d.alert_chan) 10000
      then record d { alert_chan = d.alert_chan ++ (alert ∷ []) }
      else d

  -- The end of `RecordSpan` for a duration above the threshold.
  unfoldable pub raise_alert :
      OperationKey
      → AnomalyAlert F
      → Clock
      → AnomalyDetector F
      → AnomalyDetector F × Option (AnomalyAlert F)
  raise_alert key alert clock d =
      let (d', send) =
        should_send_alert (alert_key key alert.severity) clock.check_time clock.sent_time d in
      if send then (push_alert alert d', some alert) else (d', none)

  -- The statistics that the span's key has behind the call.
  unfoldable pub recorded_stats : Span F → ℕ → AnomalyDetector F → LatencyStats F
  recorded_stats span now d =
      update_stats d.config.alpha span.duration_ms now
        (Option.get_or (d.stats (key_of span)) (fresh_stats d.config now))

  -- `RecordSpan`; a nil span is `none`.
  unfoldable pub record_span :
      Option (Span F) → Clock → AnomalyDetector F → AnomalyDetector F × Option (AnomalyAlert F)
  record_span none clock d = (d, none)
  record_span (some span) clock d =
      if fle span.duration_ms (lit 0 0)
      then (d, none)
      else (let s = recorded_stats span clock.update_time d in
          let d1 = record d { stats = set_stats (key_of span) s d.stats } in
          if ltb s.count (bits64 d.config.min_samples)
          then (d1, none)
          else if flt (threshold_of d.config s) span.duration_ms
          then raise_alert (key_of span) (alert_of d.config s span clock.alert_time) clock d1
          else (d1, none))

  -- `IsAnomaly`
  unfoldable pub is_anomaly : Option (Span F) → AnomalyDetector F → Bool
  is_anomaly none d = false
  is_anomaly (some span) d =
      if fle span.duration_ms (lit 0 0) then false else elim (d.stats (key_of span)) [
        | none ↦ false
        | some s ↦
            if ltb s.count (bits64 d.config.min_samples)
            then false
            else (let threshold =
                  fadd s.ewma (fmul d.config.deviation_threshold (fsqrt s.ewma_var)) in
                flt threshold span.duration_ms)
      ]

  -- `cleanupOldStats` and `cleanupOldCooldown`: what is older than an hour, and than ten minutes.
  unfoldable pub cleanup_old_stats : ℕ → AnomalyDetector F → AnomalyDetector F
  cleanup_old_stats now d = record d {
    stats = λ k. elim (d.stats k) [
      | none ↦ none
      | some s ↦ if ltb (s.last_update + 3600 * 10 ^ 9) now then none else some s
    ];
  }

  unfoldable pub cleanup_old_cooldown : ℕ → AnomalyDetector F → AnomalyDetector F
  cleanup_old_cooldown now d = record d {
    cooldown = λ k. elim (d.cooldown k) [
      | none ↦ none
      | some t ↦ if ltb (t + 600 * 10 ^ 9) now then none else some t
    ];
  }

  -- `GetStats`
  abbrev pub get_stats : OperationKey → AnomalyDetector F → Option (LatencyStats F)
  get_stats key d = d.stats key
