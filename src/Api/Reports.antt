-- ===== src/Api/Reports.antt =====
-- pkg/api/server.go: the reports of `getAnomalyStats` and `getCompressionStats`. The order of their
-- entries is that in which a `range` visits a map, as the argument has it.
use a.Prelude.{ℕ, ◌^◌, ◌&&◌, List, [], ◌∷◌, ltb, if◌then◌else◌, length}
use a.Golang.Float.{Float}
use a.Golang.Slice.{Bytes}
use a.Anomaly.State.{LatencyStats, OperationKey}
use a.Compression.State.{SubtreeSignature, CompressionStats, Cache}

pub record OperationReport (F : Type 0) : Type 0 where
  pub service : Bytes
  pub operation : Bytes
  pub protocol : Bytes
  pub count : ℕ
  pub mean : F
  pub std_dev : F
  pub ewma : F
  pub ewma_var : F
  pub threshold : F
  pub last_update : ℕ

pub record CompressionReport (F : Type 0) : Type 0 where
  pub stats : CompressionStats F
  pub savings_percent : F
  pub duplicate_subtrees : ℕ
  pub top_signatures : List SubtreeSignature

-- The signatures that occur more than once.
unfoldable pub top_signatures : Cache → List SubtreeSignature
top_signatures [] = []
top_signatures ((key, sig) ∷ cache) =
    let rest = top_signatures cache in
    if ltb 1 sig.count && ltb sig.count (2 ^ 63) then sig ∷ rest else rest

module _ (fl : Float) where
  open fl use {F, fadd, fsub, fmul, fdiv, lit}

  unfoldable pub operation_report : OperationKey × LatencyStats F → OperationReport F
  operation_report (key, stats) = record {
    service = key.service_name;
    operation = key.operation;
    protocol = key.protocol;
    count = stats.count;
    mean = stats.mean;
    std_dev = stats.std_dev;
    ewma = stats.ewma;
    ewma_var = stats.ewma_var;
    threshold = fadd stats.ewma (fmul (lit 30 1) stats.std_dev);
    last_update = stats.last_update;
  }

  unfoldable pub compression_report : CompressionStats F → Cache → CompressionReport F
  unfolding top_signatures
  compression_report stats cache = record {
    stats = stats;
    savings_percent = fmul (fsub (lit 1 0) (fdiv (lit 1 0) stats.compression_ratio)) (lit 100 0);
    duplicate_subtrees = length (top_signatures cache);
    top_signatures = top_signatures cache;
  }
