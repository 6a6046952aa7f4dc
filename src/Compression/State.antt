-- ===== src/Compression/State.antt =====
-- pkg/compression/compressor.go: the state of a `Compressor`. An int64 is its bit pattern. The zstd
-- encoder and decoder and `encoding/json` are parameters.
use a.Prelude.{ℕ, Bool, Option, List}
use a.Golang.Int.{ℤ}
use a.Golang.Slice.{Bytes}
use a.Model.Span.{Span}
use a.Model.Tree.{Tree}

pub record SubtreeSignature : Type 0 where
  pub hash : Bytes
  pub structure : Bytes
  pub operations : List Bytes
  pub depth : ℕ
  pub count : ℕ

pub record CompressionStats (F : Type 0) : Type 0 where
  pub total_spans : ℕ
  pub compressed_spans : ℕ
  pub total_original : ℕ
  pub total_compressed : ℕ
  pub compression_ratio : F
  pub cache_hits : ℕ
  pub cache_misses : ℕ

abbrev pub Cache : Type 0
Cache = List (Bytes × SubtreeSignature)

pub record Compressor (F : Type 0) : Type 0 where
  pub signature_cache : Cache
  pub stats : CompressionStats F
  pub max_cache_size : ℤ
  pub similarity_threshold : F

-- `CompressedSpan` without its children; the embedded span has its own children.
pub record Compressed (F : Type 0) : Type 0 where
  pub span : Tree (Span F)
  pub compressed_data : Bytes
  pub compression_ratio : F
  pub is_compressed : Bool
  pub signature_hash : Bytes
  pub original_size : ℕ
  pub compressed_size : ℕ

-- `json.Marshal` and `json.Unmarshal` of a span, with its children, and zstd's `EncodeAll` and
-- `DecodeAll`; `none` is an error.
pub record Codec (F : Type 0) : Type 0 where
  pub marshal : Tree (Span F) → Option Bytes
  pub unmarshal : Bytes → Option (Tree (Span F))
  pub encode_all : Bytes → Bytes
  pub decode_all : Bytes → Option Bytes

pub record CompressorConfig (F : Type 0) : Type 0 where
  pub compression_level : ℤ
  pub max_cache_size : ℤ
  pub similarity_threshold : F
