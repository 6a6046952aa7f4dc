-- ===== src/Compression/Spans.antt =====
-- pkg/compression/compressor.go: compressing spans and traces, and back, for spans that are not nil
-- (a nil span is returned as it is). `CompressSpan` writes to the tags of a span it compresses, which
-- is a panic where they are a nil map; a nil and an empty map are one list here, so an argument `made`
-- says of a span whether its map was made. `SetTag` makes a map that is nil. Compressing a trace marks
-- its spans with tags and sorts their children in place; the changed trace is a result here.
use a.Prelude.{
  ℕ, zero, suc, Bool, true, false, not, ◌||◌, Option, none, some, [], ltb, if◌then◌else◌, length,
}
use a.Golang.Counter.{add_u64}
use a.Golang.Float.{Float}
use a.Golang.Int.{pos, int64}
use a.Golang.Result.{Result, ok, err, panic, ◌>>=◌}
use a.Golang.Slice.{Bytes}
use a.Golang.Text.{text, bytes_eq}
use a.Model.Span.{Span, num, flag, str, set_tag}
use a.Model.Tree.{Tree, Forest, node, nil, cons, label, Sorter}
use a.Compression.State.{
  SubtreeSignature, CompressionStats, Cache, Compressor, Compressed, Codec, CompressorConfig,
}
use a.Compression.Signature.{compute_subtree_signature}

module _ (fl : Float) (codec : Codec fl.F) where
  open fl use {F, flt, fdiv, of_int, lit, show2}

  -- `NewCompressor`: a nil configuration is `none`, and so is an error of the zstd encoder or decoder.
  unfoldable pub new_compressor : Bool → Option (CompressorConfig F) → Option (Compressor F)
  new_compressor zstd_fails given =
      let config : CompressorConfig F = elim given [
        | none ↦ record {
          compression_level = pos 3;
          max_cache_size = pos 10000;
          similarity_threshold = lit 9 1;
        }
        | some config ↦ config
      ] in
      if zstd_fails
      then none
      else some (record {
        signature_cache = [];
        stats = record {
          total_spans = 0;
          compressed_spans = 0;
          total_original = 0;
          total_compressed = 0;
          compression_ratio = lit 0 0;
          cache_hits = 0;
          cache_misses = 0;
        };
        max_cache_size = config.max_cache_size;
        similarity_threshold = config.similarity_threshold;
      })

  -- A span that is not compressed.
  abbrev pub plain : Tree (Span F) → Compressed F
  plain span = record {
    span = span;
    compressed_data = [];
    compression_ratio = lit 0 0;
    is_compressed = false;
    signature_hash = [];
    original_size = 0;
    compressed_size = 0;
  }

  abbrev pub ratio_of : ℕ → ℕ → F
  ratio_of original compressed = fdiv (of_int (pos original)) (of_int (pos compressed))

  -- A span that is compressed, from data of an original size.
  abbrev pub packed : Tree (Span F) → Bytes → ℕ → Compressed F
  packed span compressed_data original = record {
    span = span;
    compressed_data = compressed_data;
    compression_ratio = ratio_of original (length compressed_data);
    is_compressed = true;
    signature_hash = [];
    original_size = original;
    compressed_size = length compressed_data;
  }

  -- The tags of a span that was compressed.
  abbrev pub tag_compressed : ℕ → ℕ → Span F → Span F
  tag_compressed original compressed span = set_tag (text "compressed_size") (num compressed) (
      set_tag (text "original_size") (num original) (
        set_tag (text "compression_ratio") (str (show2 (ratio_of original compressed)))
          (set_tag (text "compressed") (flag true) span)))

  unfoldable pub count_compressed : ℕ → ℕ → CompressionStats F → CompressionStats F
  count_compressed original compressed stats =
      let total_original = add_u64 stats.total_original original in
      let total_compressed = add_u64 stats.total_compressed compressed in
      record stats {
        compressed_spans = add_u64 stats.compressed_spans 1;
        total_original = total_original;
        total_compressed = total_compressed;
        compression_ratio = fdiv (of_int (int64 total_original)) (of_int (int64 total_compressed));
      }

  -- `CompressSpan`: what it finds of the span, the span with its tags, and the new statistics.
  unfoldable pub compress_span :
      (Span F → Bool)
      → Tree (Span F)
      → Compressor F
      → Result (Compressed F × Tree (Span F) × Compressor F)
  compress_span made (node span children) c =
      let c1 : Compressor F = record c {
        stats = record c.stats { total_spans = add_u64 c.stats.total_spans 1 };
      } in
      elim (codec.marshal (node span children)) [
        | none ↦ ok (plain (node span children), node span children, c1)
        | some json ↦
            let compressed_data = codec.encode_all json in
            let original = length json in
            let compressed = length compressed_data in
            if ltb original 256 || flt (ratio_of original compressed) (lit 12 1)
            then ok (plain (node span children), node span children, c1)
            else if not (made span)
            then panic
            else (let marked : Tree (Span F) =
                  node (tag_compressed original compressed span) children in
                ok (
                  packed marked compressed_data original,
                  marked,
                  record c1 { stats = count_compressed original compressed c1.stats },
                ))
      ]

  -- `DecompressSpan`
  unfoldable pub decompress_span : Compressed F → Result (Tree (Span F))
  decompress_span c =
      if not c.is_compressed || bytes_eq c.compressed_data []
      then ok c.span
      else elim (codec.decode_all c.compressed_data) [
        | none ↦ err
        | some json ↦ elim (codec.unmarshal json) [ none ↦ err | some span ↦ ok span ]
      ]

  -- The tags of a signature. The count of a signature that was just made is 1.
  unfoldable pub tag_signature : SubtreeSignature → Span F → Span F
  tag_signature sig span =
      let tagged = set_tag (text "subtree_operations") (num (length sig.operations)) (
        set_tag (text "subtree_depth") (num sig.depth)
          (set_tag (text "subtree_hash") (str sig.hash) span)) in
      if ltb 1 sig.count
      then set_tag (text "subtree_duplicate_count") (num sig.count) tagged
      else tagged

  -- What compressing a trace leaves: the trace, the result and the state; `err` is a fuel that runs out.
  abbrev pub Outcome : Type 0
  Outcome = Result (Tree (Span F) × Tree (Compressed F) × Compressor F)

  -- The loop of `CompressTrace` over the children, each compressed by a function.
  unfoldable pub compress_children :
      (Tree (Span F) → Compressor F → Outcome)
      → Forest (Span F)
      → Compressor F
      → Result (Forest (Span F) × Forest (Compressed F) × Compressor F)
  compress_children compress nil c = ok (nil, nil, c)
  compress_children compress (cons child rest) c = compress child c >>= λ (span, result, c1).
      compress_children compress rest c1 >>= λ (spans, results, c2).
      ok (cons span spans, cons result results, c2)

  -- The root with its children behind that loop.
  unfoldable pub compress_below :
      (Tree (Span F) → Compressor F → Outcome)
      → SubtreeSignature
      → Compressed F
      → Tree (Span F)
      → Compressor F
      → Outcome
  compress_below compress sig found (node span children) c =
      compress_children compress children c >>= λ (spans, results, c').
      let root : Tree (Span F) = node (tag_signature sig span) spans in
      ok (root, node (record found { span = root; signature_hash = sig.hash }) results, c')

  -- `CompressTrace`; the fuel bounds the depth. A compressed span embeds its span, which is shared with
  -- the trace.
  unfoldable pub compress_trace :
      Sorter → (Cache → Cache) → (Span F → Bool) → ℕ → Tree (Span F) → Compressor F → Outcome
  compress_trace sorter order made zero root c = err
  compress_trace sorter order made (suc fuel) root c =
      compress_span made root c >>= λ (found, marked, c1).
      let (sorted, sig, c2) = compute_subtree_signature sorter order marked c1 in
      compress_below (compress_trace sorter order made fuel) sig found sorted c2

  -- `DecompressTrace`, and its loop over the children. A span with compressed children gets these, one
  -- without keeps its own.
  unfoldable mutual
    pub decompress_trace : Tree (Compressed F) → Result (Tree (Span F))
    decompress_trace (node c nil) = decompress_span c
    decompress_trace (node c (cons child rest)) = decompress_span c >>= λ span.
        decompress_children (cons child rest) >>= λ children. ok (node (label span) children)

    pub decompress_children : Forest (Compressed F) → Result (Forest (Span F))
    decompress_children nil = ok nil
    decompress_children (cons child rest) = decompress_trace child >>= λ span.
        decompress_children rest >>= λ spans. ok (cons span spans)
