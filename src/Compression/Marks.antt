-- ===== src/Compression/Marks.antt =====
-- pkg/compression/compressor.go: what `CompressSpan` makes of a span, and `DecompressSpan` of that.
use mathlib.Core.List.{Mem}
use a.Prelude.{
  ℕ, Bool, true, ◌≡◌, refl, ◌∙◌, ap, ◌⊎◌, inl, inr, not, ◌||◌, some, [], ltb, length, Bool-cases,
  Option-cases,
}
use a.Golang.Float.{Float}
use a.Golang.Result.{ok}
use a.Golang.Slice.{Bytes}
use a.Golang.Text.{bytes_eq}
use a.Model.Span.{Span, set_tag}
use a.Model.Tree.{Tree, Forest, node, labels, map_tree}
use a.Compression.State.{SubtreeSignature, Compressor, Compressed, Codec}
use a.Compression.Spans.{
  plain, packed, ratio_of, tag_compressed, compress_span, decompress_span, tag_signature,
}

-- A span without its tags.
abbrev pub strip : {F : Type 0} → Span F → Span F
strip s = record s { tags = [] }

-- The same tree but for the tags.
abbrev pub SameSpans : {F : Type 0} → Tree (Span F) → Tree (Span F) → Type 0
SameSpans t u = map_tree strip t ≡ map_tree strip u

-- What is known of the parameters: zstd decodes what it encodes, and JSON keeps what it encodes, but
-- for tags, of spans that are `Encodable`: those whose strings are valid UTF-8.
pub record IsFaithful {F : Type 0} (codec : Codec F) (Encodable : Span F → Type 0) : Type 0 where
  pub zstd : (json : Bytes) → codec.decode_all (codec.encode_all json) ≡ some json
  pub json :
      (t : Tree (Span F)) (text : Bytes)
      → ((s : Span F) → Mem s (labels t) → Encodable (strip s))
      → codec.marshal t ≡ some text
      → (u : Tree (Span F)) × (codec.unmarshal text ≡ some u) × SameSpans u t

module _ (fl : Float) (codec : Codec fl.F) where
  open fl use {F, flt, lit}

  strip-tag_compressed :
      (original compressed : ℕ) (s : Span F)
      → strip (tag_compressed fl codec original compressed s) ≡ strip s
  unfolding set_tag
  strip-tag_compressed original compressed s = refl

  pub strip-tag_signature :
      (sig : SubtreeSignature) (s : Span F) → strip (tag_signature fl codec sig s) ≡ strip s
  unfolding tag_signature set_tag
  strip-tag_signature sig s = elim (Bool-cases (ltb 1 sig.count)) [
    | inl e ↦ rw e refl
    | inr e ↦ rw e refl
  ]

  -- What decompressing a span yields, whose trace has become a root: that root, or a tree like the
  -- one that was compressed.
  abbrev pub Decodes : Tree (Span F) → Compressed F → Type 0
  Decodes t found =
      (root : Tree (Span F)) (hash : Bytes)
      → (u : Tree (Span F)) × (decompress_span fl codec
            (record found { span = root; signature_hash = hash })
          ≡ ok u)
        × ((u ≡ root) ⊎ SameSpans u t)

  plain-Decodes : (t s : Tree (Span F)) → Decodes t (plain fl codec s)
  unfolding decompress_span
  plain-Decodes t s root hash = (root, refl, inl refl)

  -- A compressed span, if the parameters are faithful.
  json-Decodes :
      (Encodable : Span F → Type 0)
      → IsFaithful codec Encodable
      → (t : Tree (Span F)) (json : Bytes) (found : Compressed F)
      → ((s : Span F) → Mem s (labels t) → Encodable (strip s))
      → codec.marshal t ≡ some json
      → found.compressed_data ≡ codec.encode_all json
      → Decodes t found
  unfolding decompress_span
  json-Decodes Encodable faithful t json found good e from root hash =
      elim (Bool-cases (not found.is_compressed || bytes_eq found.compressed_data [])) [
        | inl given ↦ rw (given, decompress_span) (root, refl, inl refl)
        | inr given ↦
            let (u, read, same) = faithful.json t json good e in
            let decoded : codec.decode_all found.compressed_data ≡ some json =
              ap codec.decode_all from ∙ faithful.zstd json in
            rw (given, decoded, read, decompress_span) (u, refl, inr same)
      ]

  -- What compressing a span does to it.
  abbrev pub Marks : Span F → Forest (Span F) → Compressed F × Tree (Span F) × Compressor F → Type 0
  Marks span f result =
      (marked : Span F) × (result.1 ≡ node marked f)
      × (strip marked ≡ strip span)
      × Decodes (node span f) result.0

  pub compress_span-Marks :
      (Encodable : Span F → Type 0)
      → IsFaithful codec Encodable
      → (made : Span F → Bool) (span : Span F) (f : Forest (Span F)) (c : Compressor F)
      → made span ≡ true
      → ((s : Span F) → Mem s (labels (node span f)) → Encodable (strip s))
      → (result : Compressed F × Tree (Span F) × Compressor F) × (compress_span fl codec made
            (node span f)
            c
          ≡ ok result)
        × Marks span f result
  unfolding compress_span
  compress_span-Marks Encodable faithful made span f c has good =
      elim (Option-cases (codec.marshal (node span f))) [
        | inl e ↦
            rw (e, compress_span)
              (_, refl, (span, refl, refl, plain-Decodes (node span f) (node span f)))
        | inr (json, e) ↦
            let bytes = codec.encode_all json in
            elim (Bool-cases (
              ltb (length json) 256
              || flt (ratio_of fl codec (length json) (length bytes)) (lit 12 1))) [
                | inl small ↦
                    rw (e, small, compress_span)
                      (_, refl, (span, refl, refl, plain-Decodes (node span f) (node span f)))
                | inr large ↦
                    rw (e, large, has, compress_span)
                      (
                        _,
                        refl,
                        (
                          tag_compressed fl codec (length json) (length bytes) span,
                          refl,
                          strip-tag_compressed (length json) (length bytes) span,
                          json-Decodes Encodable faithful (node span f) json
                              (packed fl codec
                                (node (tag_compressed fl codec (length json) (length bytes) span) f)
                                bytes (length json))
                              good e refl,
                        ),
                      )
              ]
      ]
