-- ===== src/Tests/Compression.antt =====
-- Tests of the compressor.
use mathlib.Core.List.{Mem, Memᴰ, mem-cons_self}
use mathlib.Core.Logic.{∥∥₁_elim}
use mathlib.Core.List.Perm
use a.Prelude.{
  ℕ, Bool, true, false, ◌+◌, ◌%◌, ◌^◌, ◌≤◌, ◌≡◌, refl, sym, ◌∙◌, ap, arith, Option, none, some,
  List, [], ◌∷◌, length, replicate, if◌then◌else◌, Bool-cases, inl, inr, All, ◌==◌,
}
use a.Golang.Dict.{insert, lookup}
use a.Golang.Int.{pos}
use a.Golang.Result.{panic}
use a.Golang.Slice.{Bytes}
use a.Golang.Text.{text, bytes_eq}
use a.Golang.Text.Laws.{bytes_eq_iff}
use a.Model.Span.{Span}
use a.Model.Tree.{Tree, node, nil, cons, labels, height, map_tree}
use a.Compression.Cache
use a.Compression.Cache.{run, lookups, slots}
use a.Compression.Depth
use a.Compression.Marks.{strip, SameSpans, IsFaithful}
use a.Compression.RoundTrip
use a.Compression.RoundTrip.{Restores}
use a.Compression.Signature.{compute_subtree_signature}
use a.Compression.Similar.{compute_similarity, set_of, count_common}
use a.Compression.Spans.{compress_trace, compress_span}
use a.Compression.State.{SubtreeSignature, Cache, Compressor, Codec}
use a.Flame.Depth.{calculate_max_depth}
use a.Flame.Frame.{convert_span_to_flame_frame}
use a.Tests.Instances.{whole_numbers, span_of}
use a.Tests.Sorting.{by_insertion, by_insertion-Permutes}

abbrev span : Span ℕ
span = record (span_of (text "t1") 7 0) { service_name = text "s"; operation = text "get" }

abbrev trace : Tree (Span ℕ)
trace = node span (cons (node span nil) (cons (node span nil) nil))

-- A text of a span without children, and a run of bytes in short.
abbrev long : Bytes
long = replicate 300 b'x'

abbrev marshal_leaf : Tree (Span ℕ) → Option Bytes
marshal_leaf (node s nil) = some long
marshal_leaf (node s (cons t ts)) = none

abbrev encode : Bytes → Bytes
encode json = if bytes_eq json long then b'1' ∷ [] else b'0' ∷ json

abbrev decode : Bytes → Option Bytes
decode [] = none
decode (b ∷ json) = if b == b'0' then some json else some long

abbrev codec : Codec ℕ
codec = record {
  marshal = marshal_leaf;
  unmarshal = λ json. some (node span nil);
  encode_all = encode;
  decode_all = decode;
}

-- The one span whose text this is.
abbrev IsSpan : Span ℕ → Type 0
IsSpan s = s ≡ span

decode-encode : (json : Bytes) → decode (encode json) ≡ some json
decode-encode json = elim (Bool-cases (bytes_eq json long)) [
  | inl e ↦ rw e (ap some (sym ((bytes_eq_iff json long).0 e)))
  | inr e ↦ rw e refl
]

leaf-read :
    (t : Tree (Span ℕ)) (json : Bytes)
    → ((s : Span ℕ) → Mem s (labels t) → IsSpan (strip s))
    → marshal_leaf t ≡ some json
    → (u : Tree (Span ℕ)) × (some (node span nil) ≡ some u) × SameSpans u t
unfolding map_tree labels
leaf-read (node s nil) json good e =
    (node span nil, refl, ap (λ r. node r nil) (sym (good s mem-cons_self)))
leaf-read (node s (cons t ts)) json good e = cc

codec-IsFaithful : IsFaithful codec IsSpan
codec-IsFaithful = record { zstd = decode-encode; json = leaf-read }

abbrev compressor : Compressor ℕ
compressor = record {
  signature_cache = [];
  stats = record {
    total_spans = 0;
    compressed_spans = 0;
    total_original = 0;
    total_compressed = 0;
    compression_ratio = 0;
    cache_hits = 0;
    cache_misses = 0;
  };
  max_cache_size = pos 1;
  similarity_threshold = 1;
}

abbrev as_it_is : Cache → Cache
as_it_is cache = cache

alike :
    (s : Span ℕ) (spans : List (Span ℕ))
    → All (λ t. strip t ≡ span) spans
    → Memᴰ s spans
    → strip s ≡ span
alike s [] h m = elim m [ ]
alike s (t ∷ spans) h (Memᴰ.head e) = ap strip e ∙ h.0
alike s (t ∷ spans) h (Memᴰ.tail m) = alike s spans h.1 m

all_spans : (s : Span ℕ) → Mem s (labels trace) → IsSpan (strip s)
unfolding labels
all_spans s m =
    ∥∥₁_elim {P = IsSpan (strip s)} m (hlevel) (alike s (labels trace) (refl, (refl, (refl, tt))))

abbrev is_made : Span ℕ → Bool
is_made s = true

-- A long span whose tags are nil is a panic.
nil_tags :
    compress_trace whole_numbers codec by_insertion as_it_is
      (λ s. false)
      2
      (node span nil)
      compressor
    ≡ panic
unfolding compress_trace compress_span bytes_eq
nil_tags = refl

compress_trace-decompress_trace_example :
    Restores whole_numbers codec by_insertion by_insertion-Permutes as_it_is trace
      (compress_trace whole_numbers codec by_insertion as_it_is is_made 2 trace compressor)
unfolding height
compress_trace-decompress_trace_example =
    RoundTrip.compress_trace-decompress_trace whole_numbers codec by_insertion by_insertion-Permutes
      as_it_is IsSpan codec-IsFaithful is_made 2 trace compressor (omega arith) (λ s m. refl)
      all_spans

compute_subtree_signature-depth_example :
    (compute_subtree_signature by_insertion as_it_is trace compressor).1.depth
    ≡ calculate_max_depth (convert_span_to_flame_frame whole_numbers by_insertion trace) 1
compute_subtree_signature-depth_example =
    Depth.compute_subtree_signature-depth whole_numbers by_insertion by_insertion-Permutes as_it_is
      trace compressor

abbrev calls : List ((Cache → Cache) × Tree (Span ℕ))
calls = (as_it_is, trace) ∷ (as_it_is, node span nil) ∷ (as_it_is, node span nil) ∷ []

run-IsBounded_example :
    (length (run by_insertion calls compressor).signature_cache ≤ slots (pos 1))
    × (lookups (run by_insertion calls compressor) ≡ (lookups compressor + length calls) % 2 ^ 64)
run-IsBounded_example =
    Cache.run-IsBounded by_insertion calls compressor (Perm.refl, (Perm.refl, (Perm.refl, tt)))
      (omega arith)

abbrev signed : List Bytes → SubtreeSignature
signed ops = record { hash = []; structure = []; operations = ops; depth = 1; count = 1 }

-- Repeated operations are counted each time on one side, so a similarity can be above 1.
repeated :
    compute_similarity whole_numbers
      (signed (text "a" ∷ []))
      (signed (text "a" ∷ text "a" ∷ text "a" ∷ []))
    ≡ 3
unfolding compute_similarity set_of count_common insert lookup bytes_eq
repeated = refl
