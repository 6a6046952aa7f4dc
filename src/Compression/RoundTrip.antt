-- ===== src/Compression/RoundTrip.antt =====
-- pkg/compression/compressor.go: a trace that is compressed and decompressed.
use mathlib.Core.List.{Perm, Mem, mem-append_left, mem-append_right, mem-cons_of_mem, mem-cons_self}
use mathlib.Core.List.Perm
use a.Prelude.{
  ℕ, zero, suc, Bool, true, ◌≤◌, ◌≡◌, refl, sym, subst, ◌∙◌, ap, ◌⊎◌, inl, inr, [], map, map-append,
  arith,
}
use a.Golang.Float.{Float}
use a.Golang.Result.{Result, ok}
use a.Model.Span.{Span}
use a.Model.Tree.{
  Tree, Forest, node, nil, cons, label, labels, labels_all, height, height_all, map_tree, map_all,
  Sorter, sort_tree,
}
use a.Model.Tree.Sorting.{Permutes, sort_tree-below}
use a.Compression.State.{SubtreeSignature, Cache, Compressor, Compressed, Codec}
use a.Compression.Signature.{compute_subtree_signature}
use a.Compression.Spans.{
  decompress_span, tag_signature, compress_children, compress_below, compress_trace,
  decompress_trace, decompress_children,
}
use a.Compression.Marks.{
  strip, SameSpans, IsFaithful, Decodes, strip-tag_signature, compress_span-Marks,
}

module _ (fl : Float) (codec : Codec fl.F) where
  open fl use {F}

  module _ (sorter : Sorter) (permutes : Permutes sorter) (order : Cache → Cache) where
    -- A trace that was compressed to a result: the spans are those of the trace, and the result
    -- decompresses to them.
    abbrev pub Restores :
        Tree (Span F) → Result (Tree (Span F) × Tree (Compressed F) × Compressor F) → Type 0
    Restores t outcome =
        (left : Tree (Span F)) × (result : Tree (Compressed F)) × (c : Compressor F) × (outcome
          ≡ ok (left, result, c))
        × Perm (map strip (labels left)) (map strip (labels t))
        × ((u : Tree (Span F)) × (decompress_trace fl codec result ≡ ok u) × SameSpans u left)

    -- The same of the children of a span.
    record RestoresAll (f : Forest (Span F))
        (outcome : Result (Forest (Span F) × Forest (Compressed F) × Compressor F)) : Type 0 where
      left : Forest (Span F)
      results : Forest (Compressed F)
      after : Compressor F
      returned : outcome ≡ ok (left, results, after)
      spans : Perm (map strip (labels_all left)) (map strip (labels_all f))
      read : Forest (Span F)
      decoded : decompress_children fl codec results ≡ ok read
      same : map_all strip read ≡ map_all strip left
      childless : results ≡ nil → (left ≡ nil) × (f ≡ nil)

    children-Restores :
        (compress : Tree (Span F)
          → Compressor F
          → Result (Tree (Span F) × Tree (Compressed F) × Compressor F))
        (made : Span F → Bool) (f : Forest (Span F)) (n : ℕ) (Encodable : Span F → Type 0)
        → ((t : Tree (Span F)) (c : Compressor F)
            → height t ≤ n
            → ((s : Span F) → Mem s (labels t) → made s ≡ true)
            → ((s : Span F) → Mem s (labels t) → Encodable (strip s))
            → Restores t (compress t c))
        → (c : Compressor F) → height_all f ≤ n
        → ((s : Span F) → Mem s (labels_all f) → made s ≡ true)
        → ((s : Span F) → Mem s (labels_all f) → Encodable (strip s))
        → RestoresAll f (compress_children fl codec compress f c)
    unfolding compress_children labels height decompress_trace map_tree
    children-Restores compress made nil n Encodable each c h has good = record {
      left = nil;
      results = nil;
      after = c;
      returned = refl;
      spans = Perm.refl [];
      read = nil;
      decoded = refl;
      same = refl;
      childless = λ e. (refl, refl);
    }
    children-Restores compress made (cons t f) n Encodable each c h has good =
        let (left, result, c1, e, perm, (u, d, same)) =
          each t c (omega (arith, h)) (λ s m. has s (mem-append_left (labels_all f) m))
            (λ s m. good s (mem-append_left (labels_all f) m)) in
        let rest : RestoresAll f (compress_children fl codec compress f c1) =
          children-Restores compress made f n Encodable each c1 (omega (arith, h))
            (λ s m. has s (mem-append_right (labels t) m))
            (λ s m. good s (mem-append_right (labels t) m)) in
        record {
          left = cons left rest.left;
          results = cons result rest.results;
          after = rest.after;
          returned = rw (e, rest.returned, compress_children) refl;
          spans =
              rw
                (
                  map-append strip (labels left) (labels_all rest.left),
                  map-append strip (labels t) (labels_all f),
                )
                (Perm.append perm rest.spans);
          read = cons u rest.read;
          decoded = rw (d, rest.decoded, decompress_children) refl;
          same = cc (same, rest.same);
          childless = λ e. cc e;
        }

    height-nil : (f : Forest (Span F)) → height_all f ≡ 0 → f ≡ nil
    unfolding height
    height-nil nil e = refl
    height-nil (cons (node s g) f) e = absurd (omega (arith, e))

    height_of_nil : (g : Forest (Span F)) → g ≡ nil → height_all g ≡ 0
    unfolding height
    height_of_nil g e = ap height_all e

    no_height : (s : Span F) (f : Forest (Span F)) → height (node s f) ≤ 0 → ⊥
    unfolding height
    no_height s f h = omega (arith, h)

    label-strip : (u : Tree (Span F)) → label (map_tree strip u) ≡ strip (label u)
    unfolding map_tree
    label-strip (node s f) = refl

    SameSpans-label : (u t : Tree (Span F)) → SameSpans u t → strip (label u) ≡ strip (label t)
    SameSpans-label u t e = sym (label-strip u) ∙ ap label e ∙ label-strip t

    Forest-cases :
        (f : Forest (Compressed F))
        → (f ≡ nil) ⊎ ((t : Tree (Compressed F)) × (g : Forest (Compressed F)) × (f ≡ cons t g))
    Forest-cases nil = inl refl
    Forest-cases (cons t g) = inr (t, g, refl)

    -- Decompressing a root from what its span and its children decompress to.
    root-Restores :
        (span tagged : Span F) (f left : Forest (Span F)) (c : Compressed F)
        (results : Forest (Compressed F)) (read : Forest (Span F)) (u : Tree (Span F))
        → strip tagged ≡ strip span
        → decompress_span fl codec c ≡ ok u
        → (u ≡ node tagged left) ⊎ SameSpans u (node span f)
        → decompress_children fl codec results ≡ ok read
        → map_all strip read ≡ map_all strip left
        → (results ≡ nil → (left ≡ nil) × (f ≡ nil))
        → (v : Tree (Span F)) × (decompress_trace fl codec (node c results) ≡ ok v)
          × SameSpans v (node tagged left)
    unfolding decompress_trace map_tree
    root-Restores span tagged f left c results read u tag e same d below childless =
        elim (Forest-cases results) [
          | inl empty ↦
              rw (empty, decompress_trace)
                (
                  u,
                  e,
                  elim same [
                    | inl root ↦ ap (map_tree strip) root
                    | inr like ↦
                        let (no_left, no_f) = childless empty in like ∙ cc (tag, no_left, no_f)
                  ],
                )
          | inr (t, g, some_children) ↦
              let top : strip (label u) ≡ strip tagged = elim same [
                | inl root ↦ ap (λ t. strip (label t)) root
                | inr like ↦ SameSpans-label u (node span f) like ∙ sym tag
              ] in
              let d' : decompress_children fl codec (cons t g) ≡ ok read =
                ap (decompress_children fl codec) (sym some_children) ∙ d in
              rw (some_children, e, d', decompress_trace)
                (node (label u) read, refl, cc (top, below))
        ]

    -- The root of a trace, with its children sorted and then compressed.
    below-Restores :
        (span marked : Span F) (f g : Forest (Span F)) (sig : SubtreeSignature)
        (found : Compressed F)
        (compress : Tree (Span F)
          → Compressor F
          → Result (Tree (Span F) × Tree (Compressed F) × Compressor F))
        (c : Compressor F)
        → strip marked ≡ strip span
        → Decodes fl codec (node span f) found
        → Perm (labels_all g) (labels_all f)
        → height_all g ≡ height_all f
        → RestoresAll g (compress_children fl codec compress g c)
        → Restores (node span f) (compress_below fl codec compress sig found (node marked g) c)
    unfolding compress_below labels
    below-Restores span marked f g sig found compress c tag decodes perm deep all =
        let tagged = tag_signature fl codec sig marked in
        let root : Tree (Span F) = node tagged all.left in
        let strips : strip tagged ≡ strip span = strip-tag_signature fl codec sig marked ∙ tag in
        let (u, e, same) = decodes root sig.hash in
        let childless : all.results ≡ nil → (all.left ≡ nil) × (f ≡ nil) = λ empty.
          let (no_left, no_g) = all.childless empty in
          (no_left, height-nil f (sym deep ∙ height_of_nil g no_g)) in
        (
          root,
          node (record found { span = root; signature_hash = sig.hash }) all.results,
          all.after,
          rw (all.returned, compress_below) refl,
          rw strips (Perm.cons (strip span) (Perm.trans all.spans (Perm.map strip perm))),
          root-Restores span tagged f all.left _ all.results all.read u strips e same all.decoded
              all.same childless,
        )

    lower :
        (s : Span F) (f g : Forest (Span F)) (fuel : ℕ)
        → height_all g ≡ height_all f
        → height (node s f) ≤ suc fuel
        → height_all g ≤ fuel
    unfolding height
    lower s f g fuel e h = omega (arith, e, h)

    root_label : (root : Span F) (f : Forest (Span F)) → Mem root (labels (node root f))
    unfolding labels
    root_label root f = mem-cons_self

    below_root :
        (root : Span F) (f g : Forest (Span F)) (s : Span F)
        → Perm (labels_all g) (labels_all f)
        → Mem s (labels_all g)
        → Mem s (labels (node root f))
    unfolding labels
    below_root root f g s perm m = mem-cons_of_mem root ((Perm.mem_iff perm).0 m)

    -- If sorting only reorders, and zstd and JSON restore the spans that are encodable, then
    -- `CompressTrace` returns for a trace of such spans, each with tags that are a map that was made,
    -- whatever the state, with a fuel of at least its depth. It leaves a trace with the same spans but for their tags, and `DecompressTrace` restores
    -- that trace from the result, but for the tags.
    pub compress_trace-decompress_trace :
        (Encodable : Span F → Type 0)
        → IsFaithful codec Encodable
        → (made : Span F → Bool) (fuel : ℕ) (t : Tree (Span F)) (c : Compressor F) → height t ≤ fuel
        → ((s : Span F) → Mem s (labels t) → made s ≡ true)
        → ((s : Span F) → Mem s (labels t) → Encodable (strip s))
        → Restores t (compress_trace fl codec sorter order made fuel t c)
    unfolding compress_trace compute_subtree_signature
    compress_trace-decompress_trace Encodable faithful made zero (node span f) c h has good =
        absurd (no_height span f h)
    compress_trace-decompress_trace Encodable faithful made (suc fuel) (node span f) c h has good =
        let ((found, first, c1), compressed, (marked, e, tag, decodes)) =
          compress_span-Marks fl codec Encodable faithful made span f c
            (has span (root_label span f)) good in
        let (g, sorted, perm, deep) =
          sort_tree-below sorter permutes (λ s. s.start_time) marked f in
        let (ignored, sig, c2) = compute_subtree_signature sorter order first c1 in
        let q : sort_tree sorter (λ s. s.start_time) first ≡ node marked g =
          ap (sort_tree sorter (λ s. s.start_time)) e ∙ sorted in
        let step = compress_trace fl codec sorter order made fuel in
        let all : RestoresAll g (compress_children fl codec step g c2) =
          children-Restores step made g fuel Encodable
            (λ t c h has good.
              compress_trace-decompress_trace Encodable faithful made fuel t c h has good)
            c2 (lower span f g fuel deep h) (λ s m. has s (below_root span f g s perm m))
            (λ s m. good s (below_root span f g s perm m)) in
        rw (compressed, compress_trace)
          (subst
            (λ sorted. Restores (node span f) (compress_below fl codec step sig found sorted c2))
            (sym q) (below-Restores span marked f g sig found step c2 tag decodes perm deep all))
