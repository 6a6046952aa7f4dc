-- ===== src/Compression/Depth.antt =====
-- pkg/compression/compressor.go: `countDepth`, and `calculateMaxDepth` of pkg/flamegraph.
use Prim.Native.Nat.{max}
use a.Prelude.{ℕ, ◌≡◌, ◌∙◌, sym, arith, ltb, if◌then◌else◌}
use a.Golang.Float.{Float}
use a.Model.Span.{Span}
use a.Model.Tree.{Tree, Forest, node, nil, cons, height, height_all, Sorter, sort_tree}
use a.Model.Tree.Sorting.{Permutes, sort_tree-height}
use a.Compression.State.{Cache, Compressor}
use a.Compression.Signature.{count_depth, deepest_child, signature_of, compute_subtree_signature}
use a.Flame.Conversion.{convert_span_to_flame_frame-frames}
use a.Flame.Depth.{calculate_max_depth, deeper}
use a.Flame.Frame.{convert_span_to_flame_frame}

module _ {F : Type 0} where
  mutual
    unfolding count_depth height

    count_depth-height_lem : (t : Tree (Span F)) → count_depth t ≡ height t
    count_depth-height_lem (node span nil) = omega arith
    count_depth-height_lem (node span (cons t ts)) =
        omega (arith, deepest_child-height (cons t ts) 0)

    deepest_child-height :
        (ts : Forest (Span F)) (best : ℕ) → deepest_child ts best ≡ max best (height_all ts)
    deepest_child-height nil best = omega arith
    deepest_child-height (cons t ts) best =
        let d = count_depth t in
        let next = if ltb best d then d else best in
        deepest_child-height ts next ∙ omega (arith, deeper best d, count_depth-height_lem t)

module _ (fl : Float) (sorter : Sorter) (permutes : Permutes sorter) where
  open fl use {F}

  -- If sorting only reorders, the depth in a trace's signature is the one that the flame graph of the
  -- trace has, counted from 1.
  pub compute_subtree_signature-depth :
      (order : Cache → Cache) (t : Tree (Span F)) (c : Compressor F)
      → (compute_subtree_signature sorter order t c).1.depth
        ≡ calculate_max_depth (convert_span_to_flame_frame fl sorter t) 1
  unfolding compute_subtree_signature signature_of
  compute_subtree_signature-depth order t c =
      count_depth-height_lem (sort_tree sorter (λ s. s.start_time) t)
      ∙ sort_tree-height sorter permutes (λ s. s.start_time) t
      ∙ sym (convert_span_to_flame_frame-frames fl sorter permutes t).1
