-- ===== src/Flame/Conversion.antt =====
-- pkg/flamegraph/flamegraph.go: what `NewFlameGraph` keeps of a trace.
use mathlib.Core.List.{Perm}
use mathlib.Core.List.Perm
use a.Prelude.{map, ◌≡◌, ◌∙◌, sym, subst, arith}
use a.Golang.Float.{Float}
use a.Model.Span.{Span}
use a.Model.Tree.{Tree, labels, height, map_tree, Sorter, sort_tree}
use a.Model.Tree.Mapping.{labels-map_tree, height-map_tree}
use a.Model.Tree.Sorting.{Permutes, sort_tree-perm, sort_tree-height}
use a.Flame.Frame.{frame_of, convert_span_to_flame_frame}
use a.Flame.Depth.{calculate_max_depth, calculate_max_depth-height_lem}

module _ (fl : Float) (sorter : Sorter) (permutes : Permutes sorter) where
  open fl use {F}

  -- If sorting only reorders, the flame graph has for each span of the trace one frame, which is the
  -- span's, and none besides, and the depth that `calculateMaxDepth` counts from 1 is the number of
  -- spans on a longest path of the trace.
  pub convert_span_to_flame_frame-frames :
      (t : Tree (Span F))
      → Perm (labels (convert_span_to_flame_frame fl sorter t)) (map (frame_of fl) (labels t))
        × (calculate_max_depth (convert_span_to_flame_frame fl sorter t) 1 ≡ height t)
  unfolding convert_span_to_flame_frame
  convert_span_to_flame_frame-frames t =
      let sorted = sort_tree sorter (λ s. s.start_time) t in
      let deep : calculate_max_depth (map_tree (frame_of fl) sorted) 1
          ≡ height (map_tree (frame_of fl) sorted) =
        omega (arith, calculate_max_depth-height_lem (map_tree (frame_of fl) sorted) 1) in
      (
        subst (λ xs. Perm xs (map (frame_of fl) (labels t)))
            (sym (labels-map_tree (frame_of fl) sorted))
            (Perm.map (frame_of fl) (sort_tree-perm sorter permutes (λ s. s.start_time) t)),
        deep
            ∙ height-map_tree (frame_of fl) sorted
            ∙ sort_tree-height sorter permutes (λ s. s.start_time) t,
      )
