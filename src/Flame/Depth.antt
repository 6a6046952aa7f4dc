-- ===== src/Flame/Depth.antt =====
-- pkg/flamegraph/flamegraph.go: `calculateMaxDepth`.
use Prim.Native.Nat.{max}
use a.Prelude.{ℕ, suc, ◌+◌, ◌≤◌, ◌≡◌, ◌∙◌, ap, arith, ltb, if◌then◌else◌}
use a.Model.Tree.{Tree, Forest, node, nil, cons, height, height_all}

pub deeper : (best d : ℕ) → (if ltb best d then d else best) ≡ max best d
deeper best d = ground arith

module _ {A : Type 0} where
  -- The function, and its loop over the children of a frame at a depth.
  unfoldable mutual
    pub calculate_max_depth : Tree A → ℕ → ℕ
    calculate_max_depth (node frame nil) current_depth = current_depth
    calculate_max_depth (node frame (cons child rest)) current_depth =
        deepest_child (cons child rest) current_depth current_depth

    pub deepest_child : Forest A → ℕ → ℕ → ℕ
    deepest_child nil current_depth max_depth = max_depth
    deepest_child (cons child rest) current_depth max_depth =
        let d = calculate_max_depth child (suc current_depth) in
        deepest_child rest current_depth (if ltb max_depth d then d else max_depth)

  mutual
    unfolding calculate_max_depth height

    pub calculate_max_depth-height_lem :
        (t : Tree A) (depth : ℕ) → suc (calculate_max_depth t depth) ≡ depth + height t
    calculate_max_depth-height_lem (node a nil) depth = omega arith
    calculate_max_depth-height_lem (node a (cons t ts)) depth =
        ap suc (deepest_child-height (cons t ts) depth depth (omega arith)) ∙ omega arith

    deepest_child-height :
        (ts : Forest A) (depth best : ℕ)
        → depth ≤ best
        → deepest_child ts depth best ≡ max best (depth + height_all ts)
    deepest_child-height nil depth best h = omega arith
    deepest_child-height (cons t ts) depth best h =
        let d = calculate_max_depth t (suc depth) in
        let next = if ltb best d then d else best in
        let e : next ≡ max best d = deeper best d in
        deepest_child-height ts depth next (omega (arith, e))
        ∙ omega (arith, e, calculate_max_depth-height_lem t (suc depth))
