-- ===== src/Model/Tree.antt =====
-- Spans with their `Children` (pkg/model/trace.go), as trees of labels. `BuildTraceTree` appends a
-- span to one parent and to none if it is a root, so what can be reached from a root is a tree.
pub mod Sorting
pub mod Mapping
use Prim.Native.Nat.{max}
use a.Prelude.{ℕ, suc, ◌+◌, Bool, true, false, List, [], ◌∷◌, ◌++◌, map, ltb, if◌then◌else◌}

mutual
  pub data Tree (A : Type 0) : Type 0 where
    node : A → Forest A → Tree A

  pub data Forest (A : Type 0) : Type 0 where
    nil : Forest A
    cons : Tree A → Forest A → Forest A

module _ {A : Type 0} where
  abbrev pub label : Tree A → A
  label (node a f) = a

  abbrev pub trees : Forest A → List (Tree A)
  trees nil = []
  trees (cons t f) = t ∷ trees f

  abbrev pub forest : List (Tree A) → Forest A
  forest [] = nil
  forest (t ∷ ts) = cons t (forest ts)

  -- The labels, each in front of those below it.
  unfoldable mutual
    pub labels : Tree A → List A
    labels (node a f) = a ∷ labels_all f

    pub labels_all : Forest A → List A
    labels_all nil = []
    labels_all (cons t f) = labels t ++ labels_all f

  -- The number of labels on a longest path.
  unfoldable mutual
    pub height : Tree A → ℕ
    height (node a f) = suc (height_all f)

    pub height_all : Forest A → ℕ
    height_all nil = 0
    height_all (cons t f) = max (height t) (height_all f)

-- The tree of the values of a function.
module _ {A B : Type 0} (f : A → B) where
  unfoldable mutual
    pub map_tree : Tree A → Tree B
    map_tree (node a ts) = node (f a) (map_all ts)

    pub map_all : Forest A → Forest B
    map_all nil = nil
    map_all (cons t ts) = cons (map_tree t) (map_all ts)

-- `sort.Slice`, which takes the order as a function. It depends on nothing but the outcomes of the
-- comparisons, is not stable, and is a parameter.
pub record Sorter : Type 1 where
  pub sort : (A : Type 0) → (A → A → Bool) → List A → List A

-- The same tree with all children in the order of a key. The code sorts a node's children and then
-- visits them; the order of the children does not depend on what is below them.
module _ (sorter : Sorter) {A : Type 0} (key : A → ℕ) where
  unfoldable mutual
    pub sort_tree : Tree A → Tree A
    sort_tree (node a f) =
        node a
          (forest (sorter.sort (Tree A) (λ s t. ltb (key (label s)) (key (label t))) (sort_all f)))

    pub sort_all : Forest A → List (Tree A)
    sort_all nil = []
    sort_all (cons t f) = sort_tree t ∷ sort_all f
