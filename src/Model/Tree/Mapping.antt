-- ===== src/Model/Tree/Mapping.antt =====
-- The labels and the height of a mapped tree.
use a.Prelude.{suc, ◌∷◌, map, map-append, ◌≡◌, refl, ap}
use a.Model.Tree.{
  Tree, Forest, node, nil, cons, labels, labels_all, height, height_all, map_tree, map_all,
}

module _ {A B : Type 0} (f : A → B) where
  mutual
    unfolding map_tree labels

    pub labels-map_tree : (t : Tree A) → labels (map_tree f t) ≡ map f (labels t)
    labels-map_tree (node a ts) = ap (λ xs. f a ∷ xs) (labels-map_all ts)

    labels-map_all : (ts : Forest A) → labels_all (map_all f ts) ≡ map f (labels_all ts)
    labels-map_all nil = refl
    labels-map_all (cons t ts) =
        cc (labels-map_tree t, labels-map_all ts, map-append f (labels t) (labels_all ts))

  mutual
    unfolding map_tree height

    pub height-map_tree : (t : Tree A) → height (map_tree f t) ≡ height t
    height-map_tree (node a ts) = ap suc (height-map_all ts)

    height-map_all : (ts : Forest A) → height_all (map_all f ts) ≡ height_all ts
    height-map_all nil = refl
    height-map_all (cons t ts) = cc (height-map_tree t, height-map_all ts)
