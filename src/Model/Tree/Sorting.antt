-- ===== src/Model/Tree/Sorting.antt =====
-- Sorting the children of the nodes of a tree keeps its labels and its height.
use Prim.Native.Nat.{max}
use mathlib.Core.Logic.{∥∥₁_elim}
use mathlib.Core.List.{Perm, Permᴰ, perm_middle}
use mathlib.Core.List.Perm
use a.Prelude.{ltb, ℕ, suc, Bool, List, [], ◌∷◌, ◌++◌, ◌≡◌, refl, subst, ◌∙◌, ap, arith}
use a.Model.Tree.{
  label, Tree, Forest, node, nil, cons, forest, labels, labels_all, height, height_all, Sorter,
  sort_tree, sort_all,
}

-- What is known of `sort.Slice`: its result has the same elements.
abbrev pub Permutes : Sorter → Type 1
Permutes sorter =
    (A : Type 0) → (less : A → A → Bool) → (xs : List A) → Perm (sorter.sort A less xs) xs

max_swap : (a b c : ℕ) → max a (max b c) ≡ max b (max a c)
max_swap a b c = omega arith

module _ {A : Type 0} where
  swap_front : (xs ys zs : List A) → Perm (xs ++ (ys ++ zs)) (ys ++ (xs ++ zs))
  swap_front [] ys zs = Perm.refl (ys ++ zs)
  swap_front (x ∷ xs) ys zs =
      Perm.trans (Perm.cons x (swap_front xs ys zs)) (Perm.symm (perm_middle ys (xs ++ zs)))

  labels-forest_perm :
      {ts us : List (Tree A)} → Permᴰ ts us → Perm (labels_all (forest ts)) (labels_all (forest us))
  unfolding labels_all
  labels-forest_perm Permᴰ.nil = Perm.refl []
  labels-forest_perm (Permᴰ.cons {a} {l₁} {l₂} e p) =
      subst (λ b. Perm (labels a ++ labels_all (forest l₁)) (labels b ++ labels_all (forest l₂))) e
        (Perm.append_left (labels a) (labels-forest_perm p))
  labels-forest_perm (Permᴰ.swap {a} {b} {a' = c} {b' = d} {l} e₁ e₂) =
      let e : labels b ++ (labels a ++ labels_all (forest l))
          ≡ labels c ++ (labels d ++ labels_all (forest l)) =
        cc (e₁, e₂) in
      subst (Perm (labels a ++ (labels b ++ labels_all (forest l)))) e
        (swap_front (labels a) (labels b) (labels_all (forest l)))
  labels-forest_perm (Permᴰ.trans p q) = Perm.trans (labels-forest_perm p) (labels-forest_perm q)

  height-forest_perm :
      {ts us : List (Tree A)} → Permᴰ ts us → height_all (forest ts) ≡ height_all (forest us)
  unfolding height_all
  height-forest_perm Permᴰ.nil = refl
  height-forest_perm (Permᴰ.cons e p) = cc (e, height-forest_perm p)
  height-forest_perm (Permᴰ.swap {a} {b} {l} d e) =
      max_swap (height a) (height b) (height_all (forest l)) ∙ cc (d, e)
  height-forest_perm (Permᴰ.trans p q) = height-forest_perm p ∙ height-forest_perm q

  sorted_labels :
      (ts us : List (Tree A)) → Perm ts us → Perm (labels_all (forest ts)) (labels_all (forest us))
  sorted_labels ts us p = ∥∥₁_elim p (hlevel) labels-forest_perm

  sorted_height :
      (ts us : List (Tree A)) → Perm ts us → height_all (forest ts) ≡ height_all (forest us)
  sorted_height ts us p =
      ∥∥₁_elim {P = height_all (forest ts) ≡ height_all (forest us)} p (hlevel) height-forest_perm

-- The tree with sorted children has the same labels and the same height.
module _ (sorter : Sorter) (permutes : Permutes sorter) {A : Type 0} (key : A → ℕ) where
  mutual
    unfolding sort_tree labels

    pub sort_tree-perm : (t : Tree A) → Perm (labels (sort_tree sorter key t)) (labels t)
    sort_tree-perm (node a f) = Perm.cons a (
        Perm.trans (sorted_labels _ (sort_all sorter key f) (permutes (Tree A) _ _))
          (sort_all-perm f))

    sort_all-perm :
        (f : Forest A) → Perm (labels_all (forest (sort_all sorter key f))) (labels_all f)
    sort_all-perm nil = Perm.refl []
    sort_all-perm (cons t f) = Perm.append (sort_tree-perm t) (sort_all-perm f)

  mutual
    unfolding sort_tree height

    pub sort_tree-height : (t : Tree A) → height (sort_tree sorter key t) ≡ height t
    sort_tree-height (node a f) =
        ap suc (sorted_height _ (sort_all sorter key f) (permutes (Tree A) _ _) ∙ sort_all-height f)

    sort_all-height : (f : Forest A) → height_all (forest (sort_all sorter key f)) ≡ height_all f
    sort_all-height nil = refl
    sort_all-height (cons t f) = cc (sort_tree-height t, sort_all-height f)

  -- What sorting makes of the children of a node.
  pub sort_tree-below :
      (a : A) (f : Forest A)
      → (g : Forest A) × (sort_tree sorter key (node a f) ≡ node a g)
        × Perm (labels_all g) (labels_all f)
        × (height_all g ≡ height_all f)
  unfolding sort_tree
  sort_tree-below a f =
      let sorted = sort_all sorter key f in
      (
        forest (sorter.sort (Tree A) (λ s t. ltb (key (label s)) (key (label t))) sorted),
        refl,
        Perm.trans (sorted_labels _ sorted (permutes (Tree A) _ _)) (sort_all-perm f),
        sorted_height _ sorted (permutes (Tree A) _ _) ∙ sort_all-height f,
      )
