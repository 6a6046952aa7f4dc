-- ===== src/Flame/Folded.antt =====
-- pkg/flamegraph/flamegraph.go: `ToFolded`. The slices that `append(stack, ...)` makes for two
-- children may share an array; each is read before the next is made, so they are lists here.
use a.Prelude.{
  List, [], ◌∷◌, ◌++◌, map, map-append, append_assoc, append-nil, ◌≡◌, refl, sym, ◌∙◌, ap,
}
use a.Golang.Slice.{Bytes}
use a.Golang.Text.{text, join, show_int}
use a.Model.Tree.{Tree, Forest, node, nil, cons, labels, labels_all}
use a.Flame.Frame.{FlameFrame, FlameGraph}

module _ {F : Type 0} where
  abbrev pub folded_line : List Bytes → FlameFrame F → Bytes
  folded_line current_stack frame =
      join (text ";") current_stack ++ (text " " ++ show_int frame.value)

  -- `collectFolded`, and its loop over the children.
  unfoldable mutual
    pub collect_folded : Tree (FlameFrame F) → List Bytes → List Bytes → List Bytes
    collect_folded (node frame children) stack lines =
        let current_stack = stack ++ (frame.name ∷ []) in
        collect_children children current_stack (lines ++ (folded_line current_stack frame ∷ []))

    pub collect_children : Forest (FlameFrame F) → List Bytes → List Bytes → List Bytes
    collect_children nil stack lines = lines
    collect_children (cons child rest) stack lines =
        collect_children rest stack (collect_folded child stack lines)

  unfoldable pub to_folded : FlameGraph F → Bytes
  to_folded fg = join (text "\n") (collect_folded fg.root [] [])

  -- Every frame, with the names on the way to it from the root, itself included.
  abbrev mutual
    pub stacks : List Bytes → Tree (FlameFrame F) → List (List Bytes × FlameFrame F)
    stacks above (node frame children) =
        (above ++ (frame.name ∷ []), frame) ∷ stacks_all (above ++ (frame.name ∷ [])) children

    stacks_all : List Bytes → Forest (FlameFrame F) → List (List Bytes × FlameFrame F)
    stacks_all above nil = []
    stacks_all above (cons t ts) = stacks above t ++ stacks_all above ts

  abbrev pub lines_of : List (List Bytes × FlameFrame F) → List Bytes
  lines_of = map (λ p. folded_line p.0 p.1)

  mutual
    unfolding collect_folded

    collect_folded-stacks :
        (t : Tree (FlameFrame F)) (above lines : List Bytes)
        → collect_folded t above lines ≡ lines ++ lines_of (stacks above t)
    collect_folded-stacks (node frame children) above lines =
        let stack = above ++ (frame.name ∷ []) in
        let here = folded_line stack frame in
        collect_children-stacks children stack (lines ++ (here ∷ []))
        ∙ append_assoc lines (here ∷ []) (lines_of (stacks_all stack children))

    collect_children-stacks :
        (ts : Forest (FlameFrame F)) (above lines : List Bytes)
        → collect_children ts above lines ≡ lines ++ lines_of (stacks_all above ts)
    collect_children-stacks nil above lines = sym (append-nil lines)
    collect_children-stacks (cons t ts) above lines =
        ap (collect_children ts above) (collect_folded-stacks t above lines)
        ∙ collect_children-stacks ts above (lines ++ lines_of (stacks above t))
        ∙ append_assoc lines (lines_of (stacks above t)) (lines_of (stacks_all above ts))
        ∙ ap (λ xs. lines ++ xs)
            (sym (map-append (λ p. folded_line p.0 p.1) (stacks above t) (stacks_all above ts)))

  abbrev pub frames_of : List (List Bytes × FlameFrame F) → List (FlameFrame F)
  frames_of = map (λ p. p.1)

  mutual
    unfolding labels

    stacks-labels :
        (above : List Bytes) (t : Tree (FlameFrame F)) → frames_of (stacks above t) ≡ labels t
    stacks-labels above (node frame children) =
        ap (λ xs. frame ∷ xs) (stacks_all-labels (above ++ (frame.name ∷ [])) children)

    stacks_all-labels :
        (above : List Bytes) (ts : Forest (FlameFrame F))
        → frames_of (stacks_all above ts) ≡ labels_all ts
    stacks_all-labels above nil = refl
    stacks_all-labels above (cons t ts) =
        map-append (λ p. p.1) (stacks above t) (stacks_all above ts)
        ∙ cc (stacks-labels above t, stacks_all-labels above ts)

  -- `ToFolded` has one line for each frame, with the names on the way to it from the root and its
  -- value, and the frames stand in it from the root on, each in front of its children.
  pub to_folded-stacks :
      (fg : FlameGraph F)
      → (to_folded fg ≡ join (text "\n") (lines_of (stacks [] fg.root)))
        × (frames_of (stacks [] fg.root) ≡ labels fg.root)
  unfolding to_folded
  to_folded-stacks fg =
      (ap (join (text "\n")) (collect_folded-stacks fg.root [] []), stacks-labels [] fg.root)
