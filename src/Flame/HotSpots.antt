-- ===== src/Flame/HotSpots.antt =====
-- pkg/flamegraph/flamegraph.go: `GetHotSpots`. A frame with what is below it is a tree.
use Prim.Native.Nat.{min}
use mathlib.Core.Logic.{∥∥₁_elim}
use mathlib.Core.List.{Perm, Permᴰ}
use mathlib.Core.List.Perm
use a.Prelude.{
  ℕ, zero, suc, ◌≡◌, refl, sym, ◌∙◌, ap, subst, ◌&&◌, List, [], ◌∷◌, ◌++◌, arith, ltb,
  if◌then◌else◌, take, drop, length, map, map-append, append_assoc, append-nil, length-take,
  Bool-cases, inl, inr,
}
use a.Golang.Float.{Float}
use a.Golang.Int.{ℤ, pos, negsuc}
use a.Model.Tree.{Tree, Forest, node, nil, cons, label, labels, labels_all, Sorter}
use a.Model.Tree.Sorting.{Permutes}
use a.Flame.Frame.{FlameFrame, FlameGraph}

module _ {A : Type 0} where
  -- `collectAllFrames`, and its loop over the children.
  unfoldable mutual
    pub collect_all_frames : Tree A → List (Tree A) → List (Tree A)
    collect_all_frames (node frame children) frames =
        collect_frames_below children (frames ++ (node frame children ∷ []))

    pub collect_frames_below : Forest A → List (Tree A) → List (Tree A)
    collect_frames_below nil frames = frames
    collect_frames_below (cons child rest) frames =
        collect_frames_below rest (collect_all_frames child frames)

  mutual
    unfolding collect_all_frames labels

    collect_all_frames-labels :
        (t : Tree A) (frames : List (Tree A))
        → map label (collect_all_frames t frames) ≡ map label frames ++ labels t
    collect_all_frames-labels (node a ts) frames =
        collect_frames_below-labels ts (frames ++ (node a ts ∷ []))
        ∙ ap (λ xs. xs ++ labels_all ts) (map-append label frames (node a ts ∷ []))
        ∙ append_assoc (map label frames) (a ∷ []) (labels_all ts)

    collect_frames_below-labels :
        (ts : Forest A) (frames : List (Tree A))
        → map label (collect_frames_below ts frames) ≡ map label frames ++ labels_all ts
    collect_frames_below-labels nil frames = sym (append-nil (map label frames))
    collect_frames_below-labels (cons t ts) frames =
        collect_frames_below-labels ts (collect_all_frames t frames)
        ∙ ap (λ xs. xs ++ labels_all ts) (collect_all_frames-labels t frames)
        ∙ append_assoc (map label frames) (labels t) (labels_all ts)

-- The first `count` of a slice, or all of it if `count` does not lie within.
abbrev pub at_most : {A : Type 0} → ℤ → List A → List A
at_most (pos n) xs = if ltb 0 n && ltb n (length xs) then take n xs else xs
at_most (negsuc n) xs = xs

-- How many of `len` elements `count` asks for.
abbrev pub at_most_length : ℤ → ℕ → ℕ
at_most_length (pos zero) len = len
at_most_length (pos (suc n)) len = min (suc n) len
at_most_length (negsuc n) len = len

module _ {A : Type 0} where
  take-rest : (n : ℕ) (xs : List A) → take n xs ++ drop n xs ≡ xs
  take-rest zero xs = refl
  take-rest (suc n) [] = refl
  take-rest (suc n) (x ∷ xs) = ap (λ ys. x ∷ ys) (take-rest n xs)

  at_most-rest : (count : ℤ) (xs : List A) → (rest : List A) × (at_most count xs ++ rest ≡ xs)
  at_most-rest (negsuc n) xs = ([], append-nil xs)
  at_most-rest (pos n) xs = elim (Bool-cases (ltb 0 n && ltb n (length xs))) [
    | inl e ↦ rw e (drop n xs, take-rest n xs)
    | inr e ↦ rw e ([], append-nil xs)
  ]

  length-at_most :
      (count : ℤ) (xs : List A) → length (at_most count xs) ≡ at_most_length count (length xs)
  length-at_most (negsuc n) xs = refl
  length-at_most (pos zero) xs = refl
  length-at_most (pos (suc n)) xs = ground (arith, length-take (suc n) xs)

  length-map : {B : Type 0} (f : A → B) (xs : List A) → length (map f xs) ≡ length xs
  length-map f [] = refl
  length-map f (x ∷ xs) = ap suc (length-map f xs)

  length-exchange : {xs ys : List A} → Permᴰ xs ys → length xs ≡ length ys
  length-exchange Permᴰ.nil = refl
  length-exchange (Permᴰ.cons e p) = ap suc (length-exchange p)
  length-exchange (Permᴰ.swap d e) = refl
  length-exchange (Permᴰ.trans p q) = length-exchange p ∙ length-exchange q

  length-perm : {xs ys : List A} → Perm xs ys → length xs ≡ length ys
  length-perm {xs} {ys} p = ∥∥₁_elim {P = length xs ≡ length ys} p (hlevel) length-exchange

length-labels :
    {A : Type 0} (sorted : List (Tree A)) (t : Tree A)
    → Perm (map label sorted) (labels t)
    → length sorted ≡ length (labels t)
length-labels sorted t p = sym (length-map label sorted) ∙ length-perm p

module _ (fl : Float) where
  open fl use {F, flt, fsub}

  -- The duration of a frame less those of its children.
  abbrev less_children : Forest (FlameFrame F) → F → F
  less_children nil time = time
  less_children (cons child rest) time = less_children rest (fsub time (label child).duration)

  unfoldable pub self_time : Tree (FlameFrame F) → F
  self_time (node frame children) = less_children children frame.duration

  unfoldable pub get_hot_spots : Sorter → ℤ → FlameGraph F → List (Tree (FlameFrame F))
  get_hot_spots sorter count fg = at_most count (
      sorter.sort (Tree (FlameFrame F)) (λ s t. flt (self_time t) (self_time s))
        (collect_all_frames fg.root []))

  -- If sorting only reorders, `GetHotSpots` returns as many frames as it is asked for, or all where
  -- it is asked for none, for a negative number or for at least as many as there are; and these are
  -- the first of all frames of the graph, in some order.
  pub get_hot_spots-length :
      (sorter : Sorter)
      → Permutes sorter
      → (count : ℤ) (fg : FlameGraph F)
      → (length (get_hot_spots sorter count fg) ≡ at_most_length count (length (labels fg.root)))
        × ((rest : List (Tree (FlameFrame F))) × Perm
              (map label (get_hot_spots sorter count fg ++ rest))
              (labels fg.root))
  unfolding get_hot_spots
  get_hot_spots-length sorter permutes count fg =
      let all = collect_all_frames fg.root [] in
      let sorted = sorter.sort (Tree (FlameFrame F)) (λ s t. flt (self_time t) (self_time s)) all in
      let p : Perm (map label sorted) (labels fg.root) =
        subst (Perm (map label sorted)) (collect_all_frames-labels fg.root [])
          (Perm.map label (permutes (Tree (FlameFrame F)) _ all)) in
      let (rest, e) = at_most-rest count sorted in
      (
        length-at_most count sorted ∙ ap (at_most_length count) (length-labels sorted fg.root p),
        (rest, subst (λ xs. Perm (map label xs) (labels fg.root)) (sym e) p),
      )
