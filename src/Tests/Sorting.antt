-- ===== src/Tests/Sorting.antt =====
-- A value of the parameter for `sort.Slice`: sorting by insertion.
use mathlib.Core.List.{Perm}
use mathlib.Core.List.Perm
use a.Prelude.{Bool, List, [], ◌∷◌, if◌then◌else◌, Bool-cases, inl, inr}
use a.Model.Tree.{Sorter}
use a.Model.Tree.Sorting.{Permutes}

module _ {A : Type 0} (less : A → A → Bool) where
  abbrev put : A → List A → List A
  put x [] = x ∷ []
  put x (y ∷ ys) = let rest = put x ys in if less x y then x ∷ y ∷ ys else y ∷ rest

  put-perm : (x : A) (ys : List A) → Perm (put x ys) (x ∷ ys)
  put-perm x [] = Perm.refl (x ∷ [])
  put-perm x (y ∷ ys) = elim (Bool-cases (less x y)) [
    | inl e ↦ rw e (Perm.refl (x ∷ y ∷ ys))
    | inr e ↦ rw e (Perm.trans (Perm.cons y (put-perm x ys)) (Perm.swap x y ys))
  ]

  abbrev sorted : List A → List A
  sorted [] = []
  sorted (x ∷ xs) = put x (sorted xs)

  sorted-perm : (xs : List A) → Perm (sorted xs) xs
  sorted-perm [] = Perm.refl []
  sorted-perm (x ∷ xs) = Perm.trans (put-perm x (sorted xs)) (Perm.cons x (sorted-perm xs))

abbrev pub by_insertion : Sorter
by_insertion = record { sort = λ A less xs. sorted less xs }

pub by_insertion-Permutes : Permutes by_insertion
by_insertion-Permutes A less xs = sorted-perm less xs
