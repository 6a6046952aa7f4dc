-- ===== src/Golang/Dict/Every.antt =====
-- What holds of every value of a map, through its operations.
use a.Prelude.{subst, ◌≡◌, Option, none, some, List, [], ◌∷◌, All, Bool-cases, inl, inr}
use a.Golang.Slice.{Bytes}
use a.Golang.Text.{bytes_eq}
use a.Golang.Dict.{lookup, insert, delete}

module _ {ℓ} {V : Type ℓ} (P : V → Type 0) where
  abbrev pub Every : List (Bytes × V) → Type 0
  Every m = All (λ e. P e.1) m

  abbrev InOption : Option V → Type 0
  InOption none = Unit
  InOption (some v) = P v

  InOption-lookup : (k : Bytes) (m : List (Bytes × V)) → Every m → InOption (lookup k m)
  unfolding lookup
  InOption-lookup k [] h = tt
  InOption-lookup k ((j, w) ∷ m) h = elim (Bool-cases (bytes_eq j k)) [
    | inl e ↦ rw e h.0
    | inr e ↦ rw e (InOption-lookup k m h.1)
  ]

  pub Every-lookup :
      (k : Bytes) (m : List (Bytes × V)) {v : V} → Every m → lookup k m ≡ some v → P v
  Every-lookup k m h e = subst InOption e (InOption-lookup k m h)

  pub Every-insert :
      (k : Bytes) (v : V) (m : List (Bytes × V)) → P v → Every m → Every (insert k v m)
  unfolding insert
  Every-insert k v [] p h = (p, tt)
  Every-insert k v ((j, w) ∷ m) p h = elim (Bool-cases (bytes_eq j k)) [
    | inl e ↦ rw e (p, h.1)
    | inr e ↦ rw e (h.0, Every-insert k v m p h.1)
  ]

  pub Every-delete : (k : Bytes) (m : List (Bytes × V)) → Every m → Every (delete k m)
  unfolding delete
  Every-delete k [] h = tt
  Every-delete k ((j, w) ∷ m) h = elim (Bool-cases (bytes_eq j k)) [
    | inl e ↦ rw e (Every-delete k m h.1)
    | inr e ↦ rw e (h.0, Every-delete k m h.1)
  ]
