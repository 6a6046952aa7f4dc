-- ===== src/Golang/Split.antt =====
-- `strings.Cut`, `strings.Split` and `strings.SplitN(s, sep, 2)`.
use a.Prelude.{
  append-nil, ℕ, ◌≢◌, true, false, ◌&&◌, Option, none, some, List, [], ◌∷◌, ◌++◌, ◌==◌,
  if◌then◌else◌, drop, length, ◌≡◌, ◌∙◌, refl, sym, subst, ap, arith, All, inl, inr, Bool-cases,
}
use a.Golang.Slice.{Bytes}
use a.Golang.Text.{has_prefix, index_byte}

-- A byte more in front of the first part, and some bytes.
abbrev pub onto_cut : ℕ → Option (Bytes × Bytes) → Option (Bytes × Bytes)
onto_cut x none = none
onto_cut x (some (before, after)) = some (x ∷ before, after)

abbrev pub put_front : Bytes → Option (Bytes × Bytes) → Option (Bytes × Bytes)
put_front [] o = o
put_front (x ∷ text) o = onto_cut x (put_front text o)

-- What is in front of the first separator and behind it; `SplitN` with 2 makes these two parts, and
-- one part where there is none.
unfoldable pub cut : Bytes → Bytes → Option (Bytes × Bytes)
cut sep [] = if has_prefix [] sep then some ([], []) else none
cut sep (x ∷ r) =
    let later = onto_cut x (cut sep r) in
    if has_prefix (x ∷ r) sep then some ([], drop (length sep) (x ∷ r)) else later

-- A byte more for the first of some parts.
abbrev pub onto_first : ℕ → List Bytes → List Bytes
onto_first x [] = (x ∷ []) ∷ []
onto_first x (p ∷ ps) = (x ∷ p) ∷ ps

-- `strings.Split(s, "\r\n")`
unfoldable pub split_crlf : Bytes → List Bytes
split_crlf [] = [] ∷ []
split_crlf (x ∷ []) = (x ∷ []) ∷ []
split_crlf (x ∷ y ∷ r) = elim (x == b'\r' && y == b'\n') [
  | true ↦ [] ∷ split_crlf r
  | false ↦ onto_first x (split_crlf (y ∷ r))
]

-- `strings.Split` at a separator of one byte
unfoldable pub split_at : ℕ → Bytes → List Bytes
split_at sep [] = [] ∷ []
split_at sep (x ∷ r) =
    let parts = split_at sep r in if x == sep then [] ∷ parts else onto_first x parts

-- A byte that a text does not have.
abbrev pub Lacks : ℕ → Bytes → Type 0
Lacks b = All (λ c. c ≢ b)

other : (x b : ℕ) → x ≢ b → (x == b) ≡ false
other x b h = ground (arith, h)

-- A line without a return ends at the first separator behind it.
pub split_crlf-line :
    (line rest : Bytes)
    → Lacks b'\r' line
    → split_crlf (line ++ (b'\r' ∷ b'\n' ∷ rest)) ≡ line ∷ split_crlf rest
unfolding split_crlf
split_crlf-line [] rest h = refl
split_crlf-line (x ∷ []) rest h = let e = other x b'\r' h.0 in rw (e, split_crlf) refl
split_crlf-line (x ∷ y ∷ line) rest h =
    let e = other x b'\r' h.0 in
    rw (e, split_crlf) (ap (onto_first x) (split_crlf-line (y ∷ line) rest h.1))

-- A separator that begins with a byte that a text does not have is not in it.
pub cut-skip :
    (b : ℕ) (sep text rest : Bytes)
    → Lacks b text
    → cut (b ∷ sep) (text ++ rest) ≡ put_front text (cut (b ∷ sep) rest)
unfolding cut has_prefix
cut-skip b sep [] rest h = refl
cut-skip b sep (x ∷ text) rest h =
    let e = other x b h.0 in rw e (ap (onto_cut x) (cut-skip b sep text rest h.1))

pub put_front_lem :
    (text before after : Bytes)
    → put_front text (some (before, after)) ≡ some (text ++ before, after)
put_front_lem [] before after = refl
put_front_lem (x ∷ text) before after = ap (onto_cut x) (put_front_lem text before after)

onto_cut_inv :
    (x : ℕ) (o : Option (Bytes × Bytes)) {before after : Bytes}
    → onto_cut x o ≡ some (before, after)
    → (tail : Bytes) × (o ≡ some (tail, after)) × (before ≡ x ∷ tail)
onto_cut_inv x none e = absurd (cc)
onto_cut_inv x (some (tail, rest)) e = (tail, cc, cc)

first_of : Option (Bytes × Bytes) → Bytes
first_of none = []
first_of (some (before, after)) = before

-- The first part in front of a separator has none.
pub cut-Lacks :
    (b : ℕ) (text : Bytes) {before after : Bytes}
    → cut (b ∷ []) text ≡ some (before, after)
    → Lacks b before
unfolding cut has_prefix first_of
cut-Lacks b [] e = absurd (cc)
cut-Lacks b (x ∷ text) {before} {after} e = elim (Bool-cases (x == b)) [
  | inl here ↦ let first = rw here at e in subst (Lacks b) (ap first_of first) tt
  | inr other_byte ↦
      let first = rw other_byte at e in
      let (tail, found, whole) = onto_cut_inv x (cut (b ∷ []) text) first in
      subst (Lacks b) (sym whole) (ground arith, cut-Lacks b text found)
]

-- The parts of a text are what stands between its separators.
pub split_at-part :
    (b : ℕ) (line rest : Bytes)
    → Lacks b line
    → split_at b (line ++ (b ∷ rest)) ≡ line ∷ split_at b rest
unfolding split_at
split_at-part b [] rest h = let e : (b == b) ≡ true = ground arith in rw e refl
split_at-part b (x ∷ line) rest h =
    let e = other x b h.0 in rw e (ap (onto_first x) (split_at-part b line rest h.1))

pub split_at-last : (b : ℕ) (line : Bytes) → Lacks b line → split_at b line ≡ line ∷ []
unfolding split_at
split_at-last b [] h = refl
split_at-last b (x ∷ line) h =
    let e = other x b h.0 in rw e (ap (onto_first x) (split_at-last b line h.1))

pub index_byte-skip :
    (b : ℕ) (text rest : Bytes)
    → Lacks b text
    → index_byte b (text ++ (b ∷ rest)) ≡ some (length text)
unfolding index_byte
index_byte-skip b [] rest h = let e : (b == b) ≡ true = ground arith in rw (e, index_byte) refl
index_byte-skip b (x ∷ text) rest h =
    let e = other x b h.0 in rw (e, index_byte) (rw (index_byte-skip b text rest h.1) refl)

at_start : (b : ℕ) (after : Bytes) → cut (b ∷ []) (b ∷ after) ≡ some ([], after)
unfolding cut has_prefix
at_start b after = let e : (b == b) ≡ true = ground arith in rw e refl

-- The first separator of one byte parts a text in two.
pub cut_byte :
    (b : ℕ) (before after : Bytes)
    → Lacks b before
    → cut (b ∷ []) (before ++ (b ∷ after)) ≡ some (before, after)
unfolding cut has_prefix
cut_byte b before after h =
    cut-skip b [] before (b ∷ after) h
    ∙ ap (put_front before) (at_start b after)
    ∙ put_front_lem before [] after
    ∙ cc (append-nil before)
