-- ===== src/Redis/Lines.antt =====
-- pkg/protocol/parser.go: the first line of an array or a bulk string, a mark and a decimal numeral.
use a.Prelude.{
  ℕ, suc, ◌+◌, ◌≤◌, ◌<◌, ◌^◌, ◌≡◌, ◌≢◌, refl, sym, ap, ◌∙◌, true, some, ◌∷◌, ◌++◌, arith, length,
  take, drop, take-append, drop-append, drop-drop, drop-cons, ◌==◌, get_or, ltb, ◌&&◌,
}
use a.Golang.Slice.{Bytes}
use a.Golang.Text.{index_crlf, plus, atoi, decimal}
use a.Golang.Text.Laws.{index_crlf-append, atoi-decimal, decimal-no_return}
use a.Redis.Parser.{part, array_header, fault, append, read_arg}

-- The line `mark n CR LF`, and what follows.
abbrev pub line : ℕ → ℕ → Bytes → Bytes
line mark n rest = mark ∷ (decimal n ++ (13 ∷ 10 ∷ rest))

-- The length of that line.
abbrev pub line_length : ℕ → ℕ
line_length n = length (decimal n) + 3

pub index_crlf-line :
    (mark n : ℕ) (rest : Bytes)
    → mark ≢ 13
    → index_crlf (line mark n rest) ≡ some (suc (length (decimal n)))
index_crlf-line mark n rest h = index_crlf-append (mark ∷ decimal n) rest (h, decimal-no_return n)

-- The numeral, cut from a payload that holds the line at `pos`.
pub part-line :
    (p : Bytes) (pos mark n : ℕ) (rest : Bytes)
    → drop pos p ≡ line mark n rest
    → part p (pos + 1) (pos + suc (length (decimal n))) ≡ decimal n
part-line p pos mark n rest e =
    ap (take _) (sym (drop-drop pos 1 p) ∙ ap (drop 1) e)
    ∙ take-append (decimal n) (13 ∷ 10 ∷ rest) _ (omega arith)

-- Behind the line.
pub drop-line :
    (p : Bytes) (pos mark n : ℕ) (rest : Bytes)
    → drop pos p ≡ line mark n rest
    → drop (pos + suc (length (decimal n)) + 2) p ≡ rest
drop-line p pos mark n rest e =
    let sum : pos + suc (length (decimal n)) + 2 ≡ pos + (length (mark ∷ decimal n) + 2) =
      omega arith in
    rw sum (
      sym (drop-drop pos (length (mark ∷ decimal n) + 2) p)
      ∙ ap (drop (length (mark ∷ decimal n) + 2)) e
      ∙ sym (drop-drop (length (mark ∷ decimal n)) 2 (line mark n rest))
      ∙ ap (drop 2)
          (drop-append (mark ∷ decimal n) (13 ∷ 10 ∷ rest) (length (mark ∷ decimal n)) refl))

pub part_of_line :
    (mark n : ℕ) (rest : Bytes) → part (line mark n rest) 1 (suc (length (decimal n))) ≡ decimal n
part_of_line mark n rest = take-append (decimal n) (13 ∷ 10 ∷ rest) _ (omega arith)

pub drop-line_length : (mark n : ℕ) (rest : Bytes) → drop (line_length n) (line mark n rest) ≡ rest
drop-line_length mark n rest =
    let sum : line_length n ≡ 0 + suc (length (decimal n)) + 2 = omega arith in
    rw sum (drop-line (line mark n rest) 0 mark n rest refl)

pub array_header-line :
    (n : ℕ) (rest : Bytes)
    → 0 < n
    → n < 2 ^ 63
    → array_header (line b'*' n rest) ≡ some (n, line_length n)
unfolding array_header
array_header-line n rest pos lt = ground (
  arith,
  index_crlf-line b'*' n rest (omega arith),
  ap atoi (part_of_line b'*' n rest),
  atoi-decimal n lt,
)

-- A payload that holds at `pos` the first line of a bulk string.
module _ (p : Bytes) (pos n : ℕ) (rest : Bytes) (e : drop pos p ≡ line b'$' n rest)
    (lt : n < 2 ^ 63) where
  here : (ltb pos (length p) && get_or p pos 0 == b'$') ≡ true
  here = ground (arith, drop-cons p pos b'$' 0 e)

  pub pos-lt-length : pos < length p
  pos-lt-length = (drop-cons p pos b'$' 0 e).0

  crlf_here : index_crlf (drop pos p) ≡ some (suc (length (decimal n)))
  crlf_here = rw e (index_crlf-line b'$' n rest (omega arith))

  atoi_here : atoi (part p (pos + 1) (pos + suc (length (decimal n)))) ≡ plus n
  atoi_here = rw (part-line p pos b'$' n rest e) (atoi-decimal n lt)

  pub read_arg_fault : 2 ^ 63 ≤ pos + line_length n + n → read_arg p pos ≡ fault
  unfolding read_arg
  read_arg_fault big = ground (arith, here, crlf_here, atoi_here)

  body_here :
      part p (pos + suc (length (decimal n)) + 2) (pos + suc (length (decimal n)) + 2 + n)
      ≡ take n rest
  body_here = rw (drop-line p pos b'$' n rest e) (ap (λ k. take k rest) (omega arith))

  pub read_arg_append :
      pos + line_length n + n < 2 ^ 63
      → pos + line_length n + n ≤ length p
      → read_arg p pos ≡ append (take n rest) (pos + line_length n + n + 2)
  unfolding read_arg
  read_arg_append small fits = ground (arith, here, crlf_here, atoi_here, body_here)
