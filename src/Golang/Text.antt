-- ===== src/Golang/Text.antt =====
-- Byte strings: the functions of `strings`, `bytes`, `strconv` and `fmt` that the code calls.
pub mod Laws
use Prim.Native.Char.{code}
use Prim.Native.String.{String}
use a.Prelude.{
  ℕ, zero, suc, ◌+◌, ◌-◌, ◌*◌, ◌/◌, ◌%◌, ◌^◌, ◌≡◌, refl, Bool, true, false, ◌&&◌, ◌||◌, Option,
  none, some, List, [], ◌∷◌, ◌++◌, ltb, leb, ◌==◌, if◌then◌else◌, drop, take, length,
}
use a.Golang.Int.{ℤ, pos, negsuc}
use a.Golang.Slice.{Bytes}

-- The bytes of a literal; every literal here is ASCII.
abbrev pub text : String → Bytes
text String.[] = []
text (String.◌∷◌ c s) = code c ∷ text s

-- `==` and `<` on strings: byte by byte.
unfoldable pub bytes_eq : Bytes → Bytes → Bool
bytes_eq [] [] = true
bytes_eq (x ∷ xs) (y ∷ ys) = x == y && bytes_eq xs ys
bytes_eq _ _ = false

unfoldable pub bytes_lt : Bytes → Bytes → Bool
bytes_lt [] [] = false
bytes_lt [] (y ∷ ys) = true
bytes_lt (x ∷ xs) [] = false
bytes_lt (x ∷ xs) (y ∷ ys) = ltb x y || (x == y && bytes_lt xs ys)

-- `bytes.HasPrefix`
unfoldable pub has_prefix : Bytes → Bytes → Bool
has_prefix xs [] = true
has_prefix [] (y ∷ ys) = false
has_prefix (x ∷ xs) (y ∷ ys) = x == y && has_prefix xs ys

-- `bytes.Index(s, "\r\n")`; `none` stands for -1.
unfoldable pub index_crlf : Bytes → Option ℕ
index_crlf [] = none
index_crlf (x ∷ []) = none
index_crlf (x ∷ y ∷ r) = elim (x == b'\r' && y == b'\n') [
  | true ↦ some 0
  | false ↦ elim (index_crlf (y ∷ r)) [ none ↦ none | some i ↦ some (suc i) ]
]

-- `bytes.IndexByte`
unfoldable pub index_byte : ℕ → Bytes → Option ℕ
index_byte b [] = none
index_byte b (x ∷ r) = elim (x == b) [
  | true ↦ some 0
  | false ↦ elim (index_byte b r) [ none ↦ none | some i ↦ some (suc i) ]
]

abbrev pub is_digit : ℕ → Bool
is_digit c = leb b'0' c && leb c b'9'

-- The value of decimal digits, read from the left; `none` at any other byte.
unfoldable pub digits_value : ℕ → Bytes → Option ℕ
digits_value acc [] = some acc
digits_value acc (c ∷ r) = elim (is_digit c) [
  | true ↦ digits_value (acc * 10 + (c - b'0')) r
  | false ↦ none
]

-- What `strconv.Atoi` yields, for a 64-bit `int`.
pub data Number : Type 0 where
  plus : ℕ → Number
  minus : ℕ → Number
  invalid : Number

-- `minus n` is -n, for n > 0; a value outside of the 64-bit range is an error.
unfoldable pub in_range : Bool → Option ℕ → Number
in_range sign none = invalid
in_range false (some n) = if ltb n (2 ^ 63) then plus n else invalid
in_range true (some n) = if n == 0 then plus 0 else if leb n (2 ^ 63) then minus n else invalid

unfoldable pub unsigned : Bool → Bytes → Number
unfolding in_range digits_value
unsigned sign [] = invalid
unsigned sign (c ∷ r) = in_range sign (digits_value 0 (c ∷ r))

-- `strconv.Atoi`
unfoldable pub atoi : Bytes → Number
unfolding unsigned
atoi [] = invalid
atoi (c ∷ r) =
    if c == b'-'
    then unsigned true r
    else if c == b'+'
    then unsigned false r
    else unsigned false (c ∷ r)

-- `%d` of a number that is not negative. The fuel suffices as n / 10 < n for n > 0.
unfoldable pub decimal_onto : ℕ → ℕ → Bytes → Bytes
decimal_onto zero n rest = rest
decimal_onto (suc f) n rest =
    let more = decimal_onto f (n / 10) ((n % 10 + b'0') ∷ rest) in
    if ltb n 10 then (n + b'0') ∷ rest else more

unfoldable pub decimal : ℕ → Bytes
unfolding decimal_onto
decimal n = decimal_onto (suc n) n []

-- `%d` of an integer.
unfoldable pub show_int : ℤ → Bytes
unfolding decimal
show_int (pos n) = decimal n
show_int (negsuc n) = b'-' ∷ decimal (suc n)

-- `strings.Join(parts, sep)`
unfoldable pub join : Bytes → List Bytes → Bytes
join sep [] = []
join sep (p ∷ []) = p
join sep (p ∷ q ∷ r) = p ++ (sep ++ join sep (q ∷ r))

-- The parts of a formatted text, one behind the other.
unfoldable pub concat : List Bytes → Bytes
concat [] = []
concat (p ∷ ps) = p ++ concat ps

-- `html.EscapeString`
abbrev escaped : ℕ → Bytes
escaped c =
    if c == b'&'
    then text "&amp;"
    else if c == b'<'
    then text "&lt;"
    else if c == b'>'
    then text "&gt;"
    else if c == 39
    then text "&#39;"
    else if c == 34
    then text "&#34;"
    else c ∷ []

unfoldable pub escape_string : Bytes → Bytes
escape_string [] = []
escape_string (c ∷ r) = escaped c ++ escape_string r

-- The functions that depend on Unicode's tables, as parameters of the model.
pub record Unicode : Type 0 where
  pub to_upper : Bytes → Bytes
  pub to_lower : Bytes → Bytes
  pub trim_space : Bytes → Bytes
  pub fields : Bytes → List Bytes

runs : (decimal 4096 ≡ text "4096") × (atoi (text "-12") ≡ minus 12) × (decimal 0 ≡ text "0")
unfolding decimal atoi
runs = (refl, refl, refl)
