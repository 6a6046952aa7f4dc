-- ===== src/Http/Match.antt =====
-- pkg/protocol/parser.go: the two regular expressions of `HTTPParser`, as functions of a line. White
-- space and digits are those of RE2, single ASCII bytes, so a match can be read byte by byte; `\s+`
-- in front of `\S` and `\S+` in front of `\s` take as much as they can.
use a.Prelude.{
  ℕ, Bool, true, false, not, ◌&&◌, ◌||◌, Option, none, some, List, [], ◌∷◌, ◌++◌, ◌==◌,
  if◌then◌else◌, drop, length,
}
use a.Golang.Slice.{Bytes}
use a.Golang.Text.{text, has_prefix, is_digit}

-- `\s`
abbrev pub is_white : ℕ → Bool
is_white c = c == 9 || (c == 10 || (c == 12 || (c == 13 || c == 32)))

-- The longest prefix of bytes that pass a test, and the rest.
unfoldable pub span_while : (ℕ → Bool) → Bytes → Bytes × Bytes
span_while p [] = ([], [])
span_while p (c ∷ r) =
    let rest = span_while p r in if p c then (c ∷ rest.0, rest.1) else ([], c ∷ r)

-- The rest behind a prefix.
abbrev pub strip_prefix : Bytes → Bytes → Option Bytes
strip_prefix s prefix = if has_prefix s prefix then some (drop (length prefix) s) else none

-- `\s+`, `\S+` and `\d+`, with the rest; they take at least one byte.
abbrev pub at_least_one : Bytes × Bytes → Option (Bytes × Bytes)
at_least_one ([], rest) = none
at_least_one (c ∷ taken, rest) = some (c ∷ taken, rest)

abbrev pub white : Bytes → Option (Bytes × Bytes)
white s = at_least_one (span_while is_white s)

abbrev pub word : Bytes → Option (Bytes × Bytes)
word s = at_least_one (span_while (λ c. not (is_white c)) s)

abbrev pub digits : Bytes → Option (Bytes × Bytes)
digits s = at_least_one (span_while is_digit s)

infixl 5 ◌>>=◌
abbrev ◌>>=◌ {ℓ κ} : {A : Type ℓ} {B : Type κ} → Option A → (A → Option B) → Option B
none >>= f = none
some x >>= f = f x

-- `HTTP/(\d+\.\d+)`: the version, and the rest.
unfoldable pub match_version : Bytes → Option (Bytes × Bytes)
match_version s = do
  rest ← strip_prefix s (text "HTTP/")
  (major, rest) ← digits rest
  rest ← strip_prefix rest (text ".")
  (minor, rest) ← digits rest
  some (major ++ (text "." ++ minor), rest)

abbrev pub methods : List Bytes
methods =
    text "GET"
    ∷ text "POST"
    ∷ text "PUT"
    ∷ text "DELETE"
    ∷ text "PATCH"
    ∷ text "HEAD"
    ∷ text "OPTIONS"
    ∷ text "CONNECT"
    ∷ text "TRACE"
    ∷ []

-- The alternatives are tried in order; none is a prefix of another.
unfoldable pub match_method : List Bytes → Bytes → Option (Bytes × Bytes)
match_method [] s = none
match_method (m ∷ ms) s =
    let later = match_method ms s in if has_prefix s m then some (m, drop (length m) s) else later

-- `requestRegex`: the method, the path and the version.
unfoldable pub match_request : Bytes → Option (Bytes × Bytes × Bytes)
match_request line = do
  (method, rest) ← match_method methods line
  (gap, rest) ← white rest
  (path, rest) ← word rest
  (gap, rest) ← white rest
  (version, rest) ← match_version rest
  some (method, path, version)

-- `\s+(.+)`: white space, and behind it a byte that is no newline. Where all is white space, `\s+`
-- leaves a byte of it.
abbrev pub has_visible : Bytes → Bool
has_visible [] = false
has_visible (c ∷ r) = if c == b'\n' then has_visible r else true

abbrev pub match_reason : Bytes → Bool
match_reason [] = false
match_reason (c ∷ r) = is_white c && has_visible r

-- `responseRegex`: the version and the status.
unfoldable pub match_response : Bytes → Option (Bytes × Bytes)
match_response line = do
  (version, rest) ← match_version line
  (gap, rest) ← white rest
  (code, rest) ← digits rest
  if match_reason rest then some (version, code) else none
