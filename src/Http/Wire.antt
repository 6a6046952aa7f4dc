-- ===== src/Http/Wire.antt =====
-- pkg/protocol/parser.go: HTTP requests as they are sent, and `HTTPParser.Parse` of them.
use a.Prelude.{
  ℕ, ◌≢◌, ◌≡◌, refl, ◌∙◌, ap, arith, false, some, List, [], ◌∷◌, ◌++◌, append-nil, ◌==◌, All,
  All-append,
}
use a.Golang.Dict.{insert}
use a.Golang.Slice.{Bytes}
use a.Golang.Split.{cut, split_crlf, Lacks, split_crlf-line, cut-skip, put_front, put_front_lem}
use a.Golang.Text.{text, has_prefix, Unicode}
use a.Model.Span.{Span}
use a.Http.Parser.{Headers, HttpRequest, identify, read_headers}

-- A header that can be sent: no colon in its name, and no return.
abbrev pub IsHeader : Bytes × Bytes → Type 0
IsHeader (name, value) = Lacks b':' name × Lacks b'\r' name × Lacks b'\r' value

abbrev pub header_line : Bytes × Bytes → Bytes
header_line (name, value) = name ++ (b':' ∷ b' ' ∷ value)

-- The lines of the headers, the empty line, and the body.
abbrev pub encode_headers : Headers → Bytes → Bytes
encode_headers [] body = b'\r' ∷ b'\n' ∷ body
encode_headers (h ∷ hs) body = header_line h ++ (b'\r' ∷ b'\n' ∷ encode_headers hs body)

abbrev pub encode_request : HttpRequest → Bytes
encode_request req =
    (req.method ++ (b' ' ∷ (req.path ++ (text " HTTP/" ++ req.version))))
    ++ (b'\r' ∷ b'\n' ∷ encode_headers req.headers req.body)

-- The headers as the map that they fill, in their order.
abbrev pub filled : Headers → Headers → Headers
filled [] m = m
filled ((name, value) ∷ hs) m = filled hs (insert name value m)

header_line-Lacks : (h : Bytes × Bytes) → IsHeader h → Lacks b'\r' (header_line h)
header_line-Lacks (name, value) (colon, r, s) =
    All-append (λ c. c ≢ b'\r') name (b':' ∷ b' ' ∷ value) r (ground arith, (ground arith, s))

cut_header :
    (name value : Bytes)
    → Lacks b':' name
    → cut (text ": ") (name ++ (b':' ∷ b' ' ∷ value)) ≡ some (name, value)
unfolding cut has_prefix
cut_header name value h =
    cut-skip b':' (b' ' ∷ []) name (b':' ∷ b' ' ∷ value) h
    ∙ put_front_lem name [] value
    ∙ cc (append-nil name)

cut_empty : (name value : Bytes) → cut (text ": ") [] ≢ some (name, value)
unfolding cut has_prefix
cut_empty name value e = cc

-- What stands in front of the empty line.
abbrev pub front : Bytes → Headers → Bytes
front line [] = line
front line (h ∷ hs) = line ++ (b'\r' ∷ b'\n' ∷ front (header_line h) hs)

over_return :
    (c : ℕ) (rest : Bytes)
    → c ≢ b'\r'
    → cut (text "\r\n\r\n") (b'\r' ∷ b'\n' ∷ c ∷ rest)
      ≡ put_front (b'\r' ∷ b'\n' ∷ []) (cut (text "\r\n\r\n") (c ∷ rest))
unfolding cut has_prefix
over_return c rest h = let e : (c == b'\r') ≡ false = ground arith in rw e refl

-- A line of a header begins with another byte than a return.
over_header :
    (h : Bytes × Bytes) (rest : Bytes)
    → IsHeader h
    → cut (text "\r\n\r\n") (b'\r' ∷ b'\n' ∷ (header_line h ++ rest))
      ≡ put_front (b'\r' ∷ b'\n' ∷ []) (cut (text "\r\n\r\n") (header_line h ++ rest))
over_header ([], value) rest h = over_return b':' (b' ' ∷ (value ++ rest)) (ground arith)
over_header (c ∷ name, value) rest h = over_return c (header_line (name, value) ++ rest) h.1.0

at_empty_line :
    (body : Bytes) → cut (text "\r\n\r\n") (b'\r' ∷ b'\n' ∷ b'\r' ∷ b'\n' ∷ body) ≡ some ([], body)
unfolding cut has_prefix
at_empty_line body = refl

pub cut_body :
    (line : Bytes) (hs : Headers) (body : Bytes)
    → Lacks b'\r' line
    → All IsHeader hs
    → cut (text "\r\n\r\n") (line ++ (b'\r' ∷ b'\n' ∷ encode_headers hs body))
      ≡ some (front line hs, body)
cut_body line [] body h k =
    cut-skip b'\r' (text "\n\r\n") line (b'\r' ∷ b'\n' ∷ b'\r' ∷ b'\n' ∷ body) h
    ∙ ap (put_front line) (at_empty_line body)
    ∙ put_front_lem line [] body
    ∙ cc (append-nil line)
cut_body line (header ∷ hs) body h k =
    let rest : Bytes = header_line header ++ (b'\r' ∷ b'\n' ∷ encode_headers hs body) in
    cut-skip b'\r' (text "\n\r\n") line (b'\r' ∷ b'\n' ∷ rest) h
    ∙ ap (put_front line) (over_header header (b'\r' ∷ b'\n' ∷ encode_headers hs body) k.0)
    ∙ ap (λ o. put_front line (put_front (b'\r' ∷ b'\n' ∷ []) o))
        (cut_body (header_line header) hs body (header_line-Lacks header k.0) k.1)
    ∙ (put_front_lem line (b'\r' ∷ b'\n' ∷ front (header_line header) hs) body)

module _ (u : Unicode) {F : Type 0} where
  -- The span that the headers identify.
  abbrev pub identified : Headers → Span F → Span F
  identified [] span = span
  identified ((name, value) ∷ hs) span = identified hs (identify u name value span)

  read_header :
      (line : Bytes) (lines : List Bytes) (name value : Bytes) (headers : Headers) (span : Span F)
      → cut (text ": ") line ≡ some (name, value)
      → read_headers u (line ∷ lines) headers span
        ≡ read_headers u lines (insert name value headers) (identify u name value span)
  unfolding read_headers
  read_header [] lines name value headers span e = absurd (cut_empty name value e)
  read_header (c ∷ line) lines name value headers span e = rw (e, read_headers) refl

  pub read_headers-encode :
      (hs : Headers) (body : Bytes) (headers : Headers) (span : Span F)
      → All IsHeader hs
      → read_headers u (split_crlf (encode_headers hs body)) headers span
        ≡ (filled hs headers, identified hs span)
  unfolding read_headers split_crlf
  read_headers-encode [] body headers span h = refl
  read_headers-encode ((name, value) ∷ hs) body headers span (h, rest) =
      rw
        (split_crlf-line (header_line (name, value)) (encode_headers hs body)
          (header_line-Lacks (name, value) h))
        (read_header (header_line (name, value)) (split_crlf (encode_headers hs body)) name value
            headers span (cut_header name value h.0)
          ∙ read_headers-encode hs body (insert name value headers) (identify u name value span)
              rest)
