-- ===== src/Http/RoundTrip.antt =====
-- pkg/protocol/parser.go: `HTTPParser.Parse` of a request that was sent as it should be.
use a.Prelude.{ℕ, ◌≢◌, ◌≡◌, refl, ◌∙◌, ap, arith, true, some, List, [], ◌∷◌, ◌++◌, ltb, length, All}
use a.Golang.Slice.{Bytes}
use a.Golang.Split.{split_crlf, Lacks, split_crlf-line}
use a.Golang.Text.{has_prefix, Unicode}
use a.Model.Span.{Span}
use a.Http.Match.{match_method, match_version, match_request, match_response}
use a.Http.Parser.{Headers, HttpRequest, request, read_headers, body_of, parse_lines, parse}
use a.Http.Wire.{
  IsHeader, encode_headers, filled, identified, read_headers-encode, cut_body, front,
  encode_request,
}
use a.Http.RequestLine.{IsRequest, request_line, request_line_lem, request_line-Lacks}

parse_lem :
    (u : Unicode) {F : Type 0} (s : Bytes) (span : Span F)
    → parse u s span ≡ parse_lines u s (split_crlf s) span
unfolding parse parse_lines split_crlf match_request match_method match_response match_version
    has_prefix
parse_lem u [] span = refl
parse_lem u (c ∷ s) span = refl

front-pos : (c : ℕ) (line : Bytes) (hs : Headers) → ltb 0 (length (front (c ∷ line) hs)) ≡ true
front-pos c line [] = ground arith
front-pos c line (h ∷ hs) = ground arith

body_of-encode :
    (c : ℕ) (line : Bytes) (hs : Headers) (body : Bytes)
    → Lacks b'\r' (c ∷ line)
    → All IsHeader hs
    → body_of ((c ∷ line) ++ (b'\r' ∷ b'\n' ∷ encode_headers hs body)) ≡ body
unfolding body_of
body_of-encode c line hs body h k =
    rw (cut_body (c ∷ line) hs body h k, body_of) (rw (front-pos c line hs) refl)

no_method : (m path version : Bytes) → match_request [] ≢ some (m, path, version)
unfolding match_request match_method has_prefix
no_method m path version e = cc

module _ (u : Unicode) {F : Type 0} where
  parse_found :
      (payload first : Bytes) (lines : List Bytes) (span : Span F) (m path version : Bytes)
      (headers : Headers) (span' : Span F) (body : Bytes)
      → match_request first ≡ some (m, path, version)
      → read_headers u lines [] span ≡ (headers, span')
      → body_of payload ≡ body
      → parse_lines u payload (first ∷ lines) span
        ≡ some (
          request (record {
            method = m;
            path = path;
            version = version;
            headers = headers;
            body = body;
          }),
          span',
        )
  unfolding parse_lines
  parse_found payload first lines span m path version headers span' body e f g =
      rw (e, parse_lines) (rw f (rw g refl))

  parse_line :
      (line : Bytes) (hs : Headers) (body : Bytes) (span : Span F) (m path version : Bytes)
      → match_request line ≡ some (m, path, version)
      → Lacks b'\r' line
      → All IsHeader hs
      → parse u (line ++ (b'\r' ∷ b'\n' ∷ encode_headers hs body)) span
        ≡ some (
          request (record {
            method = m;
            path = path;
            version = version;
            headers = filled hs [];
            body = body;
          }),
          identified u hs span,
        )
  parse_line [] hs body span m path version e h k = absurd (no_method m path version e)
  parse_line (c ∷ line) hs body span m path version e h k =
      let payload : Bytes = (c ∷ line) ++ (b'\r' ∷ b'\n' ∷ encode_headers hs body) in
      parse_lem u payload span
      ∙ ap (λ lines. parse_lines u payload lines span)
          (split_crlf-line (c ∷ line) (encode_headers hs body) h)
      ∙ parse_found payload (c ∷ line) (split_crlf (encode_headers hs body)) span m path version
          (filled hs []) (identified u hs span) body e (read_headers-encode u hs body [] span k)
          (body_of-encode c line hs body h k)

  -- A request comes back as it was sent, with its headers as the map that they fill, and the span with
  -- the identifiers that the headers name, if the method is one of HTTP's nine, the path has a byte
  -- and no white space, the version is two decimal numbers, and no header has a return or, in its
  -- name, a colon.
  pub parse-encode_request :
      (req : HttpRequest) (span : Span F)
      → IsRequest req
      → parse u (encode_request req) span
        ≡ some (
          request (record req { headers = filled req.headers [] }),
          identified u req.headers span,
        )
  parse-encode_request req span h =
      parse_line (request_line req) req.headers req.body span req.method req.path req.version
        (request_line_lem req h) (request_line-Lacks req h) h.headers
