-- ===== src/Http/Parser.antt =====
-- pkg/protocol/parser.go: the methods of `HTTPParser`. The payload is the bytes that the slice shows.
use a.Prelude.{Bool, false, ◌||◌, Option, none, some, List, [], ◌∷◌, ltb, if◌then◌else◌, length}
use a.Golang.Dict.{insert}
use a.Golang.Int.{ℤ, pos, neg}
use a.Golang.Slice.{Bytes}
use a.Golang.Split.{cut, split_crlf}
use a.Golang.Text.{text, bytes_eq, has_prefix, atoi, plus, minus, invalid, Unicode}
use a.Model.Span.{Span}
use a.Http.Match.{match_request, match_response}

abbrev pub Headers : Type 0
Headers = List (Bytes × Bytes)

pub record HttpRequest : Type 0 where
  pub method : Bytes
  pub path : Bytes
  pub version : Bytes
  pub headers : Headers
  pub body : Bytes

pub record HttpResponse : Type 0 where
  pub status_code : ℤ
  pub version : Bytes
  pub headers : Headers
  pub body : Bytes

-- What `Parse` returns where it returns no error.
pub data HttpMessage : Type 0 where
  request : HttpRequest → HttpMessage
  response : HttpResponse → HttpMessage

abbrev pub prefixes : List Bytes
prefixes =
    text "GET "
    ∷ text "POST"
    ∷ text "PUT "
    ∷ text "DELE"
    ∷ text "PATC"
    ∷ text "HEAD"
    ∷ text "OPTI"
    ∷ text "CONN"
    ∷ text "TRAC"
    ∷ text "HTTP"
    ∷ []

unfoldable pub has_any_prefix : Bytes → List Bytes → Bool
has_any_prefix payload [] = false
has_any_prefix payload (m ∷ ms) = has_prefix payload m || has_any_prefix payload ms

-- `CanHandle`
unfoldable pub can_handle : Bytes → Bool
can_handle payload = if ltb (length payload) 4 then false else has_any_prefix payload prefixes

-- The body behind the first empty line, if it has a byte.
unfoldable pub body_of : Bytes → Bytes
body_of payload = elim (cut (text "\r\n\r\n") payload) [
  | none ↦ []
  | some (before, after) ↦ if ltb 0 (length before) then after else []
]

abbrev pub status_of : Bytes → ℤ
status_of code = elim (atoi code) [ plus n ↦ pos n | minus n ↦ neg n | invalid ↦ pos 0 ]

module _ (u : Unicode) {F : Type 0} where
  -- What a header with this name says of the span.
  unfoldable pub identify : Bytes → Bytes → Span F → Span F
  identify name value span =
      let lower = u.to_lower name in
      let s1 : Span F =
        if bytes_eq lower (text "x-trace-id") then record span { trace_id = value } else span in
      let s2 : Span F =
        if bytes_eq lower (text "x-span-id") then record s1 { span_id = value } else s1 in
      if bytes_eq lower (text "x-parent-span-id") then record s2 { parent_span_id = value } else s2

  -- The loop over the lines behind the first, to the first empty one.
  unfoldable pub read_headers : List Bytes → Headers → Span F → Headers × Span F
  read_headers [] headers span = (headers, span)
  read_headers ([] ∷ lines) headers span = (headers, span)
  read_headers ((c ∷ line) ∷ lines) headers span = elim (cut (text ": ") (c ∷ line)) [
    | none ↦ read_headers lines headers span
    | some (name, value) ↦ read_headers lines (insert name value headers) (identify name value span)
  ]

  -- `Parse` of the lines of a payload.
  unfoldable pub parse_lines : Bytes → List Bytes → Span F → Option (HttpMessage × Span F)
  parse_lines payload [] span = none
  parse_lines payload (first ∷ lines) span = elim (match_request first) [
    | some (method, path, version) ↦
        let (headers, span') = read_headers lines [] span in
        let req : HttpRequest = record {
          method = method;
          path = path;
          version = version;
          headers = headers;
          body = body_of payload;
        } in
        some (request req, span')
    | none ↦ elim (match_response first) [
      | some (version, code) ↦
          let (headers, span') = read_headers lines [] span in
          let resp : HttpResponse = record {
            status_code = status_of code;
            version = version;
            headers = headers;
            body = body_of payload;
          } in
          some (response resp, span')
      | none ↦ none
    ]
  ]

  -- `Parse`; `none` is an error, which leaves the span as it is.
  unfoldable pub parse : Bytes → Span F → Option (HttpMessage × Span F)
  parse [] span = none
  parse (c ∷ payload) span = parse_lines (c ∷ payload) (split_crlf (c ∷ payload)) span
