-- ===== src/Tests/Http.antt =====
-- Tests of the HTTP and gRPC parsers, and of the parser that calls them.
use a.Prelude.{ℕ, ◌≡◌, refl, arith, none, some, inl, [], ◌∷◌, replicate, leb, if◌then◌else◌}
use a.Golang.Int.{pos}
use a.Golang.Result.{ok, panic}
use a.Golang.Slice.{Bytes}
use a.Golang.Split.{cut, split_crlf}
use a.Golang.Text.{text, bytes_eq, has_prefix, atoi, index_crlf}
use a.Golang.Dict.{insert}
use a.Model.Event.{RawTraceEvent, protocol_of}
use a.Model.Span.{Span}
use a.Http.Match.{span_while, match_version, match_method, match_request, match_response}
use a.Http.Parser.{
  HttpRequest, HttpResponse, request, response, identify, read_headers, body_of, parse_lines,
}
use a.Http.Parser as Http
use a.Http.Wire.{encode_request, filled, identified}
use a.Http.RequestLine.{IsRequest}
use a.Http.RoundTrip.{parse-encode_request}
use a.Grpc.Parser.{GrpcMessage}
use a.Grpc.Parser as Grpc
use a.Grpc.Names.{KeepsColons, names}
use a.Grpc.Path.{with_path, parse-with_path}
use a.Dispatch.Parser as Dispatch
use a.Dispatch.Panics.{returns, crashes, ending, parse-ending}
use a.Envoy.Parser as Envoy
use a.Redis.Parser as Redis
use a.Tests.Instances.{ascii, span_of}

program : Unit {0}
unfolding span_while match_version match_method match_request match_response identify read_headers
    body_of parse_lines Http.parse cut split_crlf has_prefix bytes_eq insert atoi
program = tt

abbrev get_orders : HttpRequest
get_orders = record {
  method = text "GET";
  path = text "/orders";
  version = text "1.1";
  headers = (text "X-Trace-Id", text "t1") ∷ (text "Host", text "a: b") ∷ [];
  body = text "hi";
}

get_orders-IsRequest : IsRequest get_orders
get_orders-IsRequest = record {
  method = inl refl;
  path_head = b'/';
  path_rest = text "orders";
  path = refl;
  visible = (refl, (refl, (refl, (refl, (refl, (refl, (refl, tt)))))));
  major_head = b'1';
  major_rest = [];
  minor_head = b'1';
  minor_rest = [];
  version = refl;
  major = (refl, tt);
  minor = (refl, tt);
  headers = omega arith;
}

sent :
    Http.parse ascii (encode_request get_orders) (span_of [] 0 0)
    ≡ some (request get_orders, record (span_of [] 0 0) { trace_id = text "t1" })
unfolding program
sent = refl

answered :
    Http.parse ascii (text "HTTP/1.1 404 Not Found\r\n\r\n") (span_of [] 0 0)
    ≡ some (
      response (record { status_code = pos 404; version = text "1.1"; headers = []; body = [] }),
      span_of [] 0 0,
    )
unfolding program
answered = refl

-- A status without a reason is not an HTTP message to the code.
no_reason : Http.parse ascii (text "HTTP/1.1 200\r\n\r\n") (span_of [] 0 0) ≡ none
unfolding program
no_reason = refl

parse-encode_request_example :
    Http.parse ascii (encode_request get_orders) (span_of [] 0 0)
    ≡ some (
      request (record get_orders { headers = filled get_orders.headers [] }),
      identified ascii get_orders.headers (span_of [] 0 0),
    )
parse-encode_request_example =
    parse-encode_request ascii get_orders (span_of [] 0 0) get_orders-IsRequest

ascii-KeepsColons : KeepsColons ascii
ascii-KeepsColons [] h = tt
ascii-KeepsColons (c ∷ s) h = let differs = h.0 in (ground arith, ascii-KeepsColons s h.1)

abbrev grpc_start : Bytes
grpc_start = 0 ∷ 0 ∷ 0 ∷ 0 ∷ 40 ∷ []

parse-with_path_example :
    (r : GrpcMessage × Span ℕ) × (Grpc.parse ascii
        (with_path grpc_start (text "pkg.Users") (text "Get") [])
        (span_of [] 0 0)
      ≡ ok r)
    × (names r.0 ≡ ([], text "pkg.Users"))
parse-with_path_example =
    parse-with_path ascii ascii-KeepsColons grpc_start (text "pkg.Users") (text "Get") []
      (span_of [] 0 0) (omega arith) (omega arith) (omega arith, omega arith)
      (omega arith, omega arith) (omega arith)

-- An event with this protocol, size and payload.
abbrev event_of : ℕ → ℕ → Bytes → RawTraceEvent
event_of protocol size payload = record {
  timestamp = 7;
  pid = 300;
  tid = 301;
  uid = 0;
  gid = 0;
  comm = replicate 16 b'c';
  event_type = 2;
  protocol = protocol;
  s_addr = 0x0100007f;
  d_addr = 0x0200007f;
  s_port = 8080;
  d_port = 80;
  duration_ns = 5;
  error_code = 0;
  payload_size = size;
  payload = payload;
  trace_id = replicate 33 b't';
  span_id = replicate 17 b's';
  parent_span_id = replicate 17 0;
  path = replicate 256 b'/';
}

parse-ending_example :
    ending (Dispatch.parse ascii (event_of 0 2000 (replicate 1024 b'p')) (span_of [] 0 0))
    ≡ (if leb 2000 1024 then returns else crashes)
unfolding protocol_of
parse-ending_example =
    parse-ending ascii (event_of 0 2000 (replicate 1024 b'p')) (span_of [] 0 0) refl (λ e. cc)

dispatch : Unit {0}
unfolding program protocol_of Envoy.is_known Envoy.can_handle Dispatch.unwrap Dispatch.redis_branch
    Dispatch.http_branch Dispatch.keep_http Dispatch.branch Dispatch.parse_payload Dispatch.parse
    Dispatch.truncate_string Http.has_any_prefix Http.can_handle Redis.can_handle Redis.parse
    Redis.parse_multiple Redis.parse_multiple_from Redis.parse_single Redis.parse_resp_response
    Redis.response_end Redis.response_command Redis.read_bulk index_crlf
dispatch = tt

-- A length near the largest int makes a Redis event crash the parser.
redis_crash :
    Dispatch.parse ascii (event_of 2 22 (text "$9223372036854775807\r\n")) (span_of [] 0 0)
    ≡ some panic
unfolding dispatch
redis_crash = refl

-- The reply's status is the span's error code.
http_reply :
    Dispatch.parse ascii (event_of 0 26 (text "HTTP/1.1 404 Not Found\r\n\r\n")) (span_of [] 0 0)
    ≡ some (
        ok (
          some (record Dispatch.no_info { raw = text "HTTP/1.1 404 Not Found\r\n\r\n" }),
          span_of [] 0 404,
        ))
unfolding dispatch
http_reply = refl
