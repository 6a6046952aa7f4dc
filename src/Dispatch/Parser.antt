-- ===== src/Dispatch/Parser.antt =====
-- pkg/protocol/parser.go: `Parser.Parse`. The Redis parser's loop has fuel, so what a call returns
-- is `none` where that ran out.
use mathlib.Core.Option
use a.Prelude.{
  ℕ, ◌%◌, ◌^◌, Option, none, some, [], ◌++◌, ltb, leb, ◌==◌, if◌then◌else◌, length, take,
}
use a.Golang.Int.{bits64}
use a.Golang.Result.{Result, ok, err, panic, ◌>>=◌}
use a.Golang.Slice.{Bytes, Slice, shown, whole, slice?}
use a.Golang.Text.{text, bytes_eq, Unicode}
use a.Model.Event.{RawTraceEvent, protocol_of, http, grpc, redis, envoy, unknown_protocol}
use a.Model.Span.{Span}
use a.Envoy.Message.{EnvoyMessage}
use a.Envoy.Parser as EnvoyParser
use a.Http.Parser.{HttpRequest, HttpMessage, request, response}
use a.Http.Parser as HttpParser
use a.Grpc.Parser.{GrpcMessage}
use a.Grpc.Parser as GrpcParser
use a.Redis.Parser.{RedisCommand}
use a.Redis.Parser as RedisParser

pub record ProtocolInfo : Type 0 where
  pub http : Option HttpRequest
  pub grpc : Option GrpcMessage
  pub redis : Option RedisCommand
  pub envoy : Option EnvoyMessage
  pub raw : Bytes

abbrev pub no_info : ProtocolInfo
no_info = record { http = none; grpc = none; redis = none; envoy = none; raw = [] }

unfoldable pub truncate_string : Bytes → ℕ → Bytes
truncate_string s max = if leb (length s) max then s else take max s ++ text "..."

-- `port` of an event: the destination's, or else the source's.
abbrev pub port_of : RawTraceEvent → ℕ
port_of event = if event.d_port == 0 then event.s_port else event.d_port

-- The low 32 bits, which `int32(n)` keeps.
abbrev bits32 : ℕ → ℕ
bits32 n = n % 2 ^ 32

module _ {F : Type 0} where
  -- What the branch of each protocol does with what its parser returned.
  unfoldable pub keep_http : HttpMessage → ProtocolInfo → Span F → ProtocolInfo × Span F
  keep_http (request req) info span = (
    record info { http = some req },
    record span {
      path = if bytes_eq span.path [] then req.path else span.path;
      operation = req.method ++ (text " " ++ req.path);
    },
  )
  keep_http (response resp) info span =
      (info, record span { error_code = bits32 (bits64 resp.status_code) })

  unfoldable pub keep_grpc : GrpcMessage → ProtocolInfo → Span F → ProtocolInfo × Span F
  keep_grpc msg info span = (
    record info { grpc = some msg },
    record span {
      operation = msg.service_name ++ (text "/" ++ msg.method_name);
      error_code = bits32 msg.status_code;
    },
  )

  unfoldable pub keep_redis : RedisCommand → ProtocolInfo → Span F → ProtocolInfo × Span F
  keep_redis cmd info span = (
    record info { redis = some cmd },
    record span { operation = cmd.command ++ (text " " ++ cmd.key) },
  )

  -- The end of `Parse`.
  abbrev pub finish : Bytes → ProtocolInfo × Span F → Option ProtocolInfo × Span F
  finish payload (info, span) = (some (record info { raw = truncate_string payload 512 }), span)

module _ (u : Unicode) {F : Type 0} where
  -- The envelope: the payload inside of it if it has one, its message, and the span.
  unfoldable pub unwrap : ℕ → Slice → Span F → Result (Slice × Option EnvoyMessage × Span F)
  unwrap port payload span = do
    known ← EnvoyParser.can_handle port payload
    if known
        then elim (EnvoyParser.parse u payload span) [
          | none ↦ ok (payload, none, span)
          | some (msg, span') ↦
              let inner = EnvoyParser.extract_inner_payload payload in
              ok (if ltb 0 inner.len then inner else payload, some msg, span')
        ]
        else ok (payload, none, span)

  unfoldable pub http_branch : Bytes → ProtocolInfo → Span F → ProtocolInfo × Span F
  http_branch payload info span =
      if HttpParser.can_handle payload
      then elim (HttpParser.parse u payload span) [
        | none ↦ (info, span)
        | some (msg, span') ↦ keep_http msg info span'
      ]
      else (info, span)

  unfoldable pub grpc_branch : Bytes → ProtocolInfo → Span F → Result (ProtocolInfo × Span F)
  grpc_branch payload info span =
      if GrpcParser.can_handle payload
      then elim (GrpcParser.parse u payload span) [
        | ok (msg, span') ↦ ok (keep_grpc msg info span')
        | err ↦ ok (info, span)
        | panic ↦ panic
      ]
      else ok (info, span)

  unfoldable pub redis_branch :
      Bytes → ProtocolInfo → Span F → Option (Result (ProtocolInfo × Span F))
  redis_branch payload info span =
      if RedisParser.can_handle payload
      then elim (RedisParser.parse u payload span) [
        | none ↦ none
        | some result ↦ elim result [
          | ok (cmd, span') ↦ some (ok (keep_redis cmd info span'))
          | err ↦ some (ok (info, span))
          | panic ↦ some panic
        ]
      ]
      else some (ok (info, span))

  -- The `switch` on the protocol.
  unfoldable pub branch :
      ℕ → Bytes → ProtocolInfo → Span F → Option (Result (ProtocolInfo × Span F))
  branch protocol payload info span = elim (protocol_of protocol) [
    | http ↦ some (ok (http_branch payload info span))
    | grpc ↦ some (grpc_branch payload info span)
    | redis ↦ redis_branch payload info span
    | envoy ↦ some (ok (info, span))
    | unknown_protocol ↦ some (ok (info, span))
  ]

  unfoldable pub parse_payload :
      ℕ → ℕ → Slice → Span F → Option (Result (Option ProtocolInfo × Span F))
  parse_payload protocol port payload span = elim (unwrap port payload span) [
    | ok (inner, msg, span') ↦
        Option.map (λ r. r >>= (λ kept. ok (finish (shown inner) kept)))
          (branch protocol (shown inner) (record no_info { envoy = msg }) span')
    | err ↦ some err
    | panic ↦ some panic
  ]

  -- `Parse`
  unfoldable pub parse : RawTraceEvent → Span F → Option (Result (Option ProtocolInfo × Span F))
  parse event span =
      if event.payload_size == 0
      then some (ok (none, span))
      else elim (slice? (whole event.payload) 0 event.payload_size) [
        | ok payload ↦ parse_payload event.protocol (port_of event) payload span
        | err ↦ some err
        | panic ↦ some panic
      ]
