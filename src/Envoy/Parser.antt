-- ===== src/Envoy/Parser.antt =====
-- pkg/protocol/envoy.go: the methods of `EnvoyParser`.
use a.Prelude.{
  ℕ, zero, suc, ◌+◌, ◌-◌, ◌*◌, ◌/◌, ◌%◌, Bool, true, false, not, ◌&&◌, ◌||◌, Option, none, some,
  List, [], ◌∷◌, ◌++◌, ltb, leb, ◌==◌, if◌then◌else◌,
}
use mathlib.Core.Option
use a.Golang.Result.{Result, ok, ◌>>=◌}
use a.Golang.Slice.{Bytes, Slice, byte, sub_slice, slice?, slice_from, be32, be64}
use a.Golang.Text.{text, decimal, Unicode}
use a.Model.Span.{Span, TagValue, set_tag}
use a.Envoy.Message.{
  envoy_header_len, envoy_max_message_len, envoy_magic, type_data, type_handshake, type_ack,
  type_keepalive, type_reset, EnvoyHeader, EnvoyMessage,
}

abbrev pub known_ports : List ℕ
known_ports =
    15001 ∷ 15006 ∷ 15010 ∷ 15011 ∷ 15012 ∷ 15014 ∷ 15017 ∷ 15018 ∷ 15021 ∷ 15020 ∷ 15090 ∷ 15051
    ∷ []

unfoldable pub is_known : ℕ → List ℕ → Bool
is_known port [] = false
is_known port (p ∷ ps) = p == port || is_known port ps

-- The test of the first four bytes, one by one.
abbrev pub starts_with_envy : Slice → Bool
starts_with_envy s = byte s 0 == 0x45 && byte s 1 == 0x4E && byte s 2 == 0x56 && byte s 3 == 0x59

-- `CanHandle` slices `payload[8:16]` and `payload[16:20]` on 13 bytes and more.
unfoldable pub can_handle : ℕ → Slice → Result Bool
can_handle port payload =
    let first4 : Result Bool = ok (ltb 4 payload.len && starts_with_envy payload) in
    if is_known port known_ports
    then ok true
    else if ltb payload.len 8
    then ok false
    else if be32 payload 0 == envoy_magic && (leb (byte payload 4) 2 && leb (byte payload 5) 5)
    then ok true
    else if ltb 12 payload.len
    then (do
      stream ← slice? payload 8 16
      size ← slice? payload 16 20
      if ltb 0 (be64 stream 0) && (ltb 0 (be32 size 0) && ltb (be32 size 0) envoy_max_message_len)
          then ok true
          else first4)
    else first4

-- The header that `parseHeader` reads before its two checks.
abbrev pub read_header : Slice → EnvoyHeader
read_header payload = record {
  magic = be32 payload 0;
  version = byte payload 4;
  type = byte payload 5;
  flags = byte payload 6;
  stream_id = be64 payload 8;
  length = be32 payload 16;
  timestamp = be64 payload 20;
  checksum = if leb 32 payload.len then be32 payload 28 else 0;
}

-- `none` is an error. No caller reads the header that comes with one.
unfoldable pub parse_header : Slice → Option EnvoyHeader
parse_header payload =
    if ltb payload.len envoy_header_len
    then none
    else if not (be32 payload 0 == envoy_magic)
    then none
    else if ltb envoy_max_message_len (be32 payload 16)
    then none
    else some (read_header payload)

abbrev is_get : Slice → Bool
is_get p = byte p 0 == b'G' && (byte p 1 == b'E' && byte p 2 == b'T')

abbrev is_post : Slice → Bool
is_post p = byte p 0 == b'P' && (byte p 1 == b'O' && (byte p 2 == b'S' && byte p 3 == b'T'))

abbrev is_http : Slice → Bool
is_http p = byte p 0 == b'H' && (byte p 1 == b'T' && (byte p 2 == b'T' && byte p 3 == b'P'))

unfoldable pub detect_inner_protocol : Slice → Bytes
detect_inner_protocol p =
    if p.len == 0
    then []
    else if ltb 4 p.len && ((is_get p && byte p 3 == b' ') || (is_post p || is_http p))
    then text "http"
    else if ltb 5 p.len && (byte p 0 == 0x50 && (byte p 1 == 0x52 && byte p 2 == 0x49))
    then text "redis"
    else if ltb 8 p.len
        && ((be32 p 0 % 256 == 0 || be32 p 0 % 256 == 1)
            && (ltb 0 (be32 p 1) && ltb (be32 p 1) (1024 * 1024)))
    then text "grpc"
    else if ltb 2 p.len && ((byte p 0 == 1 || byte p 0 == 2) && (byte p 1 == 1 || byte p 1 == 2))
    then text "mysql"
    else text "unknown"

unfoldable pub is_request : EnvoyHeader → Slice → Bool
is_request header p =
    if not (header.flags / 2 % 2 == 0)
    then false
    else if ltb 4 p.len
        && (is_get p
            || (is_post p
                || ((byte p 0 == b'P' && (byte p 1 == b'U' && byte p 2 == b'T'))
                    || (byte p 0 == b'D' && (byte p 1 == b'E' && byte p 2 == b'L')))))
    then true
    else if ltb 4 p.len && is_http p
    then false
    else header.type == type_data

unfoldable pub message_type_string : ℕ → Bytes
message_type_string t =
    if t == type_data
    then text "DATA"
    else if t == type_handshake
    then text "HANDSHAKE"
    else if t == type_ack
    then text "ACK"
    else if t == type_keepalive
    then text "KEEPALIVE"
    else if t == type_reset
    then text "RESET"
    else text "UNKNOWN_" ++ decimal t

-- `payload[28 : 28+Length]`, cut at the end of the payload
abbrev pub body_slice : Slice → ℕ → Slice
body_slice payload size =
    sub_slice payload envoy_header_len
      (if ltb payload.len (envoy_header_len + size) then payload.len else envoy_header_len + size)

-- The message that `Parse` builds.
unfoldable pub build_message : Slice → EnvoyHeader → EnvoyMessage
unfolding detect_inner_protocol is_request
build_message payload header =
    let body : Slice =
      if ltb 0 header.length
      then body_slice payload header.length
      else record { back = []; len = 0 } in
    record {
      header = header;
      payload = body;
      protocol = detect_inner_protocol body;
      is_request = is_request header body;
      is_udp = not (header.flags % 2 == 0);
    }

-- `Parse` with a nil span.
unfoldable pub parse_message : Slice → Option EnvoyMessage
parse_message payload =
    if ltb payload.len envoy_header_len
    then none
    else Option.map (build_message payload) (parse_header payload)

-- What `Parse` writes to a span that is not nil.
module _ (u : Unicode) {F : Type 0} where
  unfoldable pub tag_span : EnvoyMessage → Span F → Span F
  unfolding set_tag message_type_string
  tag_span msg span =
      let h = msg.header in
      let kind = message_type_string h.type in
      let s1 = set_tag (text "envoy_stream_id") (TagValue.num h.stream_id) span in
      let s2 = set_tag (text "envoy_type") (TagValue.str kind) s1 in
      let s3 = set_tag (text "envoy_version") (TagValue.num h.version) s2 in
      let s4 = set_tag (text "envoy_udp") (TagValue.flag msg.is_udp) s3 in
      let s5 = set_tag (text "envoy_length") (TagValue.num h.length) s4 in
      let s6 = set_tag (text "envoy_flags") (TagValue.num h.flags) s5 in
      let s7 : Span F = elim msg.protocol [
        | [] ↦ s6
        | _ ∷ _ ↦ set_tag (text "inner_protocol") (TagValue.str msg.protocol) s6
      ] in
      record s7 {
        operation = text "ENVOY_" ++ (u.to_upper kind ++ (text "_" ++ u.to_upper msg.protocol));
        service_name = if msg.is_udp then s7.service_name ++ text "-sidecar" else s7.service_name;
      }

  -- `Parse`
  unfoldable pub parse : Slice → Span F → Option (EnvoyMessage × Span F)
  unfolding tag_span
  parse payload span = Option.map (λ msg. (msg, tag_span msg span)) (parse_message payload)

-- The loop of `ParseMultiple`; `none` means that the fuel ran out.
unfoldable pub parse_multiple_from : ℕ → Slice → ℕ → Option (List EnvoyMessage)
parse_multiple_from zero payload pos = none
parse_multiple_from (suc fuel) payload pos = elim (ltb pos payload.len) [
  | false ↦ some []
  | true ↦ elim (ltb (payload.len - pos) envoy_header_len) [
    | true ↦ some []
    | false ↦ elim (parse_header (slice_from payload pos)) [
      | none ↦ some []
      | some header ↦
          let size = envoy_header_len + header.length in
          elim (ltb payload.len (pos + size)) [
            | true ↦ some []
            | false ↦ elim (parse_message (sub_slice payload pos (pos + size))) [
              | some msg ↦ Option.map (◌∷◌ msg) (parse_multiple_from fuel payload (pos + size))
              | none ↦ parse_multiple_from fuel payload (pos + 1)
            ]
          ]
    ]
  ]
]

-- `ParseMultiple`
unfoldable pub parse_multiple : Slice → Option (List EnvoyMessage)
unfolding parse_multiple_from
parse_multiple payload = parse_multiple_from (payload.len + 1) payload 0

-- `ExtractInnerPayload`
unfoldable pub extract_inner_payload : Slice → Slice
extract_inner_payload payload =
    if ltb payload.len envoy_header_len then payload else elim (parse_header payload) [
      | some header ↦ body_slice payload header.length
      | none ↦ payload
    ]
