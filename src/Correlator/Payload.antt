-- ===== src/Correlator/Payload.antt =====
-- pkg/trace/correlator.go: what a payload is, the key of a connection, the identifier of a trace.
use a.Prelude.{ℕ, ◌-◌, Bool, false, ◌&&◌, ◌||◌, ◌++◌, ltb, ◌==◌, get_or, if◌then◌else◌}
use a.Golang.Slice.{Bytes}
use a.Golang.Text.{text, bytes_eq, bytes_lt, decimal}
use a.Model.Convert.{unix_epoch}
use a.Model.Event.{RawTraceEvent}
use a.Model.Span.{Span}

-- The byte of the event's buffer at an offset below 4.
abbrev pub byte_at : RawTraceEvent → ℕ → ℕ
byte_at event i = get_or event.payload i 0

abbrev is_redis : RawTraceEvent → Bool
is_redis event = event.protocol == 2

abbrev is_grpc : RawTraceEvent → Bool
is_grpc event = event.protocol == 1

-- `isRequestPayload`
unfoldable pub is_request_payload : RawTraceEvent → Bool
is_request_payload e =
    if ltb e.payload_size 4
    then false
    else (byte_at e 0 == b'G' && (byte_at e 1 == b'E' && byte_at e 2 == b'T'))
      || ((byte_at e 0 == b'P'
            && (byte_at e 1 == b'O' && (byte_at e 2 == b'S' && byte_at e 3 == b'T')))
          || ((byte_at e 0 == b'P' && (byte_at e 1 == b'U' && byte_at e 2 == b'T'))
              || ((byte_at e 0 == b'D'
                    && (byte_at e 1 == b'E' && (byte_at e 2 == b'L' && byte_at e 3 == b'E')))
                  || ((is_redis e && byte_at e 0 == b'*') || (is_grpc e && byte_at e 0 == 0)))))

-- `isResponsePayload`
unfoldable pub is_response_payload : RawTraceEvent → Bool
is_response_payload e =
    if ltb e.payload_size 4
    then false
    else (byte_at e 0 == b'H'
        && (byte_at e 1 == b'T' && (byte_at e 2 == b'T' && byte_at e 3 == b'P')))
      || ((is_redis e
            && (byte_at e 0 == b'+'
                || (byte_at e 0 == b'-' || (byte_at e 0 == b':' || byte_at e 0 == b'$'))))
          || (is_grpc e && byte_at e 0 == 1))

-- `fmt.Sprintf("%d:%s:%d:%s:%d", pid, ip, port, ip, port)`
unfoldable pub format_key : ℕ → Bytes → ℕ → Bytes → ℕ → Bytes
format_key pid ip1 port1 ip2 port2 =
    let colon = text ":" in
    decimal pid
    ++ (colon
        ++ (ip1 ++ (colon ++ (decimal port1 ++ (colon ++ (ip2 ++ (colon ++ decimal port2)))))))

-- `getConnectionKey`
unfoldable pub get_connection_key : ℕ → Bytes → Bytes → ℕ → ℕ → Bytes
get_connection_key pid src_ip dst_ip src_port dst_port =
    if bytes_lt dst_ip src_ip || (bytes_eq src_ip dst_ip && ltb dst_port src_port)
    then format_key pid dst_ip dst_port src_ip src_port
    else format_key pid src_ip src_port dst_ip dst_port

-- `%d` of `UnixNano`, for an instant that int64 nanoseconds reach.
abbrev signed_nano : ℕ → Bytes
signed_nano t =
    if ltb t unix_epoch then text "-" ++ decimal (unix_epoch - t) else decimal (t - unix_epoch)

-- The text that `generateDeterministicTraceID` hashes.
unfoldable pub trace_id_text : {F : Type 0} → Span F → Bytes
trace_id_text span =
    let colon = text ":" in
    format_key span.pid span.source_ip span.source_port span.dest_ip span.dest_port
    ++ (colon ++ (signed_nano span.start_time ++ (colon ++ span.comm)))
