-- ===== src/Tests/Envoy.antt =====
-- Tests of the Envoy framing.
use a.Prelude.{
  ◌≤◌, ◌<◌, ◌≡◌, refl, ◌↔◌, ◌⊎◌, true, none, some, List, [], ◌∷◌, map, arith, length, All,
}
use a.Golang.Result.{panics}
use a.Golang.Slice.{Bytes, Slice, whole, shown}
use a.Golang.Text.{text}
use a.Envoy.Message.{EnvoyMessage}
use a.Envoy.Parser.{
  can_handle, is_known, parse_message, parse_multiple, extract_inner_payload, detect_inner_protocol,
}
use a.Envoy.Header.{extract_inner_payload_lem}
use a.Envoy.Panics.{IsUndecided, can_handle-panics}
use a.Envoy.Framing.Frame.{Frame, encode_all, view, frame_view}
use a.Envoy.Framing.RoundTrip.{parse_multiple-encode_all}
use a.Envoy.Framing.Total.{consumed, IsWhole, parse_multiple-IsWhole}

abbrev hello : Frame
hello = record {
  version = 1;
  type = 1;
  flags = 1;
  reserved = 0;
  stream_id = 7;
  timestamp = 99;
  body = text "GET / HTTP/1.1";
}

abbrev bye : Frame
bye = record hello { type = 5; body = [] }

abbrev stream : Bytes
stream = encode_all (hello ∷ bye ∷ []) (text "tail")

-- A buffer of 14 bytes: neither a known port nor an ENVY header, and too short for the slices.
abbrev short : Slice
short = whole (text "GET /a HTTP/1.")

short_panics : panics (can_handle 80 short) ≡ true
unfolding can_handle is_known
short_panics = refl

protocol_of_hello : detect_inner_protocol (whole hello.body) ≡ text "http"
unfolding detect_inner_protocol
protocol_of_hello = refl

extract_inner_payload_example :
    ((msg : EnvoyMessage) × (parse_message (whole stream) ≡ some msg)
      × (shown (extract_inner_payload (whole stream)) ≡ shown msg.payload))
    ⊎ ((parse_message (whole stream) ≡ none)
        × (extract_inner_payload (whole stream) ≡ whole stream))
extract_inner_payload_example = extract_inner_payload_lem (whole stream)

can_handle-panics_example :
    (panics (can_handle 80 short) ≡ true) ↔ (IsUndecided 80 short × (length short.back < 20))
can_handle-panics_example = can_handle-panics 80 short

parse_multiple-encode_all_example :
    (msgs : List EnvoyMessage) × (parse_multiple (whole stream) ≡ some msgs)
    × (map view msgs ≡ map frame_view (hello ∷ bye ∷ []))
parse_multiple-encode_all_example =
    parse_multiple-encode_all (hello ∷ bye ∷ []) (text "tail") (omega arith) (omega arith)

parse_multiple-IsWhole_example :
    (msgs : List EnvoyMessage) × (parse_multiple (whole stream) ≡ some msgs)
    × (consumed msgs ≤ (whole stream).len)
    × All IsWhole msgs
parse_multiple-IsWhole_example =
    parse_multiple-IsWhole (whole stream) (record { within = omega arith; bytes = omega arith })
