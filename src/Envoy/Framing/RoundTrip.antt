-- ===== src/Envoy/Framing/RoundTrip.antt =====
-- pkg/protocol/envoy.go: `ParseMultiple` on a stream of frames.
use mathlib.Core.Option
use a.Prelude.{
  ℕ, zero, suc, ◌+◌, ◌-◌, ◌≤◌, ◌<◌, ◌≡◌, refl, sym, ap, ◌∙◌, some, List, [], ◌∷◌, map, arith,
  length, drop, All, length-append, take-append, drop-append, drop-drop,
}
use a.Golang.Slice.{Bytes, Slice, whole, sub_slice, slice_from, shown}
use a.Envoy.Message.{EnvoyHeader, EnvoyMessage}
use a.Envoy.Parser.{
  parse_header, read_header, parse_message, build_message, parse_multiple_from, parse_multiple,
}
use a.Envoy.Header.{
  HasHeader, parse_header-HasHeader, parse_message-HasHeader, build_message-header,
  shown-build_message,
}
use a.Envoy.Framing.Frame.{
  Frame, IsFrame, encode_onto, encode_all, header_of, view, frame_view, framed, be32-framed-length,
  read_header-framed,
}
use a.Envoy.Framing.Step.{round_message, round_end}

-- A payload that begins with a whole frame has a header.
framed-HasHeader :
    (f : Frame) (rest : Bytes) (n : ℕ)
    → IsFrame f
    → 28 + length f.body ≤ n
    → HasHeader (framed f rest n)
framed-HasHeader f rest n h le = record {
  long = omega arith;
  magic = refl;
  short = rw (be32-framed-length f rest n h) h.body_range;
}

module _ (f : Frame) (rest : Bytes) (h : IsFrame f) where
  -- The message that `Parse` makes of the frame.
  message_of : EnvoyMessage
  message_of = build_message (framed f rest (28 + length f.body)) (header_of f)

  parse_message-framed : parse_message (framed f rest (28 + length f.body)) ≡ some message_of
  unfolding message_of
  parse_message-framed =
      parse_message-HasHeader _ (framed-HasHeader f rest _ h (omega arith))
      ∙ ap (λ x. some (build_message (framed f rest (28 + length f.body)) x))
          (read_header-framed f rest h)

  shown-message_of : shown message_of.payload ≡ f.body
  unfolding message_of
  shown-message_of =
      sym (shown-build_message (framed f rest (28 + length f.body)) (header_of f) (omega arith))
      ∙ take-append f.body rest _ (ground arith)

  header-message_of : message_of.header ≡ header_of f
  unfolding message_of
  header-message_of = build_message-header (framed f rest (28 + length f.body)) (header_of f)

  view-message_of : view message_of ≡ frame_view f
  view-message_of = λ i. (header-message_of i, shown-message_of i)

  -- One round of the loop over the frame.
  module _ (payload : Slice) (pos : ℕ) (e : drop pos payload.back ≡ encode_onto f rest) where
    sub_slice-framed :
        sub_slice payload pos (pos + (28 + length f.body)) ≡ framed f rest (28 + length f.body)
    sub_slice-framed = λ i. record {
      back = e i;
      len = (let p : pos + (28 + length f.body) - pos ≡ 28 + length f.body = omega arith in p) i;
    }

    parse_header-here :
        pos + (28 + length f.body) ≤ payload.len
        → (header : EnvoyHeader) × (parse_header (slice_from payload pos) ≡ some header)
          × (header.length ≡ length f.body)
    parse_header-here le = rw e (
      read_header (framed f rest (payload.len - pos)),
      parse_header-HasHeader _ (framed-HasHeader f rest _ h (omega arith)),
      be32-framed-length f rest (payload.len - pos) h,
    )

    round_frame :
        (fuel : ℕ)
        → pos + (28 + length f.body) ≤ payload.len
        → parse_multiple_from (suc fuel) payload pos
          ≡ Option.map
              (◌∷◌ message_of)
              (parse_multiple_from fuel payload (pos + (28 + length f.body)))
    round_frame fuel le =
        let (header, read, size) = parse_header-here le in
        rw (← size) (
          round_message payload pos fuel header message_of read (omega arith)
            (rw size (rw sub_slice-framed parse_message-framed)))

drop-encode_onto :
    (f : Frame) (rest : Bytes) → drop (28 + length f.body) (encode_onto f rest) ≡ rest
drop-encode_onto f rest =
    sym (drop-drop 28 (length f.body) (encode_onto f rest))
    ∙ drop-append f.body rest (length f.body) refl

-- Fewer bytes than a header behind the last frame end the loop.
parse_stream :
    (fs : List Frame) (tail : Bytes) (payload : Slice) (pos fuel : ℕ)
    → All IsFrame fs
    → length tail < 28
    → drop pos payload.back ≡ encode_all fs tail
    → payload.len ≡ pos + length (encode_all fs tail)
    → payload.len < pos + fuel
    → (msgs : List EnvoyMessage) × (parse_multiple_from fuel payload pos ≡ some msgs)
      × (map view msgs ≡ map frame_view fs)
parse_stream fs tail payload pos zero h t e n enough = absurd (omega arith)
parse_stream [] tail payload pos (suc fuel) h t e n enough =
    ([], round_end payload pos fuel (omega arith), refl)
parse_stream (f ∷ fs) tail payload pos (suc fuel) h t e n enough =
    let rest = encode_all fs tail in
    let long = length-append f.body rest in
    let next = pos + (28 + length f.body) in
    let e' : drop next payload.back ≡ rest =
      sym (drop-drop pos (28 + length f.body) payload.back) ∙ rw e (drop-encode_onto f rest) in
    let (msgs, parsed, viewed) =
      parse_stream fs tail payload next fuel h.1 t e' (omega (arith, long)) (omega arith) in
    (
      message_of f rest h.0 ∷ msgs,
      round_frame f rest h.0 payload pos e fuel (omega (arith, long)) ∙ rw parsed,
      λ i. view-message_of f rest h.0 i ∷ viewed i,
    )

-- `ParseMultiple` on any sequence of frames, with fewer than 28 bytes behind the last, returns one
-- message for each frame, in order, with the frame's header fields and the whole of its body.
pub parse_multiple-encode_all :
    (fs : List Frame) (tail : Bytes)
    → All IsFrame fs
    → length tail < 28
    → (msgs : List EnvoyMessage) × (parse_multiple (whole (encode_all fs tail)) ≡ some msgs)
      × (map view msgs ≡ map frame_view fs)
unfolding parse_multiple
parse_multiple-encode_all fs tail h t =
    parse_stream fs tail (whole (encode_all fs tail)) 0 _ h t refl (omega arith) (omega arith)
