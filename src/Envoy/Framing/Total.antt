-- ===== src/Envoy/Framing/Total.antt =====
-- pkg/protocol/envoy.go: `ParseMultiple` on any payload.
use a.Prelude.{
  ℕ, zero, suc, ◌+◌, ◌≤◌, ◌<◌, ◌≡◌, sym, ap, ◌∙◌, some, List, [], ◌∷◌, arith, ltb, length, drop,
  All, length-drop, length-take, Option-cases, Bool-cases, inl, inr, ltb→lt,
}
use a.Golang.Slice.{Slice, IsSlice, sub_slice, slice_from, shown}
use a.Envoy.Message.{envoy_header_len, EnvoyHeader, EnvoyMessage}
use a.Envoy.Parser.{
  parse_header, parse_message, build_message, parse_multiple_from, parse_multiple, read_header,
  body_slice,
}
use a.Envoy.Header.{
  HasHeader-of, parse_message-HasHeader, build_message-header, shown-build_message,
}
use a.Envoy.Framing.Step.{round_message, round_end, round_no_header, round_cut, cut-HasHeader}

-- The bytes that the messages' frames take up.
abbrev pub consumed : List EnvoyMessage → ℕ
consumed [] = 0
consumed (m ∷ ms) = envoy_header_len + m.header.length + consumed ms

-- A message whose payload is as long as its header says.
abbrev pub IsWhole : EnvoyMessage → Type 0
IsWhole m = length (shown m.payload) ≡ m.header.length

record Parsed (payload : Slice) (pos fuel : ℕ) : Type 0 where
  messages : List EnvoyMessage
  returned : parse_multiple_from fuel payload pos ≡ some messages
  fits : pos + consumed messages ≤ payload.len
  all_whole : All IsWhole messages

Parsed-nil :
    (payload : Slice) (pos fuel : ℕ)
    → pos ≤ payload.len
    → parse_multiple_from fuel payload pos ≡ some []
    → Parsed payload pos fuel
Parsed-nil payload pos fuel le e = record {
  messages = [];
  returned = e;
  fits = omega arith;
  all_whole = tt;
}

-- The message that `Parse` makes of a payload of exactly its size.
length-shown_body :
    (cut : Slice) (n : ℕ)
    → cut.len ≡ envoy_header_len + n
    → cut.len ≤ length cut.back
    → length (shown (body_slice cut n)) ≡ n
length-shown_body cut n e s =
    length-take _ (drop envoy_header_len cut.back)
    ∙ ground (arith, length-drop envoy_header_len cut.back)

IsWhole-build_message :
    (cut : Slice) (header : EnvoyHeader)
    → cut.len ≡ envoy_header_len + header.length
    → cut.len ≤ length cut.back
    → IsWhole (build_message cut header)
IsWhole-build_message cut header e s =
    ap length (sym (shown-build_message cut header (omega arith)))
    ∙ length-shown_body cut header.length e s
    ∙ ap (λ h. h.length) (sym (build_message-header cut header))

module _ (payload : Slice) (pos fuel : ℕ) (header : EnvoyHeader)
    (s : payload.len ≤ length payload.back)
    (e : parse_header (slice_from payload pos) ≡ some header)
    (fits : pos + (envoy_header_len + header.length) ≤ payload.len) where
  abbrev cut : Slice
  cut = sub_slice payload pos (pos + (envoy_header_len + header.length))

  size_is : header.length ≡ (read_header cut).length
  size_is = ap (λ h. h.length) (HasHeader-of (slice_from payload pos) e).1

  cut-IsWhole : IsWhole (build_message cut (read_header cut))
  cut-IsWhole =
      IsWhole-build_message cut (read_header cut) (omega (arith, size_is))
        (omega (arith, length-drop pos payload.back))

  parsed_cut : parse_message cut ≡ some (build_message cut (read_header cut))
  parsed_cut = parse_message-HasHeader cut (
      cut-HasHeader payload pos (envoy_header_len + header.length)
        (HasHeader-of (slice_from payload pos) e).0 (omega arith))

  Parsed-cons :
      Parsed payload (pos + (envoy_header_len + header.length)) fuel → Parsed payload pos (suc fuel)
  Parsed-cons p = record {
    messages = build_message cut (read_header cut) ∷ p.messages;
    returned = round_message payload pos fuel header _ e fits parsed_cut ∙ rw p.returned;
    fits =
        omega
          (arith, p.fits, size_is, ap (λ h. h.length) (build_message-header cut (read_header cut)));
    all_whole = (cut-IsWhole, p.all_whole);
  }

parse_from :
    (payload : Slice) (pos fuel : ℕ)
    → payload.len ≤ length payload.back
    → pos ≤ payload.len
    → payload.len < pos + fuel
    → Parsed payload pos fuel
parse_from payload pos zero s le enough = absurd (omega arith)
parse_from payload pos (suc fuel) s le enough =
    elim (Bool-cases (ltb payload.len (pos + envoy_header_len))) [
      | inl short ↦
          Parsed-nil payload pos (suc fuel) le (round_end payload pos fuel (ltb→lt _ _ short))
      | inr long ↦ elim (Option-cases (parse_header (slice_from payload pos))) [
        | inl e ↦ Parsed-nil payload pos (suc fuel) le (round_no_header payload pos fuel e)
        | inr (header, e) ↦
            let next = pos + (envoy_header_len + header.length) in
            elim (Bool-cases (ltb payload.len next)) [
              | inl past ↦
                  Parsed-nil payload pos (suc fuel) le
                    (round_cut payload pos fuel header e (ltb→lt _ _ past))
              | inr within ↦
                  let fits : next ≤ payload.len = ground arith in
                  Parsed-cons payload pos fuel header s e fits
                    (parse_from payload next fuel s fits (omega arith))
            ]
      ]
    ]

-- On every slice `ParseMultiple` returns: as many rounds as the payload has bytes are enough. The
-- frames of the messages together fit into the payload, and no message is cut: each holds as many
-- payload bytes as its header's length field says.
pub parse_multiple-IsWhole :
    (payload : Slice)
    → IsSlice payload
    → (msgs : List EnvoyMessage) × (parse_multiple payload ≡ some msgs)
      × (consumed msgs ≤ payload.len)
      × All IsWhole msgs
unfolding parse_multiple
parse_multiple-IsWhole payload s =
    let p = parse_from payload 0 (payload.len + 1) s.within (omega arith) (omega arith) in
    (p.messages, p.returned, omega (arith, p.fits), p.all_whole)
