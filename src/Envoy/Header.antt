-- ===== src/Envoy/Header.antt =====
-- pkg/protocol/envoy.go: which payloads `parseHeader`, `Parse` and `ExtractInnerPayload` accept,
-- and what they read.
use a.Prelude.{
  ℕ, ◌≤◌, ◌≡◌, refl, ◌⊎◌, inl, inr, none, some, arith, Bool-cases, Option-cases, List, [], ltb,
  take,
}
use a.Golang.Slice.{Slice, shown, be32}
use a.Envoy.Message.{
  envoy_header_len, envoy_max_message_len, envoy_magic, EnvoyHeader, EnvoyMessage,
}
use a.Envoy.Parser.{
  parse_header, read_header, parse_message, build_message, body_slice, extract_inner_payload,
}

-- The payloads that carry a header.
pub record HasHeader (payload : Slice) : Type 0 where
  pub long : envoy_header_len ≤ payload.len
  pub magic : be32 payload 0 ≡ envoy_magic
  pub short : be32 payload 16 ≤ envoy_max_message_len

pub parse_header-HasHeader :
    (payload : Slice) → HasHeader payload → parse_header payload ≡ some (read_header payload)
unfolding parse_header
parse_header-HasHeader payload h = ground arith

pub HasHeader-of :
    (payload : Slice) {header : EnvoyHeader}
    → parse_header payload ≡ some header
    → HasHeader payload × (header ≡ read_header payload)
unfolding parse_header
HasHeader-of payload e = ground arith

pub parse_message-HasHeader :
    (payload : Slice)
    → HasHeader payload
    → parse_message payload ≡ some (build_message payload (read_header payload))
unfolding parse_message
parse_message-HasHeader payload h = ground (arith, parse_header-HasHeader payload h)

pub build_message-header :
    (payload : Slice) (header : EnvoyHeader) → (build_message payload header).header ≡ header
unfolding build_message
build_message-header payload header = refl

pub parse_message_inv :
    (payload : Slice) {msg : EnvoyMessage}
    → parse_message payload ≡ some msg
    → (header : EnvoyHeader) × (parse_header payload ≡ some header)
      × (msg ≡ build_message payload header)
unfolding parse_message
parse_message_inv payload e = ground arith

take_zero : {A : Type 0} (n : ℕ) (xs : List A) → n ≡ 0 → take n xs ≡ []
take_zero n xs e = rw e

pub shown-build_message :
    (payload : Slice) (header : EnvoyHeader)
    → envoy_header_len ≤ payload.len
    → shown (body_slice payload header.length) ≡ shown (build_message payload header).payload
unfolding build_message
shown-build_message payload header h = elim (Bool-cases (ltb 0 header.length)) [
  | inl full ↦ rw full
  | inr empty ↦ rw empty (take_zero _ _ (ground arith))
]

module _ (payload : Slice) where
  parse_message-none : parse_header payload ≡ none → parse_message payload ≡ none
  unfolding parse_message
  parse_message-none e = ground arith

  pub parse_message-some :
      (header : EnvoyHeader)
      → parse_header payload ≡ some header
      → parse_message payload ≡ some (build_message payload header)
  unfolding parse_message
  parse_message-some header e = ground (arith, HasHeader-of payload e)

  extract_none : parse_header payload ≡ none → extract_inner_payload payload ≡ payload
  unfolding extract_inner_payload
  extract_none e = ground arith

  extract_some :
      (header : EnvoyHeader)
      → parse_header payload ≡ some header
      → extract_inner_payload payload ≡ body_slice payload header.length
  unfolding extract_inner_payload
  extract_some header e = ground (arith, HasHeader-of payload e)

-- For every payload that `Parse` accepts, `ExtractInnerPayload` shows the bytes of the message's
-- payload; for every other payload it returns its argument.
pub extract_inner_payload_lem :
    (payload : Slice)
    → ((msg : EnvoyMessage) × (parse_message payload ≡ some msg)
        × (shown (extract_inner_payload payload) ≡ shown msg.payload))
      ⊎ ((parse_message payload ≡ none) × (extract_inner_payload payload ≡ payload))
extract_inner_payload_lem payload = elim (Option-cases (parse_header payload)) [
  | inl e ↦ inr (parse_message-none payload e, extract_none payload e)
  | inr (header, e) ↦ inl (
    build_message payload header,
    parse_message-some payload header e,
    rw (extract_some payload header e)
        (shown-build_message payload header (HasHeader-of payload e).0.long),
  )
]
