-- ===== src/Envoy/Framing/Step.antt =====
-- pkg/protocol/envoy.go: one round of the loop of `ParseMultiple`.
use mathlib.Core.Option
use a.Prelude.{ℕ, suc, ◌+◌, ◌≤◌, ◌<◌, ◌≡◌, none, some, [], ◌∷◌, arith}
use a.Golang.Slice.{Slice, sub_slice, slice_from}
use a.Envoy.Message.{envoy_header_len, EnvoyHeader, EnvoyMessage}
use a.Envoy.Parser.{parse_header, parse_message, parse_multiple_from}
use a.Envoy.Header.{HasHeader}

module _ (payload : Slice) (pos : ℕ) (fuel : ℕ) where
  -- A header of a frame that the payload holds: the round appends a message and goes past it.
  pub round_message :
      (header : EnvoyHeader) (msg : EnvoyMessage)
      → parse_header (slice_from payload pos) ≡ some header
      → pos + (envoy_header_len + header.length) ≤ payload.len
      → parse_message (sub_slice payload pos (pos + (envoy_header_len + header.length))) ≡ some msg
      → parse_multiple_from (suc fuel) payload pos
        ≡ Option.map
            (◌∷◌ msg)
            (parse_multiple_from fuel payload (pos + (envoy_header_len + header.length)))
  unfolding parse_multiple_from
  round_message header msg e le m = ground arith

  -- Without a whole header left the loop ends.
  pub round_end :
      payload.len < pos + envoy_header_len → parse_multiple_from (suc fuel) payload pos ≡ some []
  unfolding parse_multiple_from
  round_end h = ground arith

  pub round_no_header :
      parse_header (slice_from payload pos) ≡ none
      → parse_multiple_from (suc fuel) payload pos ≡ some []
  unfolding parse_multiple_from
  round_no_header h = ground arith

  pub round_cut :
      (header : EnvoyHeader)
      → parse_header (slice_from payload pos) ≡ some header
      → payload.len < pos + (envoy_header_len + header.length)
      → parse_multiple_from (suc fuel) payload pos ≡ some []
  unfolding parse_multiple_from
  round_cut header e h = ground arith

-- The part that the loop cuts out has a header where the rest of the payload has one, so `Parse`
-- never fails there: the branch that skips one byte is dead.
pub cut-HasHeader :
    (payload : Slice) (pos size : ℕ)
    → HasHeader (slice_from payload pos)
    → envoy_header_len ≤ size
    → HasHeader (sub_slice payload pos (pos + size))
cut-HasHeader payload pos size h le = record {
  long = omega arith;
  magic = h.magic;
  short = h.short;
}
