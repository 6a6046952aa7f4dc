-- ===== src/Dispatch/Panics.antt =====
-- pkg/protocol/parser.go: how `Parser.Parse` ends. The payload of an event is an array of 1024
-- bytes, and `PayloadSize` comes from the kernel with the event.
use mathlib.Core.Option
use a.Prelude.{
  ℕ, ◌^◌, ◌≤◌, ◌<◌, ◌≢◌, ◌≡◌, refl, ◌∙◌, arith, Bool, true, false, Option, none, some, ltb, leb,
  ◌==◌, if◌then◌else◌, length, drop, length-take, length-drop, Bool-cases, Option-cases, inl, inr,
}
use a.Golang.Result.{Result, ok, err, panic, ◌>>=◌, panics, Result-cases}
use a.Golang.Slice.{Bytes, Slice, shown, whole, sub_slice}
use a.Golang.Text.{Unicode}
use a.Model.Event.{RawTraceEvent, protocol_of, redis}
use a.Model.Span.{Span}
use a.Envoy.Message.{EnvoyMessage}
use a.Envoy.Parser as EnvoyParser
use a.Envoy.Panics.{can_handle_event}
use a.Grpc.Parser as GrpcParser
use a.Grpc.Names.{header_block-panics}
use a.Dispatch.Parser.{
  ProtocolInfo, unwrap, grpc_branch, branch, finish, no_info, parse_payload, parse, port_of,
}

-- How a call ends.
pub data Ending : Type 0 where
  returns fails crashes unfinished : Ending

abbrev pub ending {ℓ} : {A : Type ℓ} → Option (Result A) → Ending
ending none = unfinished
ending (some (ok x)) = returns
ending (some err) = fails
ending (some panic) = crashes

extract-le : (payload : Slice) → (EnvoyParser.extract_inner_payload payload).len ≤ payload.len
unfolding EnvoyParser.extract_inner_payload
extract-le payload = ground arith

can_handle-ne-err : (port : ℕ) (payload : Slice) → EnvoyParser.can_handle port payload ≢ err
unfolding EnvoyParser.can_handle
can_handle-ne-err port payload h = ground arith

-- The payload of an event is found out to be an envelope or not.
can_handle_ok :
    (port : ℕ) (payload : Slice)
    → length payload.back ≡ 1024
    → (known : Bool) × (EnvoyParser.can_handle port payload ≡ ok known)
can_handle_ok port payload wide =
    let safe = can_handle_event port payload wide in
    elim (Result-cases (EnvoyParser.can_handle port payload)) [
      | inl (known, e) ↦ (known, e)
      | inr failed ↦ elim failed [
        | inl e ↦ absurd (can_handle-ne-err port payload e)
        | inr e ↦ absurd (cc)
      ]
    ]

ending-map {ℓ κ} :
    {A : Type ℓ} {B : Type κ} (o : Option (Result A)) (f : A → B)
    → ending (Option.map (λ r. r >>= (λ x. ok (f x))) o) ≡ ending o
ending-map none f = refl
ending-map (some (ok x)) f = refl
ending-map (some err) f = refl
ending-map (some panic) f = refl

module _ (u : Unicode) {F : Type 0} where
  -- An envelope is taken off, and what is inside is not longer.
  unwrap_ok :
      (port : ℕ) (payload : Slice) (span : Span F)
      → length payload.back ≡ 1024
      → (t : Slice × Option EnvoyMessage × Span F) × (unwrap u port payload span ≡ ok t)
        × (t.0.len ≤ payload.len)
  unfolding unwrap
  unwrap_ok port payload span wide =
      let (known, e) = can_handle_ok port payload wide in
      elim (Bool-cases known) [
        | inr no_envelope ↦ ((payload, none, span), rw (e, no_envelope) refl, omega arith)
        | inl envelope ↦ elim (Option-cases (EnvoyParser.parse u payload span)) [
          | inl f ↦ ((payload, none, span), rw e (rw envelope (rw f refl)), omega arith)
          | inr ((msg, span'), f) ↦ (
            (
              if ltb 0 (EnvoyParser.extract_inner_payload payload).len
                  then EnvoyParser.extract_inner_payload payload
                  else payload,
              some msg,
              span',
            ),
            rw e (rw envelope (rw f refl)),
            ground (arith, extract-le payload),
          )
        ]
      ]

  grpc_parse-panics :
      (payload : Bytes) (span : Span F)
      → length payload < 2 ^ 32
      → panics (GrpcParser.parse u payload span) ≡ false
  unfolding GrpcParser.parse
  grpc_parse-panics payload span h =
      let short : panics (GrpcParser.header_block (drop 5 payload)) ≡ false =
        header_block-panics (drop 5 payload) (omega (arith, length-drop 5 payload)) in
      ground (arith, short)

  grpc_branch-returns :
      (payload : Bytes) (info : ProtocolInfo) (span : Span F)
      → length payload < 2 ^ 32
      → ending (some (grpc_branch u payload info span)) ≡ returns
  unfolding grpc_branch
  grpc_branch-returns payload info span h =
      let parsed = grpc_parse-panics payload span h in ground (arith, parsed)

  branch-returns :
      (protocol : ℕ) (payload : Bytes) (info : ProtocolInfo) (span : Span F)
      → length payload < 2 ^ 32
      → protocol_of protocol ≢ redis
      → ending (branch u protocol payload info span) ≡ returns
  unfolding branch
  branch-returns protocol payload info span h k =
      ground (arith, grpc_branch-returns payload info span h)

  parse_payload-returns :
      (protocol port : ℕ) (payload : Slice) (span : Span F)
      → length payload.back ≡ 1024
      → payload.len ≤ 1024
      → protocol_of protocol ≢ redis
      → ending (parse_payload u protocol port payload span) ≡ returns
  unfolding parse_payload
  parse_payload-returns protocol port payload span wide small k =
      let ((inner, msg, span'), e, le) = unwrap_ok port payload span wide in
      let short : length (shown inner) < 2 ^ 32 = omega (arith, length-take inner.len inner.back) in
      let returned =
        branch-returns protocol (shown inner) (record no_info { envoy = msg }) span' short k in
      rw (e, parse_payload, ending)
        (ending-map (branch u protocol (shown inner) (record no_info { envoy = msg }) span')
            (finish (shown inner))
          ∙ returned)

  -- Where the array has its 1024 bytes and the protocol is not Redis, `Parse` panics on an event of
  -- more than 1024 bytes, and returns on any other.
  pub parse-ending :
      (event : RawTraceEvent) (span : Span F)
      → length event.payload ≡ 1024
      → protocol_of event.protocol ≢ redis
      → ending (parse u event span) ≡ (if leb event.payload_size 1024 then returns else crashes)
  unfolding parse
  parse-ending event span wide k =
      let low : leb 0 event.payload_size ≡ true = ground arith in
      elim (Bool-cases (event.payload_size == 0)) [
        | inl empty ↦
            let small : leb event.payload_size 1024 ≡ true = ground arith in
            rw (empty, parse) (rw small refl)
        | inr more ↦ elim (Bool-cases (leb event.payload_size 1024)) [
          | inl fits ↦
              let inside : leb event.payload_size (length event.payload) ≡ true = ground arith in
              rw more (
                rw low (
                  rw inside (
                    rw fits (
                      parse_payload-returns event.protocol (port_of event)
                        (sub_slice (whole event.payload) 0 event.payload_size) span wide
                        (ground arith) k))))
          | inr past ↦
              let outside : leb event.payload_size (length event.payload) ≡ false = ground arith in
              rw more (rw low (rw outside (rw past refl)))
        ]
      ]
