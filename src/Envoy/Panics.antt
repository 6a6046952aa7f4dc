-- ===== src/Envoy/Panics.antt =====
-- pkg/protocol/envoy.go: where `CanHandle` panics. Its slices `payload[8:16]` and `payload[16:20]`
-- are guarded by `len(payload) > 12` alone, and Go checks them against the capacity.
use a.Prelude.{ℕ, ◌<◌, ◌≡◌, ◌↔◌, true, false, ◌&&◌, arith, leb, ◌==◌, length, Bool-cases, inl, inr}
use a.Golang.Result.{panics}
use a.Golang.Slice.{Slice, byte, be32}
use a.Envoy.Message.{envoy_magic}
use a.Envoy.Parser.{can_handle, is_known, known_ports}

-- The tests before the slices all leave the payload undecided.
abbrev pub IsUndecided : ℕ → Slice → Type 0
IsUndecided port payload =
    (is_known port known_ports ≡ false)
    × (12 < payload.len)
    × ((be32 payload 0 == envoy_magic && (leb (byte payload 4) 2 && leb (byte payload 5) 5))
        ≡ false)

can_handle_decides :
    (port : ℕ) (payload : Slice)
    → panics (can_handle port payload) ≡ true
    → IsUndecided port payload × (length payload.back < 20)
unfolding can_handle
can_handle_decides port payload h = ground arith

can_handle_slices :
    (port : ℕ) (payload : Slice)
    → IsUndecided port payload
    → length payload.back < 20
    → panics (can_handle port payload) ≡ true
unfolding can_handle
can_handle_slices port payload u h = ground arith

-- `CanHandle` panics exactly on a payload of 13 bytes or more, in a buffer of fewer than 20, whose
-- port is not known and which does not start as an ENVY header of a known version and type.
pub can_handle-panics :
    (port : ℕ) (payload : Slice)
    → (panics (can_handle port payload) ≡ true)
      ↔ (IsUndecided port payload × (length payload.back < 20))
can_handle-panics port payload =
    (can_handle_decides port payload, λ t. can_handle_slices port payload t.0 t.1)

-- It does not panic on the payload of an event, which is cut from a buffer of 1024 bytes.
pub can_handle_event :
    (port : ℕ) (payload : Slice)
    → length payload.back ≡ 1024
    → panics (can_handle port payload) ≡ false
can_handle_event port payload cap = elim (Bool-cases (panics (can_handle port payload))) [
  | inl bad ↦ absurd (omega (arith, (can_handle_decides port payload bad).1))
  | inr good ↦ good
]
