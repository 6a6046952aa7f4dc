-- ===== src/Correlator/Keys.antt =====
-- pkg/trace/correlator.go: the key of a connection, and the two kinds of payload.
use a.Prelude.{ℕ, ◌≡◌, refl, ◌⊎◌, inl, inr, true, false, [], ◌∷◌, arith}
use a.Golang.Slice.{Bytes}
use a.Golang.Text.{bytes_eq, bytes_lt}
use a.Golang.Text.Laws.{bytes_eq_iff}
use a.Model.Event.{RawTraceEvent}
use a.Correlator.Payload.{get_connection_key, is_request_payload, is_response_payload}

-- Of two strings one is less, or they are equal.
bytes_trichotomy :
    (xs ys : Bytes)
    → ((bytes_lt xs ys ≡ true) × (bytes_eq xs ys ≡ false) × (bytes_lt ys xs ≡ false))
      ⊎ (((bytes_lt xs ys ≡ false) × (xs ≡ ys) × (bytes_lt ys xs ≡ false))
          ⊎ ((bytes_lt xs ys ≡ false) × (bytes_eq xs ys ≡ false) × (bytes_lt ys xs ≡ true)))
unfolding bytes_lt bytes_eq
bytes_trichotomy [] [] = inr (inl (refl, refl, refl))
bytes_trichotomy [] (y ∷ ys) = inl (refl, refl, refl)
bytes_trichotomy (x ∷ xs) [] = inr (inr (refl, refl, refl))
bytes_trichotomy (x ∷ xs) (y ∷ ys) = ground (arith, bytes_trichotomy xs ys)

-- A connection has one key for both directions: the key of the endpoints and their ports, and the
-- key with source and destination exchanged, are the same.
get_connection_key_comm :
    (pid : ℕ) (src_ip dst_ip : Bytes) (src_port dst_port : ℕ)
    → get_connection_key pid src_ip dst_ip src_port dst_port
      ≡ get_connection_key pid dst_ip src_ip dst_port src_port
unfolding get_connection_key
get_connection_key_comm pid src_ip dst_ip src_port dst_port =
    ground (
      arith,
      bytes_trichotomy src_ip dst_ip,
      bytes_eq_iff src_ip dst_ip,
      bytes_eq_iff dst_ip src_ip,
    )

-- No payload is both a request and a response.
is_request_payload-exclusive :
    (e : RawTraceEvent) → is_request_payload e ≡ true → is_response_payload e ≡ false
unfolding is_request_payload is_response_payload
is_request_payload-exclusive e h = ground arith
