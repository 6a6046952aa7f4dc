-- ===== src/Envoy/Message.antt =====
-- pkg/protocol/envoy.go: the types and constants of the framing.
use a.Prelude.{ℕ, ◌*◌, Bool}
use a.Golang.Slice.{Bytes, Slice}

abbrev pub envoy_header_len : ℕ
envoy_header_len = 28

abbrev pub envoy_max_message_len : ℕ
envoy_max_message_len = 1024 * 1024 * 16

-- "ENVY"
abbrev pub envoy_magic : ℕ
envoy_magic = 0x454E5659

-- `EnvoyMessageType`, a uint8, and its constants
abbrev pub type_data : ℕ
type_data = 1

abbrev pub type_handshake : ℕ
type_handshake = 2

abbrev pub type_ack : ℕ
type_ack = 3

abbrev pub type_keepalive : ℕ
type_keepalive = 4

abbrev pub type_reset : ℕ
type_reset = 5

pub record EnvoyHeader : Type 0 where
  pub magic : ℕ
  pub version : ℕ
  pub type : ℕ
  pub flags : ℕ
  pub stream_id : ℕ
  pub length : ℕ
  pub timestamp : ℕ
  pub checksum : ℕ

pub record EnvoyMessage : Type 0 where
  pub header : EnvoyHeader
  pub payload : Slice
  pub protocol : Bytes
  pub is_request : Bool
  pub is_udp : Bool
