-- ===== src/Envoy/Framing/Frame.antt =====
-- The wire format that pkg/protocol/envoy.go reads, written down as an encoder: 28 bytes of header,
-- the body behind them. The code has no writer.
use a.Prelude.{
  ℕ, zero, suc, ◌+◌, ◌*◌, ◌/◌, ◌%◌, ◌^◌, ◌≤◌, ◌<◌, ◌≡◌, refl, List, [], ◌∷◌, ◌++◌, arith, length,
  if◌then◌else◌, leb, get_or,
}
use a.Golang.Slice.{Bytes, Slice, whole, be32, shown}
use a.Envoy.Message.{envoy_magic, envoy_max_message_len, EnvoyHeader, EnvoyMessage}
use a.Envoy.Parser.{read_header}

pub record Frame : Type 0 where
  pub version : ℕ
  pub type : ℕ
  pub flags : ℕ
  pub reserved : ℕ
  pub stream_id : ℕ
  pub timestamp : ℕ
  pub body : Bytes

pub record IsFrame (f : Frame) : Type 0 where
  pub stream_range : f.stream_id < 2 ^ 64
  pub time_range : f.timestamp < 2 ^ 64
  pub body_range : length f.body ≤ envoy_max_message_len

-- The bytes of a number below 2^32 and of one below 2^64, the highest first.
abbrev bytes32 : ℕ → Bytes → Bytes
bytes32 n rest = (n / 2 ^ 24 % 256) ∷ (n / 2 ^ 16 % 256) ∷ (n / 2 ^ 8 % 256) ∷ (n % 256) ∷ rest

abbrev bytes64 : ℕ → Bytes → Bytes
bytes64 n rest = bytes32 (n / 2 ^ 32) (bytes32 n rest)

-- The frame's bytes, with what follows them.
abbrev pub encode_onto : Frame → Bytes → Bytes
encode_onto f rest = bytes32 envoy_magic (
    f.version
    ∷ f.type
    ∷ f.flags
    ∷ f.reserved
    ∷ bytes64 f.stream_id (bytes32 (length f.body) (bytes64 f.timestamp (f.body ++ rest))))

abbrev pub encode_all : List Frame → Bytes → Bytes
encode_all [] tail = tail
encode_all (f ∷ fs) tail = encode_onto f (encode_all fs tail)

-- The header that a reader is to see. The checksum field stands at offset 28, where the body
-- begins: it holds the body's first four bytes.
abbrev pub header_of : Frame → EnvoyHeader
header_of f = record {
  magic = envoy_magic;
  version = f.version;
  type = f.type;
  flags = f.flags;
  stream_id = f.stream_id;
  length = length f.body;
  timestamp = f.timestamp;
  checksum = if leb 4 (length f.body) then be32 (whole f.body) 0 else 0;
}

abbrev pub View : Type 0
View = EnvoyHeader × Bytes

abbrev pub view : EnvoyMessage → View
view msg = (msg.header, shown msg.payload)

abbrev pub frame_view : Frame → View
frame_view f = (header_of f, f.body)

-- A slice that begins with the frame.
abbrev pub framed : Frame → Bytes → ℕ → Slice
framed f rest n = record { back = encode_onto f rest; len = n }

bytes32_read :
    (n : ℕ)
    → n < 2 ^ 32
    → n / 2 ^ 24 % 256 * 2 ^ 24 + n / 2 ^ 16 % 256 * 2 ^ 16 + n / 2 ^ 8 % 256 * 2 ^ 8 + n % 256 ≡ n
bytes32_read n h = omega arith

bytes64_read :
    (n : ℕ)
    → n < 2 ^ 64
    → be32 (whole (bytes64 n [])) 0 * 2 ^ 32 + be32 (whole (bytes64 n [])) 4 ≡ n
bytes64_read n h = omega arith

pub be32-framed-magic : (f : Frame) (rest : Bytes) (n : ℕ) → be32 (framed f rest n) 0 ≡ envoy_magic
be32-framed-magic f rest n = refl

pub be32-framed-length :
    (f : Frame) (rest : Bytes) (n : ℕ) → IsFrame f → be32 (framed f rest n) 16 ≡ length f.body
be32-framed-length f rest n h = bytes32_read (length f.body) (omega arith)

get_or-append : (xs ys : Bytes) (i : ℕ) → i < length xs → get_or (xs ++ ys) i 0 ≡ get_or xs i 0
get_or-append [] ys i h = elim h [ ]
get_or-append (x ∷ xs) ys zero h = refl
get_or-append (x ∷ xs) ys (suc i) h = get_or-append xs ys i (omega arith)

checksum_framed :
    (f : Frame) (rest : Bytes)
    → (read_header (framed f rest (28 + length f.body))).checksum ≡ (header_of f).checksum
checksum_framed f rest = ground (
  arith,
  get_or-append f.body rest 0,
  get_or-append f.body rest 1,
  get_or-append f.body rest 2,
  get_or-append f.body rest 3,
)

pub read_header-framed :
    (f : Frame) (rest : Bytes)
    → IsFrame f
    → read_header (framed f rest (28 + length f.body)) ≡ header_of f
read_header-framed f rest h = λ i. record {
  magic = envoy_magic;
  version = f.version;
  type = f.type;
  flags = f.flags;
  stream_id = bytes64_read f.stream_id h.stream_range i;
  length = be32-framed-length f rest (28 + length f.body) h i;
  timestamp = bytes64_read f.timestamp h.time_range i;
  checksum = checksum_framed f rest i;
}
