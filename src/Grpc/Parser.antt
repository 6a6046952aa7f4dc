-- ===== src/Grpc/Parser.antt =====
-- pkg/protocol/parser.go: the methods of `GRPCParser`. It slices within what its payload shows, so
-- the payload is the bytes that the slice shows.
use a.Prelude.{
  ℕ, zero, suc, ◌+◌, ◌-◌, ◌%◌, ◌^◌, Bool, false, ◌||◌, ◌&&◌, Option, none, some, List, [], ◌∷◌, ltb,
  leb, ◌==◌, if◌then◌else◌, length, get_or, take, drop,
}
use a.Golang.Dict.{insert}
use a.Golang.Result.{Result, ok, err, panic, ◌>>=◌}
use a.Golang.Slice.{Bytes, whole, be32}
use a.Golang.Split.{cut, split_at, split_crlf}
use a.Golang.Text.{text, bytes_eq, index_byte, Unicode}
use a.Model.Span.{Span}
use a.Http.Parser.{Headers, identify}

pub record GrpcMessage : Type 0 where
  pub service_name : Bytes
  pub method_name : Bytes
  pub status_code : ℕ
  pub metadata : Headers

-- `CanHandle`
unfoldable pub can_handle : Bytes → Bool
can_handle payload =
    if ltb (length payload) 5 then false else get_or payload 0 0 == 0 || get_or payload 0 0 == 1

-- The second and third part of a path become the names.
unfoldable pub name_by_header : List Bytes → GrpcMessage → GrpcMessage
name_by_header (before ∷ service ∷ method ∷ rest) msg = record msg {
  service_name = service;
  method_name = method;
}
name_by_header _ msg = msg

-- The first and second part of a path of three parts or more become the names.
unfoldable pub name_by_path : List Bytes → GrpcMessage → GrpcMessage
name_by_path (service ∷ method ∷ other ∷ rest) msg = record msg {
  service_name = service;
  method_name = method;
}
name_by_path _ msg = msg

-- `for start > 0 && payload[start-1] != 0 { start-- }`
unfoldable pub start_of : Bytes → ℕ → ℕ
start_of payload zero = 0
start_of payload (suc k) = if get_or payload k 0 == 0 then suc k else start_of payload k

-- The names by the bytes around the first slash, up to three zero bytes.
unfoldable pub scan_path : Bytes → GrpcMessage → GrpcMessage
scan_path payload msg = elim (index_byte b'/' payload) [
  | none ↦ msg
  | some idx ↦
      if ltb 0 idx
      then elim (cut (0 ∷ 0 ∷ 0 ∷ []) (drop (start_of payload idx) payload)) [
        | none ↦ msg
        | some (path, after) ↦
            if ltb 0 (length path) then name_by_path (split_at b'/' path) msg else msg
      ]
      else msg
]

-- The header block of the body behind its length, `body[5 : 5+headerLen]`. Its upper bound is a
-- uint32; `none` where there is no block.
unfoldable pub header_block : Bytes → Result (Option Bytes)
header_block body =
    let size = be32 (whole body) 1 in
    let high = (5 + size) % 2 ^ 32 in
    if leb 5 (length body) && (get_or body 0 0 == 0 && leb size (length body - 5))
    then (if leb 5 high then ok (some (take (high - 5) (drop 5 body))) else panic)
    else ok none

module _ (u : Unicode) {F : Type 0} where
  -- What a line of the block says.
  unfoldable pub read_entry : Bytes → Bytes → GrpcMessage → Span F → GrpcMessage × Span F
  read_entry key value msg span =
      let kept = record msg { metadata = insert key value msg.metadata } in
      (
        if bytes_eq (u.to_lower key) (text ":path")
            then name_by_header (split_at b'/' value) kept
            else kept,
        identify u key value span,
      )

  -- The loop over the lines, to the first empty one.
  unfoldable pub read_metadata : List Bytes → GrpcMessage → Span F → GrpcMessage × Span F
  read_metadata [] msg span = (msg, span)
  read_metadata ([] ∷ lines) msg span = (msg, span)
  read_metadata ((c ∷ line) ∷ lines) msg span = elim (cut (text ":") (c ∷ line)) [
    | none ↦ read_metadata lines msg span
    | some (name, value) ↦
        let (msg', span') = read_entry (u.trim_space name) (u.trim_space value) msg span in
        read_metadata lines msg' span'
  ]

  unfoldable pub read_block : Option Bytes → GrpcMessage → Span F → GrpcMessage × Span F
  read_block none msg span = (msg, span)
  read_block (some block) msg span = read_metadata (split_crlf block) msg span

  -- `Parse`
  unfoldable pub parse : Bytes → Span F → Result (GrpcMessage × Span F)
  parse payload span =
      let msg : GrpcMessage = record {
        service_name = [];
        method_name = [];
        status_code = get_or payload 0 0;
        metadata = [];
      } in
      if ltb (length payload) 5
      then err
      else if ltb 5 (length payload)
      then (do
        block ← header_block (drop 5 payload)
        let read = read_block block msg span
        ok (scan_path payload read.0, read.1))
      else ok (msg, span)
