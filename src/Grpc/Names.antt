-- ===== src/Grpc/Names.antt =====
-- pkg/protocol/parser.go: the headers of a gRPC payload have no say in the names that `Parse` returns.
use a.Prelude.{
  ◌^◌, ◌<◌, ◌≢◌, ◌≡◌, refl, ◌∙◌, arith, true, false, Option, none, some, List, [], ◌∷◌, ltb, length,
  get_or, drop, length-drop, Bool-cases, Option-cases, inl, inr,
}
use a.Golang.Result.{ok, err, panics, Result-cases}
use a.Golang.Slice.{Bytes}
use a.Golang.Split.{cut, split_at, split_crlf, Lacks, cut-Lacks}
use a.Golang.Text.{text, bytes_eq, index_byte, Unicode}
use a.Model.Span.{Span}
use a.Grpc.Parser.{
  GrpcMessage, name_by_path, start_of, scan_path, header_block, read_entry, read_metadata,
  read_block, parse,
}

-- A block within 2^32 bytes does not overflow its bound.
pub header_block-panics : (body : Bytes) → length body < 2 ^ 32 → panics (header_block body) ≡ false
unfolding header_block
header_block-panics body h = ground arith

header_block-ne-err : (body : Bytes) → header_block body ≢ err
unfolding header_block
header_block-ne-err body e = ground arith

header_block_ok :
    (body : Bytes)
    → panics (header_block body) ≡ false
    → (block : Option Bytes) × (header_block body ≡ ok block)
header_block_ok body safe = elim (Result-cases (header_block body)) [
  | inl found ↦ found
  | inr failed ↦ elim failed [ inl e ↦ absurd (header_block-ne-err body e) | inr e ↦ absurd (cc) ]
]

abbrev pub names : GrpcMessage → Bytes × Bytes
names msg = (msg.service_name, msg.method_name)

-- Neither lower case nor trimming makes a colon.
abbrev pub KeepsColons : Unicode → Type 0
KeepsColons u = (s : Bytes) → Lacks b':' s → Lacks b':' (u.to_lower (u.trim_space s))

not_path : (s : Bytes) → Lacks b':' s → bytes_eq s (text ":path") ≡ false
unfolding bytes_eq
not_path [] h = refl
not_path (c ∷ s) h = let differs = h.0 in ground arith

name_by_path-names :
    (parts : List Bytes) (m m' : GrpcMessage)
    → names m ≡ names m'
    → names (name_by_path parts m) ≡ names (name_by_path parts m')
unfolding name_by_path
name_by_path-names [] m m' e = e
name_by_path-names (a ∷ []) m m' e = e
name_by_path-names (a ∷ b ∷ []) m m' e = e
name_by_path-names (a ∷ b ∷ c ∷ rest) m m' e = refl

-- What the scan finds does not depend on the message but by its names.
scan_path-names :
    (payload : Bytes) (m m' : GrpcMessage)
    → names m ≡ names m'
    → names (scan_path payload m) ≡ names (scan_path payload m')
unfolding scan_path
scan_path-names payload m m' e = elim (Option-cases (index_byte b'/' payload)) [
  | inl none_found ↦ rw (none_found, scan_path) e
  | inr (idx, slash) ↦ elim (Bool-cases (ltb 0 idx)) [
    | inr first ↦ rw (slash, scan_path) (rw first e)
    | inl later ↦ elim (Option-cases (cut (0 ∷ 0 ∷ 0 ∷ []) (drop (start_of payload idx) payload))) [
      | inl no_end ↦ rw (slash, scan_path) (rw later (rw no_end e))
      | inr ((path, after), found) ↦ elim (Bool-cases (ltb 0 (length path))) [
        | inr empty ↦ rw (slash, scan_path) (rw later (rw found (rw empty e)))
        | inl filled ↦
            rw (slash, scan_path)
              (rw later (rw found (rw filled (name_by_path-names (split_at b'/' path) m m' e))))
      ]
    ]
  ]
]

module _ (u : Unicode) (keeps : KeepsColons u) {F : Type 0} where
  read_entry-names :
      (name value : Bytes) (msg : GrpcMessage) (span : Span F)
      → Lacks b':' name
      → names (read_entry u (u.trim_space name) value msg span).0 ≡ names msg
  unfolding read_entry
  read_entry-names name value msg span h =
      rw (not_path (u.to_lower (u.trim_space name)) (keeps name h)) refl

  read_metadata-names :
      (lines : List Bytes) (msg : GrpcMessage) (span : Span F)
      → names (read_metadata u lines msg span).0 ≡ names msg
  unfolding read_metadata
  read_metadata-names [] msg span = refl
  read_metadata-names ([] ∷ lines) msg span = refl
  read_metadata-names ((c ∷ line) ∷ lines) msg span =
      elim (Option-cases (cut (text ":") (c ∷ line))) [
        | inl e ↦ rw (e, read_metadata) (read_metadata-names lines msg span)
        | inr ((name, value), e) ↦
            let next = read_entry u (u.trim_space name) (u.trim_space value) msg span in
            rw (e, read_metadata)
              (read_metadata-names lines next.0 next.1
                ∙ read_entry-names name (u.trim_space value) msg span (cut-Lacks b':' (c ∷ line) e))
      ]

  read_block-names :
      (block : Option Bytes) (msg : GrpcMessage) (span : Span F)
      → names (read_block u block msg span).0 ≡ names msg
  unfolding read_block
  read_block-names none msg span = refl
  read_block-names (some block) msg span = read_metadata-names (split_crlf block) msg span

  pub parse-names :
      (payload : Bytes) (span : Span F)
      → 5 < length payload
      → length payload < 2 ^ 32
      → (r : GrpcMessage × Span F) × (parse u payload span ≡ ok r)
        × (names r.0
            ≡ names (
                scan_path payload (record {
                  service_name = [];
                  method_name = [];
                  status_code = get_or payload 0 0;
                  metadata = [];
                })))
  unfolding parse
  parse-names payload span h k =
      let msg : GrpcMessage = record {
        service_name = [];
        method_name = [];
        status_code = get_or payload 0 0;
        metadata = [];
      } in
      let long : ltb 5 (length payload) ≡ true = ground arith in
      let long' : ltb (length payload) 5 ≡ false = ground arith in
      let short : panics (header_block (drop 5 payload)) ≡ false =
        header_block-panics (drop 5 payload) (omega (arith, length-drop 5 payload)) in
      let (block, e) = header_block_ok (drop 5 payload) short in
      (
        (scan_path payload (read_block u block msg span).0, (read_block u block msg span).1),
        rw long' (rw long (rw e refl)),
        scan_path-names payload (read_block u block msg span).0 msg
            (read_block-names block msg span),
      )
