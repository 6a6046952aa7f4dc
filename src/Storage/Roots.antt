-- ===== src/Storage/Roots.antt =====
-- pkg/storage/clickhouse.go: the root of a trace that `GetTraceByID` reads back. An identifier is
-- stored with zero bytes up to the width of its column, and `strings.TrimSpace` takes off none.
use a.Prelude.{
  ℕ, ◌+◌, ◌-◌, ◌≤◌, ◌<◌, ◌≡◌, refl, ◌⊎◌, inl, inr, true, false, Option, none, some, List, [], ◌∷◌,
  ◌++◌, leb, length, take, replicate, map, All, Bool-cases,
}
use a.Golang.Float.{Float}
use a.Golang.Slice.{Bytes}
use a.Golang.Text.{bytes_eq, Unicode}
use a.Model.Span.{Span}
use a.Model.Trace.{Trace, root_of, build_trace_tree}
use a.Storage.Query.{trace_statement}
use a.Storage.Row.{row_of, pad_string}
use a.Storage.Reader.{Reader, scan_all, read_rows, span_of_row, get_trace_by_id}

-- A zero byte, or a visible ASCII byte: no white space.
abbrev pub IsInk : ℕ → Type 0
IsInk c = (c ≡ 0) ⊎ (33 ≤ c × (c < 127))

-- `TrimSpace` does not take off such a byte.
abbrev pub KeepsInk : Unicode → Type 0
KeepsInk u = (c : ℕ) (s : Bytes) → IsInk c → bytes_eq (u.trim_space (c ∷ s)) [] ≡ false

-- An identifier that is empty, or begins with a visible byte.
abbrev pub IsId : Bytes → Type 0
IsId [] = Unit {0}
IsId (c ∷ s) = 33 ≤ c × (c < 127)

pad_string-IsInk :
    (id : Bytes) → IsId id → (c : ℕ) × (s : Bytes) × (pad_string id 16 ≡ c ∷ s) × IsInk c
unfolding pad_string
pad_string-IsInk [] h = (0, replicate 15 0, refl, inl refl)
pad_string-IsInk (c ∷ s) h = elim (Bool-cases (leb 16 (length (c ∷ s)))) [
  | inl long ↦ (c, take 15 s, rw long refl, inr h)
  | inr short ↦ (c, s ++ replicate (16 - length (c ∷ s)) 0, rw short refl, inr h)
]

-- The spans that are read have parents, all of them.
module _ {F : Type 0} where
  abbrev HaveParents : List (Span F) → Type 0
  HaveParents = All (λ s. bytes_eq s.parent_span_id [] ≡ false)

  root_of-HaveParents :
      (i : ℕ) (spans : List (Span F)) (root : Option ℕ)
      → HaveParents spans
      → root_of i spans root ≡ root
  unfolding root_of
  root_of-HaveParents i [] root h = refl
  root_of-HaveParents i (s ∷ spans) root h =
      rw (h.0, root_of) (root_of-HaveParents (i + 1) spans root h.1)

scan_all-map :
    {A B : Type 0} (f : A → B) (xs : List A) → scan_all (map (λ x. some (f x)) xs) ≡ some (map f xs)
unfolding scan_all
scan_all-map f [] = refl
scan_all-map f (x ∷ xs) = rw (scan_all-map f xs, scan_all) refl

module _ (fl : Float) (u : Unicode) (db : Reader fl.F) (keeps : KeepsInk u) where
  open fl use {F}
  open db use {Conn, query_spans}

  read-HaveParents :
      (parse_ip : Bytes → Option Bytes) (spans : List (Span F))
      → All (λ s. IsId s.parent_span_id) spans
      → HaveParents (map (span_of_row fl u db) (map (row_of parse_ip) spans))
  unfolding span_of_row row_of
  read-HaveParents parse_ip [] h = tt
  read-HaveParents parse_ip (s ∷ spans) h =
      let (c, r, padded, ink) = pad_string-IsInk s.parent_span_id h.0 in
      (rw padded (keeps c r ink), read-HaveParents parse_ip spans h.1)

  build-HaveParents :
      (s : Span F) (spans : List (Span F))
      → HaveParents (s ∷ spans)
      → (trace : Trace F) × (build_trace_tree fl (s ∷ spans) ≡ some trace)
        × (trace.root_span ≡ none)
        × (trace.spans ≡ s ∷ spans)
  unfolding build_trace_tree
  build-HaveParents s spans h = (_, refl, root_of-HaveParents 0 (s ∷ spans) none h, refl)

  -- Where the database answers with the rows of one span or more, as `doFlush` makes them, whose
  -- parent identifiers are empty or begin with a visible byte, and `TrimSpace` leaves a text that
  -- begins with a zero byte or a visible one not empty, `GetTraceByID` of an identifier that is not
  -- empty returns the trace of the rows' spans without a root, also where a span without a parent was
  -- among those that were stored.
  pub get_trace_by_id-rootless :
      (c : ℕ) (id : Bytes) (parse_ip : Bytes → Option Bytes) (s : Span F) (spans : List (Span F))
      (conn : Conn)
      → All (λ s. IsId s.parent_span_id) (s ∷ spans)
      → (query_spans (trace_statement (c ∷ id)) conn).1
        ≡ some
            (record { scanned = map (λ s. some (row_of parse_ip s)) (s ∷ spans); complete = true })
      → (trace : Trace F) × ((get_trace_by_id fl u db (c ∷ id) conn).1 ≡ some trace)
        × (trace.root_span ≡ none)
        × (trace.spans ≡ map (span_of_row fl u db) (map (row_of parse_ip) (s ∷ spans)))
  unfolding get_trace_by_id read_rows
  get_trace_by_id-rootless c id parse_ip s spans conn h e =
      let (trace, built, rootless, whole) =
        build-HaveParents (span_of_row fl u db (row_of parse_ip s))
          (map (span_of_row fl u db) (map (row_of parse_ip) spans))
          (read-HaveParents parse_ip (s ∷ spans) h) in
      (
        trace,
        rw (e, get_trace_by_id) (rw (scan_all-map (row_of parse_ip) (s ∷ spans), read_rows) built),
        rootless,
        whole,
      )
