-- ===== src/Storage/Marks.antt =====
-- pkg/storage/clickhouse.go: the placeholders of the statement of `QueryTraces`.
use a.Prelude.{
  ℕ, zero, suc, ◌+◌, ◌≡◌, refl, arith, Option, none, some, [], ◌∷◌, ◌++◌, ◌==◌, if◌then◌else◌,
  length, length-append, Bool-cases, inl, inr,
}
use a.Golang.Int.{ℤ, pos, negsuc}
use a.Golang.Slice.{Bytes}
use a.Golang.Text.{text, bytes_eq}
use a.Storage.Row.{pad_string}
use a.Storage.Query.{
  TraceQuery, Arg, text_arg, time_arg, float_arg, Statement, add_condition, if_text, if_some,
  if_positive, add_text, traces_statement,
}

-- The placeholders in a text.
abbrev pub marks : Bytes → ℕ
marks [] = 0
marks (c ∷ sql) = (if c == b'?' then 1 else 0) + marks sql

marks-append : (s t : Bytes) → marks (s ++ t) ≡ marks s + marks t
marks-append [] t = omega arith
marks-append (c ∷ s) t = omega (arith, marks-append s t)

-- A statement with as many placeholders as arguments.
abbrev pub Matches : {F : Type 0} → Statement F → Type 0
Matches s = marks s.sql ≡ length s.args

module _ {F : Type 0} (s : Statement F) (h : Matches s) where
  add_condition-Matches :
      (part : Bytes) (arg : Arg F) → marks part ≡ 1 → Matches (add_condition part arg s)
  unfolding add_condition
  add_condition-Matches part arg one =
      omega (arith, h, marks-append s.sql part, length-append s.args (arg ∷ []))

  if_text-Matches :
      (value part : Bytes) (arg : Arg F) → marks part ≡ 1 → Matches (if_text value part arg s)
  unfolding if_text
  if_text-Matches value part arg one = elim (Bool-cases (bytes_eq value [])) [
    | inl e ↦ rw (e, if_text) h
    | inr e ↦ rw (e, if_text) (add_condition-Matches part arg one)
  ]

  if_some-Matches :
      {A : Type 0} (value : Option A) (part : Bytes) (arg : A → Arg F)
      → marks part ≡ 1
      → Matches (if_some value part arg s)
  unfolding if_some
  if_some-Matches none part arg one = h
  if_some-Matches (some v) part arg one = add_condition-Matches part (arg v) one

  if_positive-Matches : (n : ℤ) (part : Bytes) → marks part ≡ 1 → Matches (if_positive n part s)
  unfolding if_positive
  if_positive-Matches (pos zero) part one = h
  if_positive-Matches (pos (suc n)) part one =
      add_condition-Matches part (Arg.int_arg (pos (suc n))) one
  if_positive-Matches (negsuc n) part one = h

  add_text-Matches : (part : Bytes) → marks part ≡ 0 → Matches (add_text part s)
  unfolding add_text
  add_text-Matches part none_in = omega (arith, h, marks-append s.sql part)

-- Whatever filters a query has, its statement has one placeholder for each of its arguments.
pub traces_statement-Matches : {F : Type 0} (q : TraceQuery F) → Matches (traces_statement q)
unfolding traces_statement
traces_statement-Matches {F} q =
    let h0 : Matches {F = F}
        (record { sql = text "SELECT DISTINCT trace_id FROM spans WHERE 1=1"; args = [] }) =
      refl in
    let h1 =
      if_text-Matches _ h0 q.service_name (text " AND service_name = ?") (text_arg q.service_name)
        refl in
    let h2 = if_some-Matches _ h1 q.start_time (text " AND start_time >= ?") time_arg refl in
    let h3 = if_some-Matches _ h2 q.end_time (text " AND start_time <= ?") time_arg refl in
    let h4 = if_some-Matches _ h3 q.min_latency_ms (text " AND duration_ms >= ?") float_arg refl in
    let h5 = if_some-Matches _ h4 q.max_latency_ms (text " AND duration_ms <= ?") float_arg refl in
    let h6 =
      if_text-Matches _ h5 q.protocol (text " AND protocol = ?") (text_arg q.protocol) refl in
    let h7 =
      if_text-Matches _ h6 q.trace_id (text " AND trace_id = ?")
        (text_arg (pad_string q.trace_id 32)) refl in
    let h8 = add_text-Matches _ h7 (text " ORDER BY start_time DESC") refl in
    let h9 = if_positive-Matches _ h8 q.limit (text " LIMIT ?") refl in
    if_positive-Matches _ h9 q.offset (text " OFFSET ?") refl
