-- ===== src/Storage/Widths.antt =====
-- pkg/storage/clickhouse.go: the widths of a row's columns.
use a.Prelude.{
  ℕ, zero, suc, ◌-◌, ◌≤◌, ◌≡◌, refl, Option, arith, length, replicate, length-append, length-take,
}
use a.Golang.Slice.{Bytes}
use a.Model.Span.{Span}
use a.Storage.Row.{pad_string, truncate, row_of}

length-replicate : (n : ℕ) (b : ℕ) → length (replicate n b) ≡ n
length-replicate zero b = refl
length-replicate (suc n) b = omega (arith, length-replicate n b)

length-pad_string : (s : Bytes) (n : ℕ) → length (pad_string s n) ≡ n
unfolding pad_string
length-pad_string s n = ground (
  arith,
  length-take n s,
  length-append s (replicate (n - length s) 0),
  length-replicate (n - length s) 0,
)

length-truncate-le : (s : Bytes) (max : ℕ) → length (truncate s max) ≤ max
unfolding truncate
length-truncate-le s max = ground (arith, length-take max s)

-- The row of any span has identifiers of 32, 16 and 16 bytes, the widths of their columns, and a
-- payload of at most 1024 bytes.
row_of-widths :
    {F : Type 0} (parse_ip : Bytes → Option Bytes) (span : Span F)
    → (length (row_of parse_ip span).trace_id ≡ 32)
      × (length (row_of parse_ip span).span_id ≡ 16)
      × (length (row_of parse_ip span).parent_span_id ≡ 16)
      × (length (row_of parse_ip span).payload ≤ 1024)
unfolding row_of
row_of-widths parse_ip span = (
  length-pad_string span.trace_id 32,
  length-pad_string span.span_id 16,
  length-pad_string span.parent_span_id 16,
  length-truncate-le span.payload 1024,
)
