-- ===== src/Tests/Model.antt =====
-- A trace of two spans.
use a.Prelude.{ℕ}
use a.Golang.Text.{text}
use a.Model.Span.{Span}
use a.Tests.Instances.{span_of}

abbrev root : Span ℕ
root = record (span_of (text "t1") 5 0) { span_id = text "a"; start_time = 20; end_time = 25 }

abbrev child : Span ℕ
child = record (span_of (text "t1") 5 0) {
  span_id = text "b";
  parent_span_id = text "a";
  start_time = 10;
  end_time = 22;
}
